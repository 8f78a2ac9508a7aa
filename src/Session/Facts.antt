-- ===== src/Session/Facts.antt =====
-- What one step does to the counts.
use cpp_lockfree_core.Base.{ℕ, ◌+◌, ◌^◌, ◌≡◌, ◌≢◌, ◌≤◌, ◌<◌, ◌⊎◌, refl, arith}
use cpp_lockfree_core.MemoryPool.{increment, decrement}
use cpp_lockfree_core.Session.{
  Session, Io, recv, send, Ret, outside, handler, Pc, idle, completed, hung_up, finish, send_enter,
  post_check, post_raise, post_recheck, post_withdraw, post_issue, post_failed, send_withdrawn,
  send_failed, remove_find, remove_mark, remove_closing, remove_io, remove_cas, tear_erase,
  tear_push, return_to, after_withdraw, after_failed,
}
use cpp_lockfree_core.Session.Counts.{held_by, held, tearing}

-- The counts that keep a teardown away: a thread that has one gives the system another operation
-- without looking at `m_isClosing` again, or has a completion to finish.
abbrev pub solid : Pc → ℕ
solid idle = 0
solid completed = 1
solid hung_up = 1
solid finish = 1
solid (send_enter k) = held_by k
solid (post_check b k) = held_by k
solid (post_raise b k) = held_by k
solid (post_recheck b k) = held_by k
solid (post_withdraw b k) = held_by k
solid (post_issue b k) = held_by k + 1
solid (post_failed b k) = held_by k + 1
solid (send_withdrawn k) = held_by k
solid (send_failed k) = held_by k
solid (remove_find known k) = held_by k
solid (remove_mark k) = held_by k
solid (remove_closing k) = held_by k
solid (remove_io k) = held_by k
solid (remove_cas k) = held_by k
solid (tear_erase k) = held_by k
solid (tear_push k) = held_by k

-- A thread that has seen the session closing, and one that has seen no operation left.
abbrev pub asks : Pc → ℕ
asks (remove_io k) = 1
asks _ = 0

abbrev pub past : Pc → ℕ
past (remove_cas k) = 1
past (tear_erase k) = 1
past (tear_push k) = 1
past _ = 0

pub solid-le : (p : Pc) → solid p ≤ held p
solid-le p = ground arith

pub record Fact (s : Session) (p : Pc) (t : Session) (p' : Pc) : Type 0 where
  pub count : t.io_count + (held p + s.in_flight) ≡ s.io_count + (held p' + t.in_flight)
  pub tears : t.freed + (tearing p' + s.is_torn_down) ≡ s.freed + (tearing p + t.is_torn_down)
  pub closing_kept : s.is_closing ≢ 0 → t.is_closing ≢ 0
  pub quiet_kept : s.is_closing ≢ 0 → s.in_flight + solid p ≡ 0 → t.in_flight + solid p' ≡ 0
  pub asked : 0 < asks p' → t.is_closing ≢ 0
  pub bit : s.is_torn_down ≤ 1 → t.is_torn_down ≤ 1
  pub up : t.io_count ≤ s.io_count + 1
  pub commits :
      0 < t.is_torn_down + past p'
      → (0 < s.is_torn_down + past p)
        ⊎ ((s.io_count ≡ 0) × (0 < asks p) × (t.in_flight ≡ s.in_flight) × (solid p' ≡ solid p))

pub returned :
    (k : Ret)
    → (held (return_to k) ≡ held_by k)
      × (solid (return_to k) ≡ held_by k)
      × (tearing (return_to k) ≡ 0)
      × (asks (return_to k) ≡ 0)
      × (past (return_to k) ≡ 0)
returned outside = (refl, refl, refl, refl, refl)
returned handler = (refl, refl, refl, refl, refl)

pub lowered_to :
    (b : Io) (k : Ret)
    → ((held (after_withdraw b k) ≡ held_by k) × (held (after_failed b k) ≡ held_by k))
      × ((solid (after_withdraw b k) ≡ held_by k) × (solid (after_failed b k) ≡ held_by k))
      × ((tearing (after_withdraw b k) ≡ 0) × (tearing (after_failed b k) ≡ 0))
      × ((asks (after_withdraw b k) ≡ 0) × (asks (after_failed b k) ≡ 0))
      × ((past (after_withdraw b k) ≡ 0) × (past (after_failed b k) ≡ 0))
lowered_to recv k =
    let r = returned k in ((r.0, refl), (r.1, refl), (r.2, refl), (r.3, refl), (r.4, refl))
lowered_to send k = ((refl, refl), (refl, refl), (refl, refl), (refl, refl), (refl, refl))

pub raise_lem : (n : ℕ) → n + 1 < 2 ^ 32 → increment n ≡ n + 1
raise_lem n h = omega arith

pub lower_lem : (n : ℕ) → 0 < n → n < 2 ^ 32 → decrement n + 1 ≡ n
lower_lem n h l = omega arith
