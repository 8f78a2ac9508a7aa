-- ===== src/Session/Life.antt =====
-- The life of a session, from its acceptance to its teardown.
use cpp_lockfree_core.Base.{
  ℕ, suc, zero, ◌+◌, ◌^◌, ◌≡◌, ◌≢◌, ◌≤◌, ◌<◌, inl, inr, true, refl, sym, subst, arith, dec_lt,
}
use cpp_lockfree_core.Family.{update}
use cpp_lockfree_core.Session.{Session, Ret, Io, Pc, idle, post_issue, System, Step, step}
use cpp_lockfree_core.Session.Counts.{held, tearing}
use cpp_lockfree_core.Family.Sums.{sum_over, sum_over-update, sum_over-member}
use cpp_lockfree_core.Session.Facts.{solid, solid-le, asks, past, Fact}
use cpp_lockfree_core.Session.Moves.{Move-Fact}

-- Nothing can give the session to the system any more.
pub record Quiet (n : ℕ) (s : System) : Type 0 where
  pub is_closed : s.session.is_closing ≢ 0
  pub nothing_left : s.session.in_flight + sum_over solid s.pc n ≡ 0

pub record Life (n : ℕ) (s : System) : Type 0 where
  pub counted : s.session.io_count ≡ sum_over held s.pc n + s.session.in_flight
  pub torn : s.session.freed + sum_over tearing s.pc n ≡ s.session.is_torn_down
  pub bit : s.session.is_torn_down ≤ 1
  pub asking : 0 < sum_over asks s.pc n → s.session.is_closing ≢ 0
  pub quiet : 0 < s.session.is_torn_down + sum_over past s.pc n → Quiet n s

sum_over-le : (pc : ℕ → Pc) (n : ℕ) → sum_over solid pc n ≤ sum_over held pc n
unfolding sum_over
sum_over-le pc zero = omega arith
sum_over-le pc (suc n) = omega (arith, solid-le (pc n), sum_over-le pc n)

module _ {n i : ℕ} {s : System} {t : Session} {p : Pc} (life : Life n s) (l : i < n)
    (fact : Fact s.session (s.pc i) t p) where
  abbrev pub after : System
  after = record { session = t; pc = update s.pc i p }

  Quiet-kept : Quiet n s → Quiet n after
  Quiet-kept q = record {
    is_closed = fact.closing_kept q.is_closed;
    nothing_left =
        let m = sum_over-member solid s.pc i n l in
        let k = fact.quiet_kept q.is_closed (omega (arith, m, q.nothing_left)) in
        omega (arith, k, m, q.nothing_left, sum_over-update solid s.pc i p n l);
  }

  Quiet-begins :
      s.session.io_count ≡ 0
      → 0 < asks (s.pc i)
      → t.in_flight ≡ s.session.in_flight
      → solid p ≡ solid (s.pc i)
      → Quiet n after
  Quiet-begins none_left a same_flight same_solid = Quiet-kept (record {
    is_closed = life.asking (omega (arith, a, sum_over-member asks s.pc i n l));
    nothing_left = omega (arith, none_left, life.counted, sum_over-le s.pc n);
  })

  pub Fact-Life : Life n after
  Fact-Life = record {
    counted = omega (arith, fact.count, life.counted, sum_over-update held s.pc i p n l);
    torn = omega (arith, fact.tears, life.torn, sum_over-update tearing s.pc i p n l);
    bit = fact.bit life.bit;
    asking = λ a. elim (dec_lt 0 (asks p)) [
      | yes y ↦ fact.asked y
      | no z ↦
          fact.closing_kept (life.asking (omega (arith, a, z, sum_over-update asks s.pc i p n l)))
    ];
    quiet = λ a. elim (dec_lt 0 (t.is_torn_down + past p)) [
      | yes y ↦ elim (fact.commits y) [
        | inl c ↦ Quiet-kept (life.quiet (omega (arith, c, sum_over-member past s.pc i n l)))
        | inr (none_left, asked, same_flight, same_solid) ↦
            Quiet-begins none_left asked same_flight same_solid
      ]
      | no z ↦ Quiet-kept (life.quiet (omega (arith, a, z, sum_over-update past s.pc i p n l)))
    ];
  }

-- Every step of any thread keeps the account of a session's life: `m_ioCount` is the number of
-- operations that the system or a thread has in hand, the teardown has been won at most once, and
-- from the check of `m_ioCount` that leads to it on nobody can give the system an operation on the
-- session. The count must stay below 2^32 - 1.
pub Step-Life :
    {n : ℕ} {s t : System}
    → Life n s
    → Step n s t
    → s.session.io_count + 1 < 2 ^ 32
    → Life n t × (t.session.io_count ≤ s.session.io_count + 1)
Step-Life {n} {s} life (step i {t} {p} l m) few =
    let h = sum_over-member held s.pc i n l in
    let fact = Move-Fact few m (omega (arith, h, life.counted)) in (Fact-Life life l fact, fact.up)

-- A session that `acceptThread` has put into the map, before its first `recvPost`.
abbrev pub accepted : System
accepted = record {
  session = record {
    io_count = 0;
    is_send_pending = 0;
    is_closing = 0;
    is_torn_down = 0;
    mapped = true;
    freed = 0;
    in_flight = 0;
  };
  pc = λ _. idle;
}

pub data Run (n : ℕ) (s : System) : ℕ → System → Type 0 where
  here : Run n s 0 s
  then : (k : ℕ) {t u : System} → Run n s k t → Step n t u → Run n s (suc k) u

sum_idle : (h : Pc → ℕ) → h idle ≡ 0 → (n : ℕ) → sum_over h (λ _. idle) n ≡ 0
unfolding sum_over
sum_idle h e zero = refl
sum_idle h e (suc n) = omega (arith, e, sum_idle h e n)

pub accepted-Life : (n : ℕ) → Life n accepted
accepted-Life n = record {
  counted = omega (arith, sum_idle held refl n);
  torn = omega (arith, sum_idle tearing refl n);
  bit = omega arith;
  asking = λ a. absurd (omega (arith, a, sum_idle asks refl n));
  quiet = λ a. absurd (omega (arith, a, sum_idle past refl n));
}

Run-Life :
    (n : ℕ) {k : ℕ} {t : System}
    → Run n accepted k t
    → k + 1 < 2 ^ 32
    → Life n t × (t.session.io_count ≤ k)
Run-Life n here few = (accepted-Life n, omega arith)
Run-Life n (then k r st) few =
    let (life, le) = Run-Life n r (omega arith) in
    let (life', up) = Step-Life life st (omega (arith, le)) in (life', omega (arith, le, up))

-- What the teardown promises: the session goes back to the free list at most once, and once it is
-- torn down the system has no operation on it, and no thread is about to give it one.
pub record Safe (n : ℕ) (s : System) : Type 0 where
  pub freed_once : s.session.freed ≤ 1
  pub exact : s.session.io_count ≡ sum_over held s.pc n + s.session.in_flight
  pub no_flight : 0 < s.session.is_torn_down → s.session.in_flight ≡ 0
  pub no_issue :
      0 < s.session.is_torn_down → (i : ℕ) → i < n → (b : Io) (k : Ret) → s.pc i ≢ post_issue b k
  pub freed_closed : 0 < s.session.freed → s.session.is_closing ≢ 0

-- In any run of fewer than 2^32 - 1 steps of any threads over a session that has just been accepted,
-- and that is not accepted again, the session goes back to the free list at most once and only when
-- it is closing, `m_ioCount` is the number of operations in hand, and from the moment that
-- `m_isTornDown` is won the system has no operation on the session, and no thread will give it one.
pub Run-Safe : (n : ℕ) {k : ℕ} {t : System} → Run n accepted k t → k + 1 < 2 ^ 32 → Safe n t
Run-Safe n {k} {t} r few =
    let (life, le) = Run-Life n r few in
    record {
      freed_once = omega (arith, life.torn, life.bit);
      exact = life.counted;
      no_flight = λ d. omega (arith, (life.quiet (omega (arith, d))).nothing_left);
      no_issue = λ d i l b j e.
          let m : 1 ≤ solid (t.pc i) = subst (λ p. 1 ≤ solid p) (sym e) (omega arith) in
          absurd (
            omega (
              arith,
              m,
              (life.quiet (omega (arith, d))).nothing_left,
              sum_over-member solid t.pc i n l,
            ));
      freed_closed = λ d. (life.quiet (omega (arith, d, life.torn))).is_closed;
    }
