-- ===== src/Session/Counts.antt =====
-- Who has a count of `m_ioCount`, and who is tearing the session down.
use cpp_lockfree_core.Base.{ℕ, ◌+◌}
use cpp_lockfree_core.Session.{
  Ret, outside, handler, Pc, idle, completed, hung_up, finish, send_enter, post_check, post_raise,
  post_recheck, post_withdraw, post_issue, post_failed, send_withdrawn, send_failed, remove_find,
  remove_mark, remove_closing, remove_io, remove_cas, tear_erase, tear_push,
}

abbrev pub held_by : Ret → ℕ
held_by outside = 0
held_by handler = 1

-- The counts that a thread has raised, or taken over with a completion, and not lowered.
abbrev pub held : Pc → ℕ
held idle = 0
held completed = 1
held hung_up = 1
held finish = 1
held (send_enter k) = held_by k
held (post_check b k) = held_by k
held (post_raise b k) = held_by k
held (post_recheck b k) = held_by k + 1
held (post_withdraw b k) = held_by k + 1
held (post_issue b k) = held_by k + 1
held (post_failed b k) = held_by k + 1
held (send_withdrawn k) = held_by k
held (send_failed k) = held_by k
held (remove_find known k) = held_by k
held (remove_mark k) = held_by k
held (remove_closing k) = held_by k
held (remove_io k) = held_by k
held (remove_cas k) = held_by k
held (tear_erase k) = held_by k
held (tear_push k) = held_by k

abbrev pub tearing : Pc → ℕ
tearing (tear_erase k) = 1
tearing (tear_push k) = 1
tearing _ = 0
