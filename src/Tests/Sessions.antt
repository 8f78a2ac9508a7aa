-- ===== src/Tests/Sessions.antt =====
-- A session's life, and a teardown that is lost.
use cpp_lockfree_core.Base.{◌+◌, ◌≤◌, ◌≡◌, refl, arith, ℕ_discrete}
use cpp_lockfree_core.Family.{update}
use cpp_lockfree_core.Session.{
  outside, recv, idle, post_check, System, step, accept_recv, send_packet, none_come, hang_up,
  enter, worker, check_open, raise, recheck_open, recheck_closing, withdraw, withdrawn, issue,
  found_mark, mark, closing, io_left,
}
use cpp_lockfree_core.Session.Life.{
  Life, accepted, accepted-Life, Step-Life, Run, here, then, Safe, Run-Safe,
}

-- Thread 0 posts the first receive. Thread 1 sends a packet and raises `m_ioCount`. Thread 2 reports
-- that the client has gone, marks the session and finds an operation left. Thread 1 sees the mark and
-- withdraws.
abbrev lost : (t : System) × Run 3 accepted 16 t
unfolding ℕ_discrete
lost = (
  _,
  then _
      (then _
        (then _
          (then _
            (then _
              (then _
                (then _
                  (then _
                    (then _
                      (then _
                        (then _
                          (then _
                            (then _
                              (then _
                                (then _ (then _ here (step 0 (omega arith) accept_recv))
                                  (step 0 (omega arith) (check_open refl)))
                                (step 0 (omega arith) raise))
                              (step 0 (omega arith) (recheck_open refl)))
                            (step 0 (omega arith) issue))
                          (step 1 (omega arith) send_packet))
                        (step 1 (omega arith) (enter refl)))
                      (step 1 (omega arith) (check_open refl)))
                    (step 1 (omega arith) raise))
                  (step 2 (omega arith) (worker (none_come {n = 0} refl))))
                (step 2 (omega arith) (worker hang_up)))
              (step 2 (omega arith) (found_mark refl)))
            (step 2 (omega arith) mark))
          (step 2 (omega arith) (closing (λ e. omega (arith, e)))))
        (step 2 (omega arith) (io_left (λ e. omega (arith, e)))))
      (step 1 (omega arith) (recheck_closing (λ e. omega (arith, e)))),
)

Run-Safe_example : Safe 3 lost.0
Run-Safe_example = Run-Safe 3 lost.1 (omega arith)

-- Two steps later all threads are idle, the session is closing and has no operation left, and it is
-- neither torn down nor in the free list, with nobody left to tear it down.
teardown_is_lost :
    (t : System) × Run 3 accepted 18 t
    × (t.session.is_closing ≡ 1)
    × (t.session.io_count ≡ 0)
    × (t.session.in_flight ≡ 0)
    × (t.session.is_torn_down ≡ 0)
    × (t.pc 0 ≡ idle)
    × (t.pc 1 ≡ idle)
    × (t.pc 2 ≡ idle)
unfolding lost ℕ_discrete
teardown_is_lost = (
  _,
  then _ (then _ lost.1 (step 1 (omega arith) withdraw)) (step 1 (omega arith) withdrawn),
  refl,
  refl,
  refl,
  refl,
  refl,
  refl,
  refl,
)

Step-Life_example :
    Life 3
      (record { session = accepted.session; pc = update accepted.pc 0 (post_check recv outside) })
    × (0 ≤ 0 + 1)
Step-Life_example = Step-Life (accepted-Life 3) (step 0 (omega arith) accept_recv) (omega arith)
