-- ===== src/Tests/Queues.antt =====
-- `LockFreeQueue` at work.
use cpp_lockfree_core.Base.{ℕ, ◌^◌, ◌≡◌, refl, List, [], ◌∷◌, arith, ℕ_discrete}
use cpp_lockfree_core.Family.{update}
use cpp_lockfree_core.LockFreeQueue.{
  Queue, idle, push_loop, Event, silent, pushed, popped, gave, begin_push, push_load, push_cas,
  push_cas_fail, push_data, push_done, begin_pop, pop_load, pop_cas, pop_data, pop_done, System,
  step, slot, new_queue,
}
use cpp_lockfree_core.LockFreeQueue.Invariant.{Fifo, Inv}
use cpp_lockfree_core.LockFreeQueue.Outcome.{After}
use cpp_lockfree_core.LockFreeQueue.Runs.{
  start, Run, here, then, Replay, empty_fifo, start-Inv, Step-Fifo, Run-Fifo,
}
use cpp_lockfree_core.LockFreeQueue.Stuck.{
  Alone, at_once, further, Spins, push-Spins, two_pushes, one_cell_overwrites,
}

-- Thread 1 pushes 7, and thread 2 pops it.
abbrev handed_over : List (Event ℕ)
handed_over =
    silent
    ∷ silent
    ∷ pushed 7
    ∷ silent
    ∷ silent
    ∷ silent
    ∷ silent
    ∷ popped 0
    ∷ silent
    ∷ gave 0 7
    ∷ []

abbrev no_value : ℕ → ℕ
no_value _ = 0

hand_over : (t : System ℕ) × Run (start (2 ^ 1) no_value) handed_over t
unfolding new_queue slot ℕ_discrete
hand_over = (
  _,
  then (gave 0 7) _
      (then silent _
        (then (popped 0) _
          (then silent _
            (then silent _
              (then silent _
                (then silent _
                  (then (pushed 7) _
                    (then silent _ (then silent _ here (step 1 (begin_push {v = 7})) refl)
                      (step 1 push_load) refl)
                    (step 1 (push_cas refl refl)) refl)
                  (step 1 push_data) refl)
                (step 1 push_done) refl)
              (step 2 begin_pop) refl)
            (step 2 pop_load) refl)
          (step 2 (pop_cas refl refl)) refl)
        (step 2 pop_data) refl)
      (step 2 pop_done) refl,
)

Run-Fifo_example :
    (f : Fifo ℕ) × Replay (2 ^ 1) empty_fifo handed_over f × Inv (2 ^ 1) hand_over.0 f
Run-Fifo_example = Run-Fifo 1 no_value (omega arith) hand_over.1 (omega arith)

Step-Fifo_example :
    (f : Fifo ℕ) × After (2 ^ 1) empty_fifo silent f
    × Inv
        (2 ^ 1)
        (record {
          queue = new_queue (2 ^ 1) no_value;
          pc = update (λ _. idle) 1 (push_loop 7 (new_queue (2 ^ 1) no_value).enqueue_pos);
        })
        f
Step-Fifo_example = Step-Fifo (start-Inv 1 no_value (omega arith)) (step 1 begin_push) (omega arith)

-- Another push has the ticket 0 and has not published it.
abbrev taken_ticket : Queue ℕ
taken_ticket = record (new_queue 4 no_value) { enqueue_pos = 1 }

abbrev once_round : Alone taken_ticket (push_loop 7 0) taken_ticket (push_loop 7 0)
unfolding new_queue slot
once_round =
    further silent (further silent at_once push_load) (push_cas_fail refl (λ e. omega (arith, e)))

push-Spins_example : (taken_ticket ≡ taken_ticket) × Spins {V = ℕ} 7 0 (push_loop 7 0)
unfolding new_queue slot
push-Spins_example = push-Spins 7 0 {q = taken_ticket} refl (λ e. omega (arith, e)) once_round

one_cell_overwrites_example :
    (t : System ℕ) × Run (start 1 no_value) (two_pushes no_value 7 8) t
    × (t.queue.dequeue_pos ≡ 0)
    × (t.queue.value 0 ≡ 8)
one_cell_overwrites_example = one_cell_overwrites no_value 7 8
