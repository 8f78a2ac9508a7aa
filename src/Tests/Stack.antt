-- ===== src/Tests/Stack.antt =====
-- `LockFreeStack` at work: two threads push.
use cpp_lockfree_core.Base.{
  ℕ, ◌+◌, ◌*◌, ◌<◌, ◌≤◌, ◌^◌, ◌≡◌, refl, List, [], ◌∷◌, Option, none, arith, ℕ_discrete,
}
use cpp_lockfree_core.Family.{update}
use cpp_lockfree_core.LockFreeStack.{
  free, idle, Event, silent, pushed, System, step, new_stack, begin_push, push_load_ptr,
  push_load_tag, push_link, push_cas, push_retry, uses, begin_pop, pop_start,
}
use cpp_lockfree_core.LockFreeStack.Invariant.{Inv, Inv-new_stack}
use cpp_lockfree_core.LockFreeStack.Linearize.{After}
use cpp_lockfree_core.LockFreeStack.Runs.{Run, here, then, Replay, total_uses, Run-Replay, Step-Inv}
use cpp_lockfree_core.LockFreeStack.Progress.{Unfinished, moves, lock_free}
use cpp_lockfree_core.LockFreeStack.Sequential.{Alone, Alone-runs, push, pop, round, pop_round}

abbrev no_next : ℕ → Option ℕ
no_next _ = none

abbrev at_rest : System
at_rest = record { mem = new_stack no_next; pc = λ _. idle }

-- Thread 1 takes node 10 up to its `cas`, and thread 2 pushes node 20.
abbrev two_threads : List Event
two_threads = silent ∷ silent ∷ silent ∷ silent ∷ silent ∷ silent ∷ silent ∷ silent ∷ pushed 20 ∷ []

abbrev overtaken : (t : System) × Run at_rest two_threads t
unfolding new_stack ℕ_discrete
overtaken = (
  _,
  then (pushed 20) _
      (then silent _
        (then silent _
          (then silent _
            (then silent _
              (then silent _
                (then silent _
                  (then silent _ (then silent _ here (step 1 (begin_push {n = 10} refl)) refl)
                    (step 1 push_load_ptr) refl)
                  (step 1 push_load_tag) refl)
                (step 1 push_link) refl)
              (step 2 (begin_push {n = 20} refl)) refl)
            (step 2 push_load_ptr) refl)
          (step 2 push_load_tag) refl)
        (step 2 push_link) refl)
      (step 2 (push_cas refl refl)) refl,
)

few_uses : total_uses two_threads < 2 ^ 64
unfolding total_uses
few_uses = omega arith

Run-Replay_example :
    (ys : List ℕ) × Replay [] two_threads ys × Inv (total_uses two_threads) overtaken.0 ys
Run-Replay_example = Run-Replay no_next overtaken.1 few_uses

overtaken_head : ¬ ((overtaken.0.mem.head_ptr ≡ none) × (overtaken.0.mem.head_tag ≡ 0))
unfolding overtaken new_stack ℕ_discrete
overtaken_head e = cc

-- The `cas` of thread 1 fails, since that of thread 2 has moved the tag on.
abbrev again : (t : System) × Unfinished 3 overtaken.0 1 t
unfolding overtaken new_stack ℕ_discrete
again = (_, moves 1 Unfinished.here (omega arith) (push_retry overtaken_head))

lock_free_example : 1 ≤ 6 * 3
lock_free_example = lock_free (Run-Replay no_next overtaken.1 few_uses).2 few_uses again.1

Step-Inv_example :
    (ys : List ℕ) × After [] silent ys
    × Inv (0 + uses silent) (record { mem = at_rest.mem; pc = update at_rest.pc 1 pop_start }) ys
Step-Inv_example = Step-Inv (Inv-new_stack no_next) (step 1 begin_pop) (omega arith)

Alone-runs_example :
    ((n : ℕ)
      → at_rest.mem.owner n ≡ free
      → Alone 1 at_rest.mem idle (round (pushed n)) (push at_rest.mem n) idle)
    × Alone 1 at_rest.mem idle (pop_round (pop at_rest.mem).0) (pop at_rest.mem).1 idle
Alone-runs_example = Alone-runs 1 at_rest.mem
