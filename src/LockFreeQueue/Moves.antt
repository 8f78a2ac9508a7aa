-- ===== src/LockFreeQueue/Moves.antt =====
-- Every step of a thread is a step of a bounded first-in first-out queue.
use cpp_lockfree_core.Base.{ℕ, ◌+◌, ◌%◌, ◌^◌, ◌≤◌, ◌<◌, refl, List, length, arith}
use cpp_lockfree_core.LockFreeQueue.{
  Queue, Pc, idle, Event, silent, found_full, found_empty, Move, begin_push, push_load, push_cas,
  push_cas_fail, push_full, push_reload, push_data, push_done, begin_pop, pop_load, pop_cas,
  pop_cas_fail, pop_empty, pop_reload, pop_data, pop_done, slot,
}
use cpp_lockfree_core.LockFreeQueue.Invariant.{
  Fifo, Stage, vacant, filled, filling, draining, Fits, Cells, Holds,
}
use cpp_lockfree_core.LockFreeQueue.Claim.{cell_of}
use cpp_lockfree_core.LockFreeQueue.Outcome.{Done, After}
use cpp_lockfree_core.LockFreeQueue.Pushes.{push_cas-Done, push_data-Done, push_done-Done}
use cpp_lockfree_core.LockFreeQueue.Pops.{pop_cas-Done, pop_data_own, pop_done-Done}

sequence_bound :
    {V : Type 0} (c s : ℕ) {n d seq : ℕ} (l : List V) (v : V) (st : Stage)
    → d ≤ n
    → Fits c n d l s seq v st
    → seq ≤ n + c
sequence_bound c s l v (vacant p) le (e, m, low, high) = omega arith
sequence_bound c s l v (filling j p) le (e, m, low, high) = omega arith
sequence_bound c s l v (filled p) le (e, m, low, high, g) = omega arith
sequence_bound c s l v (draining j p) le (e, m, low, high, g) = omega arith

module _ {V : Type 0} (i : ℕ) {c : ℕ} {q : Queue V} {f : Fifo V} {stage : ℕ → Stage}
    (cells : Cells c q f stage) (few : length f.pushes + c + 1 < 2 ^ 63) where
  -- A step that touches nothing.
  same :
      (e : Event V) → After c f e f → (p : Pc V) → Holds c q f stage i p → Done i c q f stage e q p
  same e a p h = record {
    fifo = f;
    after = a;
    stages = stage;
    cells = cells;
    keeps = record {
      pushes_up = omega arith;
      pops_up = omega arith;
      sequence_up = λ s. omega arith;
      filling_kept = λ s j p ne h. h;
      draining_kept = λ s j p ne h. h;
      value_kept = λ s j p ne h. refl;
      pushes_kept = λ p w g. g;
    };
    own = h;
  }

  bounded : (pos : ℕ) → q.sequence (pos % c) ≤ length f.pushes + c
  bounded pos =
      sequence_bound c (pos % c) f.pushes (q.value (pos % c)) (stage (pos % c)) cells.taken_few
        (cells.fits (pos % c) (cell_of cells pos))

  loaded : (pos : ℕ) → q.sequence (slot q pos) ≤ q.sequence (pos % c)
  loaded pos = rw (cells.slot_is pos) (omega arith)

  pub Move-Done :
      {p p' : Pc V} {e : Event V} {q' : Queue V}
      → Move q p e q' p'
      → Holds c q f stage i p
      → Done i c q f stage e q' p'
  Move-Done begin_push h = same silent refl _ (omega arith)
  Move-Done (push_load {pos = pos}) h = same silent refl _ (h, loaded pos)
  Move-Done (push_cas {v} {pos} {seq} z e) h =
      push_cas-Done i cells few v pos e (omega (arith, h.0, h.1, z, bounded pos, cells.enqueued))
  Move-Done (push_cas_fail z e) h = same silent refl _ h.0
  Move-Done (push_full z) h = same found_full refl idle tt
  Move-Done (push_reload z n) h = same silent refl _ (omega arith)
  Move-Done (push_data {v} {pos}) h = push_data-Done i cells few v pos h.0 h.1
  Move-Done (push_done {v} {pos}) h = push_done-Done i cells few v pos h.0 h.1 h.2
  Move-Done begin_pop h = same silent refl _ (omega arith)
  Move-Done (pop_load {pos = pos}) h = same silent refl _ (h, loaded pos)
  Move-Done (pop_cas {pos} {seq} z e) h =
      pop_cas-Done i cells few pos e
        (omega (arith, h.0, h.1, z, bounded pos, cells.dequeued, cells.taken_few))
  Move-Done (pop_cas_fail z e) h = same silent refl _ h.0
  Move-Done (pop_empty z) h = same found_empty refl idle tt
  Move-Done (pop_reload z n) h = same silent refl _ (omega arith)
  Move-Done (pop_data {pos}) h = same silent refl _ (pop_data_own i cells few pos h)
  Move-Done (pop_done {pos} {out}) h = pop_done-Done i cells few pos h.0 out h.1
