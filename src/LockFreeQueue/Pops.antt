-- ===== src/LockFreeQueue/Pops.antt =====
-- The steps of `pop` that change the queue.
use cpp_lockfree_core.Base.{
  ℕ, ◌+◌, ◌%◌, ◌^◌, ◌≤◌, ◌<◌, ◌≡◌, ◌≢◌, refl, sym, ap, ◌∙◌, subst, some, length, get_elem?, arith,
  mod_small,
}
use native.Mathlib.Nat.{add-mod_right}
use cpp_lockfree_core.Family.{update, update_self}
use cpp_lockfree_core.LockFreeQueue.{Queue, pop_read, pop_release, idle, popped, gave, slot, sum}
use cpp_lockfree_core.LockFreeQueue.Invariant.{
  Fifo, Stage, vacant, filled, filling, draining, Fits, Cells, Holds,
}
use cpp_lockfree_core.LockFreeQueue.Claim.{cell_of, filled_here}
use cpp_lockfree_core.LockFreeQueue.Outcome.{Done, Fits-pop, update_all, update_one}
use cpp_lockfree_core.LockFreeQueue.Pushes.{stage_kept, sequence_up_at}

other_draining : {i j p r : ℕ} → j ≢ i → draining i p ≢ draining j r
other_draining {i} {j} ne e = ne (sym (ap of_thread e))
  where
    of_thread : Stage → ℕ
    of_thread (draining k p) = k
    of_thread st = i

module _ {V : Type 0} (i : ℕ) {c : ℕ} {q : Queue V} {f : Fifo V} {stage : ℕ → Stage}
    (cells : Cells c q f stage) (few : length f.pushes + c + 1 < 2 ^ 63) where
  pub pop_cas-Done :
      (pos : ℕ)
      → q.dequeue_pos ≡ pos
      → pos + 1 ≤ q.sequence (pos % c)
      → Done i c q f stage (popped pos) (record q { dequeue_pos = sum pos 1 }) (pop_read pos)
  unfolding slot
  pop_cas-Done pos e reached =
      let d : pos ≡ f.taken = sym e ∙ cells.dequeued in
      let here : stage (pos % c) ≡ filled pos = filled_here cells pos d reached in
      let fit =
        subst
          (Fits c (length f.pushes) f.taken f.pushes (pos % c) (q.sequence (pos % c))
            (q.value (pos % c)))
          here (cells.fits (pos % c) (cell_of cells pos)) in
      let next : sum pos 1 ≡ pos + 1 =
        mod_small (2 ^ 64) (pos + 1) (omega (arith, cells.taken_few)) in
      record {
        fifo = record f { taken = f.taken + 1 };
        after = (d, omega (arith, fit.3), refl);
        stages = update stage (pos % c) (draining i pos);
        cells = record {
          two_cells = cells.two_cells;
          mask_is = cells.mask_is;
          slot_is = cells.slot_is;
          enqueued = cells.enqueued;
          dequeued = omega (arith, next);
          taken_few = omega (arith, fit.3);
          room = omega (arith, cells.room);
          fits =
              update_one
                (λ s st.
                  Fits c (length f.pushes) (f.taken + 1) f.pushes s (q.sequence s) (q.value s) st)
                stage (pos % c) (draining i pos) c
                (fit.0, refl, omega arith, omega (arith, cells.room), fit.4)
                (λ s lt ne.
                  Fits-pop c (length f.pushes) f.taken s (q.sequence s) f.pushes (q.value s)
                    (λ z. ne (ap (λ t. t % c) d ∙ z)) (stage s) (cells.fits s lt));
        };
        keeps = record {
          pushes_up = omega arith;
          pops_up = omega (arith, next);
          sequence_up = λ s. omega arith;
          filling_kept = λ s j p ne h.
              stage_kept stage (pos % c) (draining i pos) (filled pos) s (filling j p) here
                (λ z. cc) h;
          draining_kept = λ s j p ne h.
              stage_kept stage (pos % c) (draining i pos) (filled pos) s (draining j p) here
                (λ z. cc) h;
          value_kept = λ s j p ne h. refl;
          pushes_kept = λ p w g. g;
        };
        own = update_self stage (pos % c) (draining i pos);
      }

  module _ (pos : ℕ) (mine : stage (pos % c) ≡ draining i pos) where
    mine-Fits :
        Fits c
          (length f.pushes)
          f.taken
          f.pushes
          (pos % c)
          (q.sequence (pos % c))
          (q.value (pos % c))
          (draining i pos)
    mine-Fits =
        subst
          (Fits c (length f.pushes) f.taken f.pushes (pos % c) (q.sequence (pos % c))
            (q.value (pos % c)))
          mine (cells.fits (pos % c) (cell_of cells pos))

    pub pop_data_own : Holds c q f stage i (pop_release pos (q.value (slot q pos)))
    pop_data_own = rw (cells.slot_is pos) (mine, mine-Fits.4)

    pub pop_done-Done :
        (out : V)
        → get_elem? f.pushes pos ≡ some out
        → Done i c q f stage
            (gave pos out)
            (record q { sequence = update q.sequence (slot q pos) (sum (pos + q.mask) 1) })
            idle
    unfolding slot
    pop_done-Done out known =
        let fit = mine-Fits in
        let next : sum (pos + q.mask) 1 ≡ pos + c =
          mod_small (2 ^ 64) (pos + q.mask + 1)
            (omega (arith, fit.2, cells.mask_is, cells.taken_few))
          ∙ omega (arith, cells.mask_is) in
        rw (cells.slot_is pos) (record {
          fifo = f;
          after = (fit.2, known, refl);
          stages = update stage (pos % c) (vacant (pos + c));
          cells = record {
            two_cells = cells.two_cells;
            mask_is = cells.mask_is;
            slot_is = cells.slot_is;
            enqueued = cells.enqueued;
            dequeued = cells.dequeued;
            taken_few = cells.taken_few;
            room = cells.room;
            fits =
                update_all
                  (λ s sq st. Fits c (length f.pushes) f.taken f.pushes s sq (q.value s) st)
                  q.sequence stage (pos % c) (sum (pos + q.mask) 1) (vacant (pos + c)) c
                  (next, add-mod_right pos c, fit.3, omega (arith, fit.2))
                  (λ s lt ne. cells.fits s lt);
          };
          keeps = record {
            pushes_up = omega arith;
            pops_up = omega arith;
            sequence_up =
                sequence_up_at q.sequence (pos % c) (sum (pos + q.mask) 1)
                  (omega (arith, next, fit.0, cells.two_cells));
            filling_kept = λ s j p ne h.
                stage_kept stage (pos % c) (vacant (pos + c)) (draining i pos) s (filling j p) mine
                  (λ z. cc) h;
            draining_kept = λ s j p ne h.
                stage_kept stage (pos % c) (vacant (pos + c)) (draining i pos) s (draining j p) mine
                  (other_draining ne) h;
            value_kept = λ s j p ne h. refl;
            pushes_kept = λ p w g. g;
          };
          own = tt;
        })
