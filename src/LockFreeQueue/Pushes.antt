-- ===== src/LockFreeQueue/Pushes.antt =====
-- The steps of `push` that change the queue.
use cpp_lockfree_core.Base.{
  ℕ, ◌+◌, ◌%◌, ◌^◌, ◌≤◌, ◌<◌, ◌≡◌, ◌≢◌, refl, sym, ap, ◌∙◌, subst, [], ◌∷◌, ◌++◌, some, length,
  get_elem?, length-append, arith, ℕ_discrete, mod_small,
}
use cpp_lockfree_core.Family.{update, update_self, update_ne}
use cpp_lockfree_core.LockFreeQueue.{
  Queue, push_write, push_publish, idle, silent, pushed, slot, sum,
}
use cpp_lockfree_core.LockFreeQueue.Invariant.{
  Fifo, Stage, vacant, filled, filling, draining, Fits, Cells,
}
use cpp_lockfree_core.LockFreeQueue.Claim.{cell_of, vacant_here}
use cpp_lockfree_core.LockFreeQueue.Outcome.{
  Done, Fits-push, update_all, update_one, get_elem?-last, get_elem?-append,
}

-- A change of stage of one cell that no other thread owns.
pub stage_kept :
    (stage : ℕ → Stage) (σ : ℕ) (new old : Stage) (s : ℕ) (st : Stage)
    → stage σ ≡ old
    → old ≢ st
    → stage s ≡ st
    → update stage σ new s ≡ st
stage_kept stage σ new old s st here ne h =
    update_ne stage σ new s (λ e. ne (sym here ∙ ap stage (sym e) ∙ h)) ∙ h

-- A sequence number goes up at one cell.
pub sequence_up_at : (h : ℕ → ℕ) (σ n : ℕ) → h σ ≤ n → (s : ℕ) → h s ≤ update h σ n s
sequence_up_at h σ n le s = elim (ℕ_discrete σ s) [
  | yes e ↦ subst (λ t. h t ≤ update h σ n t) e (rw (update_self h σ n) le)
  | no ne ↦ rw (update_ne h σ n s (λ z. ne (sym z))) (omega arith)
]

pub other_filling : {i j p r : ℕ} → j ≢ i → filling i p ≢ filling j r
other_filling {i} {j} ne e = ne (sym (ap of_thread e))
  where
    of_thread : Stage → ℕ
    of_thread (filling k p) = k
    of_thread st = i

module _ {V : Type 0} (i : ℕ) {c : ℕ} {q : Queue V} {f : Fifo V} {stage : ℕ → Stage}
    (cells : Cells c q f stage) (few : length f.pushes + c + 1 < 2 ^ 63) where
  pub push_cas-Done :
      (v : V) (pos : ℕ)
      → q.enqueue_pos ≡ pos
      → pos ≤ q.sequence (pos % c)
      → Done i c q f stage (pushed v) (record q { enqueue_pos = sum pos 1 }) (push_write v pos)
  unfolding slot
  push_cas-Done v pos e reached =
      let n : pos ≡ length f.pushes = sym e ∙ cells.enqueued in
      let here : stage (pos % c) ≡ vacant pos = vacant_here cells pos n reached in
      let fit =
        subst
          (Fits c (length f.pushes) f.taken f.pushes (pos % c) (q.sequence (pos % c))
            (q.value (pos % c)))
          here (cells.fits (pos % c) (cell_of cells pos)) in
      let next : sum pos 1 ≡ pos + 1 = mod_small (2 ^ 64) (pos + 1) (omega arith) in
      let long : length (f.pushes ++ (v ∷ [])) ≡ length f.pushes + 1 =
        length-append f.pushes (v ∷ []) in
      record {
        fifo = record f { pushes = f.pushes ++ (v ∷ []) };
        after = (omega (arith, fit.3), refl);
        stages = update stage (pos % c) (filling i pos);
        cells = record {
          two_cells = cells.two_cells;
          mask_is = cells.mask_is;
          slot_is = cells.slot_is;
          enqueued = omega (arith, next, long);
          dequeued = cells.dequeued;
          taken_few = omega (arith, long, cells.taken_few);
          room = omega (arith, long, fit.3);
          fits =
              update_one
                (λ s st.
                  Fits c (length (f.pushes ++ (v ∷ []))) f.taken (f.pushes ++ (v ∷ [])) s
                    (q.sequence s) (q.value s) st)
                stage (pos % c) (filling i pos) c
                (fit.0, refl, omega (arith, n, cells.taken_few), omega (arith, long, n))
                (λ s lt ne.
                  Fits-push c (length f.pushes) f.taken s (q.sequence s) f.pushes (q.value s) v _
                    long (λ z. ne (ap (λ t. t % c) n ∙ z)) (stage s) (cells.fits s lt));
        };
        keeps = record {
          pushes_up = omega (arith, next);
          pops_up = omega arith;
          sequence_up = λ s. omega arith;
          filling_kept = λ s j p ne h.
              stage_kept stage (pos % c) (filling i pos) (vacant pos) s (filling j p) here (λ z. cc)
                h;
          draining_kept = λ s j p ne h.
              stage_kept stage (pos % c) (filling i pos) (vacant pos) s (draining j p) here
                (λ z. cc) h;
          value_kept = λ s j p ne h. refl;
          pushes_kept = λ p w g. get_elem?-append f.pushes (v ∷ []) p w g;
        };
        own = (
          update_self stage (pos % c) (filling i pos),
          ap (get_elem? (f.pushes ++ (v ∷ []))) n ∙ get_elem?-last f.pushes v,
        );
      }

  module _ (v : V) (pos : ℕ) (mine : stage (pos % c) ≡ filling i pos)
      (known : get_elem? f.pushes pos ≡ some v) where
    mine-Fits :
        Fits c
          (length f.pushes)
          f.taken
          f.pushes
          (pos % c)
          (q.sequence (pos % c))
          (q.value (pos % c))
          (filling i pos)
    mine-Fits =
        subst
          (Fits c (length f.pushes) f.taken f.pushes (pos % c) (q.sequence (pos % c))
            (q.value (pos % c)))
          mine (cells.fits (pos % c) (cell_of cells pos))

    pub push_data-Done :
        Done i c q f stage silent
          (record q { value = update q.value (slot q pos) v })
          (push_publish v pos)
    unfolding slot
    push_data-Done = rw (cells.slot_is pos) (record {
      fifo = f;
      after = refl;
      stages = stage;
      cells = record {
        two_cells = cells.two_cells;
        mask_is = cells.mask_is;
        slot_is = cells.slot_is;
        enqueued = cells.enqueued;
        dequeued = cells.dequeued;
        taken_few = cells.taken_few;
        room = cells.room;
        fits =
            update_one
              (λ s w. Fits c (length f.pushes) f.taken f.pushes s (q.sequence s) w (stage s))
              q.value (pos % c) v c
              (subst (Fits c (length f.pushes) f.taken f.pushes (pos % c) (q.sequence (pos % c)) v)
                (sym mine) mine-Fits)
              (λ s lt ne. cells.fits s lt);
      };
      keeps = record {
        pushes_up = omega arith;
        pops_up = omega arith;
        sequence_up = λ s. omega arith;
        filling_kept = λ s j p ne h. h;
        draining_kept = λ s j p ne h. h;
        value_kept = λ s j p ne h.
            update_ne q.value (pos % c) v s
              (λ e. other_filling ne (sym mine ∙ ap stage (sym e) ∙ h));
        pushes_kept = λ p w g. g;
      };
      own = (mine, known, update_self q.value (pos % c) v);
    })

    pub push_done-Done :
        q.value (pos % c) ≡ v
        → Done i c q f stage silent
            (record q { sequence = update q.sequence (slot q pos) (sum pos 1) })
            idle
    unfolding slot
    push_done-Done written =
        let fit = mine-Fits in
        let next : sum pos 1 ≡ pos + 1 = mod_small (2 ^ 64) (pos + 1) (omega (arith, fit.3)) in
        rw (cells.slot_is pos) (record {
          fifo = f;
          after = refl;
          stages = update stage (pos % c) (filled pos);
          cells = record {
            two_cells = cells.two_cells;
            mask_is = cells.mask_is;
            slot_is = cells.slot_is;
            enqueued = cells.enqueued;
            dequeued = cells.dequeued;
            taken_few = cells.taken_few;
            room = cells.room;
            fits =
                update_all
                  (λ s sq st. Fits c (length f.pushes) f.taken f.pushes s sq (q.value s) st)
                  q.sequence stage (pos % c) (sum pos 1) (filled pos) c
                  (next, refl, fit.2, fit.3, known ∙ ap some (sym written))
                  (λ s lt ne. cells.fits s lt);
          };
          keeps = record {
            pushes_up = omega arith;
            pops_up = omega arith;
            sequence_up =
                sequence_up_at q.sequence (pos % c) (sum pos 1) (omega (arith, next, fit.0));
            filling_kept = λ s j p ne h.
                stage_kept stage (pos % c) (filled pos) (filling i pos) s (filling j p) mine
                  (other_filling ne) h;
            draining_kept = λ s j p ne h.
                stage_kept stage (pos % c) (filled pos) (filling i pos) s (draining j p) mine
                  (λ z. cc) h;
            value_kept = λ s j p ne h. refl;
            pushes_kept = λ p w g. g;
          };
          own = tt;
        })
