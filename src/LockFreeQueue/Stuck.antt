-- ===== src/LockFreeQueue/Stuck.antt =====
-- Two ways in which the queue does not do what a lock-free queue of its capacity should: a push that
-- waits for another, and a queue of one cell.
use cpp_lockfree_core.Base.{
  ℕ, ◌≡◌, ◌≢◌, refl, sym, ap, ◌∙◌, subst, List, [], ◌∷◌, arith, ℕ_discrete,
}
use cpp_lockfree_core.LockFreeQueue.{
  Queue, Pc, push_loop, push_test, Event, silent, pushed, Move, begin_push, push_load, push_cas,
  push_cas_fail, push_full, push_reload, push_data, push_done, begin_pop, pop_load, pop_cas,
  pop_cas_fail, pop_empty, pop_reload, pop_data, pop_done, slot, System, step, new_queue,
}
use cpp_lockfree_core.LockFreeQueue.Runs.{start, Run, here, then}

-- Moves of one thread, with no other in between.
pub data Alone {V : Type 0} (q : Queue V) (p : Pc V) : Queue V → Pc V → Type 0 where
  at_once : Alone q p q p
  further :
      {q₁ q₂ : Queue V} {p₁ p₂ : Pc V} (e : Event V)
      → Alone q p q₁ p₁
      → Move q₁ p₁ e q₂ p₂
      → Alone q p q₂ p₂

-- A thread in the loop of `push` with `v` and `pos`, at a cell whose sequence number is `pos`.
abbrev pub Spins : {V : Type 0} → V → ℕ → Pc V → Type 0
Spins v pos (push_loop w r) = (w ≡ v) × (r ≡ pos)
Spins v pos (push_test w r seq) = (w ≡ v) × (r ≡ pos) × (seq ≡ pos)
Spins v pos _ = ⊥

Move-Spins :
    {V : Type 0} {q q' : Queue V} {p p' : Pc V} {e : Event V} (v : V) (pos : ℕ)
    → Move q p e q' p'
    → q.sequence (slot q pos) ≡ pos
    → q.enqueue_pos ≢ pos
    → Spins v pos p
    → (q' ≡ q) × Spins v pos p'
Move-Spins {q = q} v pos (push_load {pos = r}) at gone h =
    (refl, (h.0, h.1, ap (λ t. q.sequence (slot q t)) h.1 ∙ at))
Move-Spins v pos (push_cas z e) at gone h = absurd (gone (e ∙ h.1))
Move-Spins v pos (push_cas_fail z e) at gone h = (refl, (h.0, h.1))
Move-Spins v pos (push_full z) at gone h = absurd (omega (arith, h.1, h.2))
Move-Spins v pos (push_reload n z) at gone h = absurd (n (omega (arith, h.1, h.2)))
Move-Spins v pos begin_push at gone h = absurd h
Move-Spins v pos push_data at gone h = absurd h
Move-Spins v pos push_done at gone h = absurd h
Move-Spins v pos begin_pop at gone h = absurd h
Move-Spins v pos pop_load at gone h = absurd h
Move-Spins v pos (pop_cas z e) at gone h = absurd h
Move-Spins v pos (pop_cas_fail z e) at gone h = absurd h
Move-Spins v pos (pop_empty z) at gone h = absurd h
Move-Spins v pos (pop_reload n z) at gone h = absurd h
Move-Spins v pos pop_data at gone h = absurd h
Move-Spins v pos pop_done at gone h = absurd h

-- The queue is not lock-free: when another push has taken the ticket `pos` and has not yet published
-- it, a thread that stands in the loop of `push` with `pos` goes round without end as long as only
-- it moves, and the queue stays as it is, however many cells are vacant.
pub push-Spins :
    {V : Type 0} (v : V) (pos : ℕ) {q : Queue V}
    → q.sequence (slot q pos) ≡ pos
    → q.enqueue_pos ≢ pos
    → {q' : Queue V} {p' : Pc V} → Alone q (push_loop v pos) q' p'
    → (q' ≡ q) × Spins v pos p'
push-Spins v pos at gone at_once = (refl, (refl, refl))
push-Spins v pos {q} at gone (further {q₁} {q₂} {p₁} {p₂} e a m) =
    let (same, spins) = push-Spins v pos at gone a in
    let r =
      Move-Spins v pos m (subst (λ t. t.sequence (slot t pos) ≡ pos) (sym same) at)
        (subst (λ t. t.enqueue_pos ≢ pos) (sym same) gone) spins in
    (r.0 ∙ same, r.1)

module _ {V : Type 0} (value : ℕ → V) (a b : V) where
  abbrev pub two_pushes : List (Event V)
  two_pushes =
      silent
      ∷ silent
      ∷ pushed a
      ∷ silent
      ∷ silent
      ∷ silent
      ∷ silent
      ∷ pushed b
      ∷ silent
      ∷ silent
      ∷ []

  -- A queue of one cell takes two values and loses the first: two pushes of one thread in a row are
  -- accepted with no pop between them, and the only cell holds the second value then.
  pub one_cell_overwrites :
      (t : System V) × Run (start 1 value) two_pushes t
      × (t.queue.dequeue_pos ≡ 0)
      × (t.queue.value 0 ≡ b)
  unfolding new_queue slot ℕ_discrete
  one_cell_overwrites = (
    _,
    then silent _
        (then silent _
          (then (pushed b) _
            (then silent _
              (then silent _
                (then silent _
                  (then silent _
                    (then (pushed a) _
                      (then silent _ (then silent _ here (step 1 (begin_push {v = a})) refl)
                        (step 1 push_load) refl)
                      (step 1 (push_cas refl refl)) refl)
                    (step 1 push_data) refl)
                  (step 1 push_done) refl)
                (step 1 (begin_push {v = b})) refl)
              (step 1 push_load) refl)
            (step 1 (push_cas refl refl)) refl)
          (step 1 push_data) refl)
        (step 1 push_done) refl,
    refl,
    refl,
  )
