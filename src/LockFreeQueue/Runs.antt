-- ===== src/LockFreeQueue/Runs.antt =====
-- Every run of any number of threads is a run of a bounded first-in first-out queue.
use cpp_lockfree_core.Base.{
  ℕ, ◌+◌, ◌^◌, ◌≤◌, ◌<◌, ◌≡◌, refl, sym, ap, ◌∙◌, subst, List, [], ◌∷◌, ◌++◌, length, length-append,
  arith, ℕ_discrete,
}
use cpp_lockfree_core.Base.Masks.{bit_and-mask}
use native.Mathlib.Nat.{mod-eq_of_lt}
use cpp_lockfree_core.Family.{update, update_self, update_ne}
use cpp_lockfree_core.LockFreeQueue.{
  idle, Event, silent, found_full, found_empty, pushed, popped, gave, slot, System, Step, step,
  new_queue,
}
use cpp_lockfree_core.LockFreeQueue.Invariant.{Fifo, vacant, Holds, Inv}
use cpp_lockfree_core.LockFreeQueue.Keep.{Holds-keep}
use cpp_lockfree_core.LockFreeQueue.Outcome.{Done, After}
use cpp_lockfree_core.LockFreeQueue.Moves.{Move-Done}

abbrev pub start : {V : Type 0} → ℕ → (ℕ → V) → System V
start capacity value = record { queue = new_queue capacity value; pc = λ _. idle }

abbrev pub empty_fifo : {V : Type 0} → Fifo V
empty_fifo = record { pushes = []; taken = 0 }

-- A new queue, with every thread outside its operations, is empty.
pub start-Inv :
    {V : Type 0} (k : ℕ) (value : ℕ → V) → 2 ≤ 2 ^ k → Inv (2 ^ k) (start (2 ^ k) value) empty_fifo
unfolding new_queue slot
start-Inv k value two = record {
  stage = λ s. vacant s;
  cells = record {
    two_cells = two;
    mask_is = omega arith;
    slot_is = λ pos. bit_and-mask pos k;
    enqueued = refl;
    dequeued = refl;
    taken_few = omega arith;
    room = omega arith;
    fits = λ s lt. (refl, mod-eq_of_lt lt, omega arith, omega (arith, lt));
  };
  threads = λ i. tt;
}

-- Whatever step a thread takes from a state that keeps the invariant, the queue changes as the step's event says of a bounded first-in
-- first-out queue, and the invariant holds of the new state, as long as the tickets given out stay
-- below 2^63 by a turn.
pub Step-Fifo :
    {V : Type 0} {c : ℕ} {s s' : System V} {f : Fifo V} {e : Event V}
    → Inv c s f
    → Step s e s'
    → length f.pushes + c + 1 < 2 ^ 63
    → (g : Fifo V) × After c f e g × Inv c s' g
Step-Fifo {V} {c} {s} {s'} {f} {e} inv (step i {q = q'} {p = p'} mv) few =
    (d.fifo, d.after, record { stage = d.stages; cells = d.cells; threads = each })
  where
    d : Done i c s.queue f inv.stage e q' p'
    d = Move-Done i inv.cells few mv (inv.threads i)

    each : (j : ℕ) → Holds c q' d.fifo d.stages j (update s.pc i p' j)
    each j = elim (ℕ_discrete i j) [
      | yes r ↦
          subst (λ y. Holds c q' d.fifo d.stages y (update s.pc i p' y)) r
            (subst (Holds c q' d.fifo d.stages i) (sym (update_self s.pc i p')) d.own)
      | no ne ↦
          subst (Holds c q' d.fifo d.stages j) (sym (update_ne s.pc i p' j (λ r. ne (sym r))))
            (Holds-keep c d.keeps j (λ r. ne (sym r)) (s.pc j) (inv.threads j))
    ]

-- The events of a run, in order.
pub data Run {V : Type 0} (s : System V) : List (Event V) → System V → Type 0 where
  here : Run s [] s
  then :
      {es : List (Event V)} {t u : System V} (e : Event V) (fs : List (Event V))
      → Run s es t
      → Step t e u
      → fs ≡ es ++ (e ∷ [])
      → Run s fs u

-- What a first-in first-out queue goes through under a list of events.
pub data Replay {V : Type 0} (c : ℕ) (f : Fifo V) : List (Event V) → Fifo V → Type 0 where
  none_yet : Replay c f [] f
  also :
      {es : List (Event V)} {g h : Fifo V} (e : Event V) (fs : List (Event V))
      → Replay c f es g
      → After c g e h
      → fs ≡ es ++ (e ∷ [])
      → Replay c f fs h

pushes_few :
    {V : Type 0} (c : ℕ) (f g : Fifo V) (e : Event V)
    → After c f e g
    → length g.pushes ≤ length f.pushes + 1
pushes_few c f g silent a = omega (arith, ap (λ x. length x.pushes) a)
pushes_few c f g found_full a = omega (arith, ap (λ x. length x.pushes) a)
pushes_few c f g found_empty a = omega (arith, ap (λ x. length x.pushes) a)
pushes_few c f g (pushed v) (r, a) =
    omega (arith, ap (λ x. length x.pushes) a, length-append f.pushes (v ∷ []))
pushes_few c f g (popped p) (r, l, a) = omega (arith, ap (λ x. length x.pushes) a)
pushes_few c f g (gave p v) (r, l, a) = omega (arith, ap (λ x. length x.pushes) a)

replayed :
    {V : Type 0} {c : ℕ} {s : System V} {f : Fifo V} (i : Inv c s f) {es : List (Event V)}
    {t : System V}
    → Run s es t
    → length f.pushes + length es + c < 2 ^ 63
    → (g : Fifo V) × Replay c f es g × Inv c t g × (length g.pushes ≤ length f.pushes + length es)
replayed {f = f} i here few = (f, none_yet, i, omega arith)
replayed {c = c} i (then {es} {t} {u} e fs r st eq) few =
    let count : length fs ≡ length es + 1 = ap length eq ∙ length-append es (e ∷ []) in
    let (g, rp, inv, le) = replayed i r (omega (arith, count)) in
    let (h, a, inv') = Step-Fifo inv st (omega (arith, count, le)) in
    (h, also e fs rp a eq, inv', omega (arith, count, le, pushes_few c g h e a))

-- In a run from a new queue of 2^k cells, at least two, with all threads idle and with fewer than
-- 2^63 events and cells, the events are those of a bounded first-in first-out queue that starts
-- empty: a push is accepted only when fewer values than cells are in the queue, a pop takes the
-- place after that of the last pop, and the value it hands out is the one pushed in that place.
pub Run-Fifo :
    {V : Type 0} (k : ℕ) (value : ℕ → V) {es : List (Event V)} {t : System V}
    → 2 ≤ 2 ^ k
    → Run (start (2 ^ k) value) es t
    → length es + 2 ^ k < 2 ^ 63
    → (f : Fifo V) × Replay (2 ^ k) empty_fifo es f × Inv (2 ^ k) t f
Run-Fifo k value two r few =
    let (f, rp, inv, le) = replayed (start-Inv k value two) r (omega arith) in (f, rp, inv)
