-- ===== src/LockFreeStack/Runs.antt =====
-- Runs of any number of threads over one stack.
use cpp_lockfree_core.Base.{
  ℕ, ◌+◌, ◌<◌, ◌^◌, ◌≡◌, sym, ap, ◌∙◌, subst, List, [], ◌∷◌, ◌++◌, Option, arith, ℕ_discrete,
}
use cpp_lockfree_core.Family.{update, update_self, update_ne}
use cpp_lockfree_core.LockFreeStack.{idle, Event, uses, System, Step, step, new_stack}
use cpp_lockfree_core.LockFreeStack.Invariant.{Holds, Inv, Inv-new_stack}
use cpp_lockfree_core.LockFreeStack.Keep.{Holds-keep}
use cpp_lockfree_core.LockFreeStack.Linearize.{After, Done, Move-Done}

-- Whatever step a thread takes from a state that keeps the invariant, the stack's list changes as the step's event says, and the invariant
-- holds of the new state, as long as fewer than 2^64 `cas` have succeeded.
pub Step-Inv :
    {k : ℕ} {s s' : System} {xs : List ℕ} {e : Event}
    → Inv k s xs
    → Step s e s'
    → k + uses e < 2 ^ 64
    → (ys : List ℕ) × After xs e ys × Inv (k + uses e) s' ys
Step-Inv {k} {s} {s'} {xs} {e} inv (step i {m = m'} {p = p'} mv) few =
    (d.list, d.after, record { memory = d.memory; threads = each })
  where
    d : Done i k s.mem xs e m' p'
    d = Move-Done mv inv.memory few (inv.threads i)

    each : (j : ℕ) → Holds (k + uses e) m' j (update s.pc i p' j)
    each j = elim (ℕ_discrete i j) [
      | yes q ↦
          subst (λ y. Holds (k + uses e) m' y (update s.pc i p' y)) q
            (subst (Holds (k + uses e) m' i) (sym (update_self s.pc i p')) d.own)
      | no ne ↦
          subst (Holds (k + uses e) m' j) (sym (update_ne s.pc i p' j (λ q. ne (sym q)))) (
            Holds-keep d.keeps inv.memory d.memory.tag j (λ q. ne (sym q)) (s.pc j) (inv.threads j))
    ]

-- The events of a run, in order.
pub data Run (s : System) : List Event → System → Type 0 where
  here : Run s [] s
  then :
      {es : List Event} {t u : System} (e : Event) (fs : List Event)
      → Run s es t
      → Step t e u
      → fs ≡ es ++ (e ∷ [])
      → Run s fs u

unfoldable pub total_uses : List Event → ℕ
total_uses [] = 0
total_uses (e ∷ es) = uses e + total_uses es

-- What a list goes through under a list of events.
pub data Replay (xs : List ℕ) : List Event → List ℕ → Type 0 where
  none_yet : Replay xs [] xs
  also :
      {es : List Event} {ys zs : List ℕ} (e : Event) (fs : List Event)
      → Replay xs es ys
      → After ys e zs
      → fs ≡ es ++ (e ∷ [])
      → Replay xs fs zs

total_uses-append :
    (es : List Event) (e : Event) → total_uses (es ++ (e ∷ [])) ≡ total_uses es + uses e
unfolding total_uses
total_uses-append [] e = omega arith
total_uses-append (f ∷ es) e = omega (arith, total_uses-append es e)

-- In a run from a new stack, with all threads idle and fewer than 2^64 pushes and pops, the events
-- are those of a last-in first-out list that starts empty: every node is popped in the order of
-- the list, and a pop finds the stack empty only when the list is. The stack's nodes are that list.
pub Run-Replay :
    (next : ℕ → Option ℕ) {es : List Event} {t : System}
    → Run (record { mem = new_stack next; pc = λ _. idle }) es t
    → total_uses es < 2 ^ 64
    → (ys : List ℕ) × Replay [] es ys × Inv (total_uses es) t ys
unfolding total_uses
Run-Replay next here few = ([], none_yet, Inv-new_stack next)
Run-Replay next (then {es} {t} {u} e fs r st eq) few =
    let count : total_uses fs ≡ total_uses es + uses e =
      ap total_uses eq ∙ total_uses-append es e in
    let (ys, rp, inv) = Run-Replay next r (omega (arith, count)) in
    let (zs, a, inv') = Step-Inv inv st (omega (arith, count)) in
    (zs, also e fs rp a eq, subst (λ n. Inv n u zs) (sym count) inv')
