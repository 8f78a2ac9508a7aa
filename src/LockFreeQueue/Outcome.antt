-- ===== src/LockFreeQueue/Outcome.antt =====
-- The specification of one step, and the cells that a step does not touch.
use cpp_lockfree_core.Base.{
  ℕ, suc, zero, ◌+◌, ◌%◌, ◌<◌, ◌≡◌, ◌≢◌, refl, sym, ap, ◌∙◌, subst, List, [], ◌∷◌, ◌++◌, some,
  length, get_elem?, arith, ℕ_discrete,
}
use native.Mathlib.Nat.{add-mod_right}
use cpp_lockfree_core.Family.{update, update_self, update_ne}
use cpp_lockfree_core.LockFreeQueue.{
  Queue, Pc, Event, silent, found_full, found_empty, pushed, popped, gave,
}
use cpp_lockfree_core.LockFreeQueue.Invariant.{
  Fifo, Stage, vacant, filled, filling, draining, Fits, Cells, Holds,
}
use cpp_lockfree_core.LockFreeQueue.Keep.{Keeps}

-- The specification: a push finds room and goes to the end, a pop takes the oldest value that has
-- not been taken, and a pop's value is the one that was pushed in its place.
abbrev pub After : {V : Type 0} → ℕ → Fifo V → Event V → Fifo V → Type 0
After c f silent f' = f' ≡ f
After c f found_full f' = f' ≡ f
After c f found_empty f' = f' ≡ f
After c f (pushed v) f' =
    (length f.pushes < f.taken + c) × (f' ≡ record f { pushes = f.pushes ++ (v ∷ []) })
After c f (popped pos) f' =
    (pos ≡ f.taken) × (f.taken < length f.pushes) × (f' ≡ record f { taken = f.taken + 1 })
After c f (gave pos out) f' = (pos < f.taken) × (get_elem? f.pushes pos ≡ some out) × (f' ≡ f)

-- The outcome of a move of thread `i`.
pub record Done {V : Type 0} (i c : ℕ) (q : Queue V) (f : Fifo V) (stage : ℕ → Stage) (e : Event V)
    (q' : Queue V) (p' : Pc V) : Type 0 where
  pub fifo : Fifo V
  pub after : After c f e fifo
  pub stages : ℕ → Stage
  pub cells : Cells c q' fifo stages
  pub keeps : Keeps i q q' f fifo stage stages
  pub own : Holds c q' fifo stages i p'

pub get_elem?-last :
    {V : Type 0} (l : List V) (v : V) → get_elem? (l ++ (v ∷ [])) (length l) ≡ some v
get_elem?-last [] v = refl
get_elem?-last (x ∷ l) v = get_elem?-last l v

pub get_elem?-append :
    {V : Type 0} (l m : List V) (p : ℕ) (v : V)
    → get_elem? l p ≡ some v
    → get_elem? (l ++ m) p ≡ some v
get_elem?-append [] m p v h = cc
get_elem?-append (x ∷ l) m zero v h = h
get_elem?-append (x ∷ l) m (suc p) v h = get_elem?-append l m p v h

module _ {V : Type 0} (c n d s seq : ℕ) (l : List V) (v : V) where
  -- Another cell's ticket is pushed.
  pub Fits-push :
      (x : V) (n' : ℕ)
      → n' ≡ n + 1
      → n % c ≢ s
      → (st : Stage) → Fits c n d l s seq v st
      → Fits c n' d (l ++ (x ∷ [])) s seq v st
  Fits-push x n' e ne (vacant p) (q, m, low, high) =
      let other : p ≢ n = λ z. ne (ap (λ t. t % c) (sym z) ∙ m) in
      (q, m, omega (arith, other), high)
  Fits-push x n' e ne (filling j p) (q, m, low, high) = (q, m, low, omega arith)
  Fits-push x n' e ne (filled p) (q, m, low, high, g) =
      (q, m, low, omega arith, get_elem?-append l (x ∷ []) p v g)
  Fits-push x n' e ne (draining j p) (q, m, low, high, g) =
      let other : p + c ≢ n = λ z. ne (ap (λ t. t % c) (sym z) ∙ add-mod_right p c ∙ m) in
      (q, m, low, omega (arith, other), get_elem?-append l (x ∷ []) p v g)

  -- Another cell's ticket is popped.
  pub Fits-pop : d % c ≢ s → (st : Stage) → Fits c n d l s seq v st → Fits c n (d + 1) l s seq v st
  Fits-pop ne (vacant p) (q, m, low, high) = (q, m, low, omega arith)
  Fits-pop ne (filling j p) (q, m, low, high) =
      let other : p ≢ d = λ z. ne (ap (λ t. t % c) (sym z) ∙ m) in
      (q, m, omega (arith, other), high)
  Fits-pop ne (filled p) (q, m, low, high, g) =
      let other : p ≢ d = λ z. ne (ap (λ t. t % c) (sym z) ∙ m) in
      (q, m, omega (arith, other), high, g)
  Fits-pop ne (draining j p) (q, m, low, high, g) = (q, m, omega arith, high, g)

-- Two families with a new entry at one index have a property everywhere if the entries have it, and
-- the old ones have it at the other indices.
pub update_all {ℓ} :
    {A B : Type ℓ} (P : ℕ → A → B → Type 0) (h : ℕ → A) (g : ℕ → B) (i : ℕ) (a : A) (b : B) (n : ℕ)
    → P i a b
    → ((s : ℕ) → s < n → i ≢ s → P s (h s) (g s))
    → (s : ℕ) → s < n
    → P s (update h i a s) (update g i b s)
update_all P h g i a b n here others s lt = elim (ℕ_discrete i s) [
  | yes e ↦
      subst (λ t. P t (update h i a t) (update g i b t)) e
        (rw (update_self h i a, update_self g i b) here)
  | no ne ↦
      rw (update_ne h i a s (λ z. ne (sym z)), update_ne g i b s (λ z. ne (sym z))) (others s lt ne)
]

pub update_one {ℓ} :
    {A : Type ℓ} (P : ℕ → A → Type 0) (h : ℕ → A) (i : ℕ) (a : A) (n : ℕ)
    → P i a
    → ((s : ℕ) → s < n → i ≢ s → P s (h s))
    → (s : ℕ) → s < n
    → P s (update h i a s)
update_one P h i a n here others = update_all (λ s x y. P s x) h h i a a n here others
