-- ===== src/LockFreeStack/Chain.antt =====
-- The list of nodes that hangs from a pointer.
use cpp_lockfree_core.Base.{ℕ, ◌≡◌, ◌⊎◌, inl, inr, refl, sym, List, [], ◌∷◌, Option, none, some}
use cpp_lockfree_core.Family.{update, update_ne}

abbrev pub In : ℕ → List ℕ → Type 0
In x [] = ⊥
In x (y ∷ ys) = (x ≡ y) ⊎ In x ys

abbrev pub Distinct : List ℕ → Type 0
Distinct [] = Unit {0}
Distinct (x ∷ xs) = (¬ In x xs) × Distinct xs

-- `xs` are the nodes from `p` on, by `next`, down to the null pointer.
abbrev pub Chain : (ℕ → Option ℕ) → Option ℕ → List ℕ → Type 0
Chain next p [] = p ≡ none
Chain next p (x ∷ xs) = (p ≡ some x) × Chain next (next x) xs

-- A write to the `next` of a node outside the chain leaves the chain alone.
pub Chain-update :
    (next : ℕ → Option ℕ) (n : ℕ) (q p : Option ℕ) (xs : List ℕ)
    → ¬ In n xs
    → Chain next p xs
    → Chain (update next n q) p xs
Chain-update next n q p [] out c = c
Chain-update next n q p (x ∷ xs) out (e, c) =
    let same : update next n q x ≡ next x = update_ne next n q x (λ h. out (inl (sym h))) in
    (e, rw same (Chain-update next n q (next x) xs (λ h. out (inr h)) c))

-- The head of a chain is its first node, and a null head means no node.
pub Chain-head :
    (next : ℕ → Option ℕ) (x : ℕ) (p : Option ℕ) (xs : List ℕ)
    → p ≡ some x
    → Chain next p xs
    → (ys : List ℕ) × (xs ≡ x ∷ ys) × Chain next (next x) ys
Chain-head next x p [] e c = cc
Chain-head next x p (y ∷ ys) e (f, c) = let same : y ≡ x = cc in (ys, rw same, rw (← same) c)

pub Chain-null : (next : ℕ → Option ℕ) (xs : List ℕ) → Chain next none xs → xs ≡ []
Chain-null next [] c = refl
Chain-null next (x ∷ xs) (f, c) = cc
