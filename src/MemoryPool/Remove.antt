-- ===== src/MemoryPool/Remove.antt =====
-- Taking one element out of a list of distinct ones.
use cpp_lockfree_core.Base.{
  ℕ, ◌+◌, ◌≡◌, inl, inr, sym, subst, List, [], ◌∷◌, arith, length, ℕ_discrete,
}
use mathlib.Core.Logic.{ite, if_pos, if_neg}
use cpp_lockfree_core.LockFreeStack.Chain.{In, Distinct}

abbrev pub remove : ℕ → List ℕ → List ℕ
remove x [] = []
remove x (y ∷ ys) = ite (ℕ_discrete x y) ys (y ∷ remove x ys)

pub length-remove : (x : ℕ) (l : List ℕ) → In x l → length (remove x l) + 1 ≡ length l
length-remove x [] q = absurd q
length-remove x (y ∷ ys) q = elim (ℕ_discrete x y) [
  | yes e ↦ rw (if_pos _ e) (omega arith)
  | no ne ↦
      rw (if_neg _ ne)
        (elim q [ inl e ↦ absurd (ne e) | inr r ↦ omega (arith, length-remove x ys r) ])
]

pub In-remove : (x y : ℕ) (l : List ℕ) → In y (remove x l) → In y l
In-remove x y [] q = q
In-remove x y (z ∷ zs) q = elim (ℕ_discrete x z) [
  | yes e ↦ inr (rw (if_pos _ e) at q)
  | no ne ↦ elim (rw (if_neg _ ne) at q) [ inl e ↦ inl e | inr r ↦ inr (In-remove x y zs r) ]
]

pub remove-Distinct :
    (x : ℕ) (l : List ℕ) → Distinct l → Distinct (remove x l) × (¬ In x (remove x l))
remove-Distinct x [] d = (tt, λ q. q)
remove-Distinct x (y ∷ ys) d = elim (ℕ_discrete x y) [
  | yes e ↦ rw (if_pos _ e) (d.1, subst (λ z. ¬ In z ys) (sym e) d.0)
  | no ne ↦
      let r = remove-Distinct x ys d.1 in
      rw (if_neg _ ne)
        ((λ q. d.0 (In-remove x y ys q), r.0), λ q. elim q [ inl e ↦ ne e | inr s ↦ r.1 s ])
]
