-- ===== src/AStar/Heap.antt =====
-- The heap's entries, and the cells that are not closed.
use cpp_lockfree_core.Base.{
  ℕ, zero, suc, ◌+◌, ◌≡◌, ◌<◌, inl, inr, refl, sym, ap, ◌∙◌, Bool, true, false, List, [], ◌∷◌,
  arith, length, Bool-cases, if◌then◌else◌, ℕ_discrete,
}
use cpp_lockfree_core.Family.{update, update_self, update_ne}
use cpp_lockfree_core.AStar.{Cost, take_least, before}

abbrev pub AllOpen : {F : Type 0} → (ℕ → Type 0) → List (F × ℕ) → Type 0
AllOpen P [] = Unit {0}
AllOpen P (e ∷ l) = P e.1 × AllOpen P l

pub AllOpen-map :
    {F : Type 0} {P Q : ℕ → Type 0}
    → ((c : ℕ) → P c → Q c)
    → (l : List (F × ℕ)) → AllOpen P l
    → AllOpen Q l
AllOpen-map f [] a = tt
AllOpen-map f (e ∷ l) (h, a) = (f e.1 h, AllOpen-map f l a)

module _ {F : Type 0} (cost : Cost F) where
  pub take_least-AllOpen :
      (P : ℕ → Type 0) (e : F × ℕ) (l : List (F × ℕ))
      → P e.1
      → AllOpen P l
      → P (take_least cost e l).0.1
        × AllOpen P (take_least cost e l).1
        × (length (take_least cost e l).1 ≡ length l)
  unfolding take_least
  take_least-AllOpen P e [] h a = (h, tt, refl)
  take_least-AllOpen P e (x ∷ l) h (hx, a) = elim (Bool-cases (before cost x e)) [
    | inl b ↦ let r = take_least-AllOpen P x l hx a in rw b (r.0, (h, r.1), ap suc r.2)
    | inr b ↦ let r = take_least-AllOpen P e l h a in rw b (r.0, (hx, r.1), ap suc r.2)
  ]

pub unclosed : (ℕ → Bool) → ℕ → ℕ
unclosed f zero = 0
unclosed f (suc n) = (if f n then 0 else 1) + unclosed f n

unclosed_beyond : (f : ℕ → Bool) (i n : ℕ) → ¬ (i < n) → unclosed (update f i true) n ≡ unclosed f n
unfolding unclosed
unclosed_beyond f i zero h = refl
unclosed_beyond f i (suc n) h =
    rw
      (
        update_ne f i true n (λ e. omega (arith, e, h)),
        unclosed_beyond f i n (λ q. omega (arith, h)),
      )
      refl

pub unclosed-update :
    (f : ℕ → Bool) (i n : ℕ) → i < n → f i ≡ false → unclosed (update f i true) n + 1 ≡ unclosed f n
unfolding unclosed
unclosed-update f i zero h e = absurd (omega arith)
unclosed-update f i (suc n) h e = elim (ℕ_discrete i n) [
  | yes q ↦
      let new : update f i true n ≡ true = ap (update f i true) (sym q) ∙ update_self f i true in
      let old : f n ≡ false = ap f (sym q) ∙ e in
      rw (new, old, unclosed_beyond f i n (λ z. omega (arith, q))) (omega arith)
  | no ne ↦
      rw (update_ne f i true n (λ z. ne (sym z)))
        (omega (arith, unclosed-update f i n (omega (arith, ne)) e))
]

pub unclosed_at_first : (n : ℕ) → unclosed (λ _. false) n ≡ n
unfolding unclosed
unclosed_at_first zero = refl
unclosed_at_first (suc n) = omega (arith, unclosed_at_first n)
