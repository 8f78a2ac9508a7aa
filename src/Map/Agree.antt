-- ===== src/Map/Agree.antt =====
-- Two ways to give a key to each node that agree on those below an address.
use cpp_lockfree_core.Base.{
  ℕ, ◌≡◌, ◌<◌, refl, sym, ap, ap₂, ◌∙◌, subst, List, [], ◌∷◌, if◌then◌else◌,
}
use cpp_lockfree_core.Map.{Keys}
use cpp_lockfree_core.Map.Order.{AllLess, AllMore, Sorted, Missing, look}
use cpp_lockfree_core.Map.Attach.{AllBelow}

module _ {K : Type 0} (keys : Keys K) (key key' : ℕ → K) (n : ℕ)
    (agree : (i : ℕ) → i < n → key' i ≡ key i) where
  pub AllLess-agree :
      (k : K) (l : List ℕ) → AllBelow n l → AllLess keys key k l → AllLess keys key' k l
  AllLess-agree k [] b a = tt
  AllLess-agree k (i ∷ l) (lt, b) (h, a) =
      (ap (λ x. keys.less x k) (agree i lt) ∙ h, AllLess-agree k l b a)

  AllMore-agree : (k : K) (l : List ℕ) → AllBelow n l → AllMore keys key k l → AllMore keys key' k l
  AllMore-agree k [] b a = tt
  AllMore-agree k (i ∷ l) (lt, b) (h, a) =
      (ap (keys.less k) (agree i lt) ∙ h, AllMore-agree k l b a)

  pub Missing-agree :
      (k : K) (l : List ℕ) → AllBelow n l → Missing keys key k l → Missing keys key' k l
  Missing-agree k [] b a = tt
  Missing-agree k (i ∷ l) (lt, b) (h, a) =
      (ap (keys.same k) (agree i lt) ∙ h, Missing-agree k l b a)

  pub Sorted-agree : (l : List ℕ) → AllBelow n l → Sorted keys key l → Sorted keys key' l
  Sorted-agree [] b s = tt
  Sorted-agree (i ∷ l) (lt, b) (a, s) = (
    subst (λ x. AllMore keys key' x l) (sym (agree i lt)) (AllMore-agree (key i) l b a),
    Sorted-agree l b s,
  )

  pub look-agree :
      (k : K) (l : List ℕ) (d : ℕ) → AllBelow n l → look keys key' k l d ≡ look keys key k l d
  look-agree k [] d b = refl
  look-agree k (i ∷ l) d (lt, b) =
      ap₂ (λ x r. if keys.same k x then i else r) (agree i lt) (look-agree k l d b)
