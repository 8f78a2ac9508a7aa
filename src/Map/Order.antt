-- ===== src/Map/Order.antt =====
-- Lists of nodes in the order of their keys, and the node with a key in one.
use cpp_lockfree_core.Base.{
  ℕ, ◌≡◌, refl, sym, ap, ◌∙◌, true, false, List, [], ◌∷◌, ◌++◌, if◌then◌else◌, Bool-cases, inl, inr,
}
use cpp_lockfree_core.Grid.Cells.{true-false}
use cpp_lockfree_core.Map.{Keys}

module _ {K : Type 0} (keys : Keys K) (key : ℕ → K) where
  abbrev pub AllLess : K → List ℕ → Type 0
  AllLess k [] = Unit {0}
  AllLess k (i ∷ l) = (keys.less (key i) k ≡ true) × AllLess k l

  abbrev pub AllMore : K → List ℕ → Type 0
  AllMore k [] = Unit {0}
  AllMore k (i ∷ l) = (keys.less k (key i) ≡ true) × AllMore k l

  abbrev pub Sorted : List ℕ → Type 0
  Sorted [] = Unit {0}
  Sorted (i ∷ l) = AllMore (key i) l × Sorted l

  -- No node has the key.
  abbrev pub Missing : K → List ℕ → Type 0
  Missing k [] = Unit {0}
  Missing k (i ∷ l) = (keys.same k (key i) ≡ false) × Missing k l

  -- The first node with the key, or `d`.
  abbrev pub look : K → List ℕ → ℕ → ℕ
  look k [] d = d
  look k (i ∷ l) d = if keys.same k (key i) then i else look k l d

  pub less-differ : (a b : K) → keys.less a b ≡ true → keys.same a b ≡ false
  less-differ a b h = elim (Bool-cases (keys.same a b)) [
    | inr e ↦ e
    | inl e ↦
        let q : keys.less a a ≡ true = ap (keys.less a) (keys.same_eq a b e) ∙ h in
        absurd (true-false (sym q ∙ keys.less_irrefl a))
  ]

  pub more-differ : (a b : K) → keys.less b a ≡ true → keys.same a b ≡ false
  more-differ a b h = elim (Bool-cases (keys.same a b)) [
    | inr e ↦ e
    | inl e ↦
        let q : keys.less b b ≡ true = ap (keys.less b) (sym (keys.same_eq a b e)) ∙ h in
        absurd (true-false (sym q ∙ keys.less_irrefl b))
  ]

  pub AllLess-up : (a b : K) (l : List ℕ) → keys.less a b ≡ true → AllLess a l → AllLess b l
  AllLess-up a b [] h s = tt
  AllLess-up a b (i ∷ l) h (x, s) = (keys.less_trans (key i) a b x h, AllLess-up a b l h s)

  pub AllMore-down : (a b : K) (l : List ℕ) → keys.less a b ≡ true → AllMore b l → AllMore a l
  AllMore-down a b [] h s = tt
  AllMore-down a b (i ∷ l) h (x, s) = (keys.less_trans a b (key i) h x, AllMore-down a b l h s)

  pub AllLess-append : (k : K) (xs ys : List ℕ) → AllLess k xs → AllLess k ys → AllLess k (xs ++ ys)
  AllLess-append k [] ys a b = b
  AllLess-append k (x ∷ xs) ys (h, a) b = (h, AllLess-append k xs ys a b)

  pub AllMore-append : (k : K) (xs ys : List ℕ) → AllMore k xs → AllMore k ys → AllMore k (xs ++ ys)
  AllMore-append k [] ys a b = b
  AllMore-append k (x ∷ xs) ys (h, a) b = (h, AllMore-append k xs ys a b)

  pub AllMore-split : (k : K) (xs ys : List ℕ) → AllMore k (xs ++ ys) → AllMore k xs × AllMore k ys
  AllMore-split k [] ys a = (tt, a)
  AllMore-split k (x ∷ xs) ys (h, a) = let (p, q) = AllMore-split k xs ys a in ((h, p), q)

  pub Missing-split : (k : K) (xs ys : List ℕ) → Missing k (xs ++ ys) → Missing k xs × Missing k ys
  Missing-split k [] ys a = (tt, a)
  Missing-split k (x ∷ xs) ys (h, a) = let (p, q) = Missing-split k xs ys a in ((h, p), q)

  -- A sorted list around one of its nodes.
  pub record Around (i : ℕ) (xs ys : List ℕ) : Type 0 where
    pub less : AllLess (key i) xs
    pub more : AllMore (key i) ys
    pub sorted_left : Sorted xs
    pub sorted_right : Sorted ys

  pub Sorted-Around : (i : ℕ) (xs ys : List ℕ) → Sorted (xs ++ (i ∷ ys)) → Around i xs ys
  Sorted-Around i [] ys (a, s) = record { less = tt; more = a; sorted_left = tt; sorted_right = s }
  Sorted-Around i (x ∷ xs) ys (a, s) =
      let r = Sorted-Around i xs ys s in
      let (p, q) = AllMore-split (key x) xs (i ∷ ys) a in
      record {
        less = (q.0, r.less);
        more = r.more;
        sorted_left = (p, r.sorted_left);
        sorted_right = r.sorted_right;
      }

  pub Sorted-left : (xs ys : List ℕ) → Sorted (xs ++ ys) → Sorted xs
  Sorted-left [] ys s = tt
  Sorted-left (x ∷ xs) ys (a, s) = ((AllMore-split (key x) xs ys a).0, Sorted-left xs ys s)

  pub Sorted-right : (xs ys : List ℕ) → Sorted (xs ++ ys) → Sorted ys
  Sorted-right [] ys s = s
  Sorted-right (x ∷ xs) ys (a, s) = Sorted-right xs ys s

  -- A node goes between those with lesser keys and those with greater ones.
  pub Sorted-between :
      (i : ℕ) (xs ys : List ℕ)
      → Sorted xs
      → Sorted ys
      → AllLess (key i) xs
      → AllMore (key i) ys
      → Sorted (xs ++ (i ∷ ys))
  Sorted-between i [] ys sx sy a b = (b, sy)
  Sorted-between i (x ∷ xs) ys (h, sx) sy (l, a) b = (
    AllMore-append (key x) xs (i ∷ ys) h (l, AllMore-down (key x) (key i) ys l b),
    Sorted-between i xs ys sx sy a b,
  )

  pub look-append : (k : K) (xs ys : List ℕ) (d : ℕ) → look k (xs ++ ys) d ≡ look k xs (look k ys d)
  look-append k [] ys d = refl
  look-append k (x ∷ xs) ys d =
      ap (λ r. if keys.same k (key x) then x else r) (look-append k xs ys d)

  pub look-Missing : (k : K) (l : List ℕ) (d : ℕ) → Missing k l → look k l d ≡ d
  look-Missing k [] d a = refl
  look-Missing k (i ∷ l) d (h, a) = rw h (look-Missing k l d a)

  pub AllLess-Missing : (k a : K) (l : List ℕ) → AllLess a l → keys.less a k ≡ true → Missing k l
  AllLess-Missing k a [] s h = tt
  AllLess-Missing k a (i ∷ l) (x, s) h =
      (more-differ k (key i) (keys.less_trans (key i) a k x h), AllLess-Missing k a l s h)

  pub AllMore-Missing : (k a : K) (l : List ℕ) → AllMore a l → keys.less k a ≡ true → Missing k l
  AllMore-Missing k a [] s h = tt
  AllMore-Missing k a (i ∷ l) (x, s) h =
      (less-differ k (key i) (keys.less_trans k a (key i) h x), AllMore-Missing k a l s h)

  pub below-Missing : (k : K) (l : List ℕ) → AllLess k l → Missing k l
  below-Missing k [] s = tt
  below-Missing k (i ∷ l) (x, s) = (more-differ k (key i) x, below-Missing k l s)

  pub above-Missing : (k : K) (l : List ℕ) → AllMore k l → Missing k l
  above-Missing k [] s = tt
  above-Missing k (i ∷ l) (x, s) = (less-differ k (key i) x, above-Missing k l s)
