-- ===== src/Map/Find.antt =====
-- `findNode` gives the node with the key.
use cpp_lockfree_core.Base.{
  ℕ, zero, suc, ◌+◌, ◌≡◌, ◌≤◌, ◌<◌, refl, sym, ap, ◌∙◌, subst, false, ◌∷◌, some, arith, ◌==◌,
  Bool-cases, inl, inr, length, length-append,
}
use cpp_lockfree_core.Map.{Keys, Map, find_node}
use cpp_lockfree_core.Map.Shape.{Tree, leaf, node, inorder, Holds, top}
use cpp_lockfree_core.Map.Order.{
  AllLess, Sorted, look, look-append, look-Missing, Sorted-Around, AllLess-Missing, AllMore-Missing,
  below-Missing,
}

-- No way down is longer than `n`.
abbrev pub Deep : ℕ → Tree → Type 0
Deep n leaf = Unit {0}
Deep zero (node i c l r) = ⊥
Deep (suc n) (node i c l r) = Deep n l × Deep n r

pub Deep-more : (n k : ℕ) (t : Tree) → Deep n t → n ≤ k → Deep k t
Deep-more n k leaf d h = tt
Deep-more zero k (node i c l r) d h = absurd d
Deep-more (suc n) zero (node i c l r) d h = absurd (omega arith)
Deep-more (suc n) (suc k) (node i c l r) (a, b) h =
    (Deep-more n k l a (omega arith), Deep-more n k r b (omega arith))

pub Deep-size : (t : Tree) → Deep (length (inorder t)) t
Deep-size leaf = tt
Deep-size (node i c l r) =
    let e = length-append (inorder l) (i ∷ inorder r) in
    Deep-more (suc (length (inorder l) + length (inorder r))) (length (inorder (node i c l r)))
      (node i c l r)
      (
        Deep-more (length (inorder l)) _ l (Deep-size l) (omega arith),
        Deep-more (length (inorder r)) _ r (Deep-size r) (omega arith),
      )
      (omega (arith, e))

module _ {K V : Type 0} (keys : Keys K) (m : Map K V) (k : K) where
  pub find_node_finds :
      (fuel n p : ℕ) (t : Tree)
      → Holds m p t
      → Deep n t
      → n < fuel
      → Sorted keys m.key (inorder t)
      → find_node keys fuel m k (top t) ≡ some (look keys m.key k (inorder t) 0)
  unfolding find_node
  find_node_finds zero n p t h d e s = absurd (omega arith)
  find_node_finds (suc fuel) n p leaf h d e s = refl
  find_node_finds (suc fuel) zero p (node i c l r) h d e s = absurd d
  find_node_finds (suc fuel) (suc n) p (node i c l r) (nz, _, _, cl, cr, hl, hr) (dl, dr) e s =
      let real : i == 0 ≡ false = ground (arith, nz) in
      let a = Sorted-Around keys m.key i (inorder l) (inorder r) s in
      let whole = look-append keys m.key k (inorder l) (i ∷ inorder r) 0 in
      elim (Bool-cases (keys.same k (m.key i))) [
        | inl q ↦
            let at : k ≡ m.key i = keys.same_eq k (m.key i) q in
            let skip = look-Missing keys m.key k (inorder l) i (
              below-Missing keys m.key k (inorder l)
                (subst (λ x. AllLess keys m.key x (inorder l)) (sym at) a.less)) in
            rw (find_node, real, q) (ap some (sym (whole ∙ rw q skip)))
        | inr q ↦ elim (Bool-cases (keys.less k (m.key i))) [
          | inl less ↦
              let skip =
                look-Missing keys m.key k (inorder r) 0
                  (AllMore-Missing keys m.key k (m.key i) (inorder r) a.more less) in
              rw (find_node, real, q, less, cl)
                (find_node_finds fuel n i l hl dl (omega arith) a.sorted_left
                  ∙ ap some (sym (whole ∙ rw (q, skip) refl)))
          | inr not_less ↦
              let more = keys.less_total k (m.key i) q not_less in
              let skip =
                look-Missing keys m.key k (inorder l) (look keys m.key k (inorder r) 0)
                  (AllLess-Missing keys m.key k (m.key i) (inorder l) a.less more) in
              rw (find_node, real, q, not_less, cr)
                (find_node_finds fuel n i r hr dr (omega arith) a.sorted_right
                  ∙ ap some (sym (whole ∙ rw q skip)))
        ]
      ]
