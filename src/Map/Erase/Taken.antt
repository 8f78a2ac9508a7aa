-- ===== src/Map/Erase/Taken.antt =====
-- Any node is taken out of the tree, and the node that is found for a key is one of it.
use cpp_lockfree_core.Base.{
  ℕ, ◌≡◌, ◌≤◌, ◌<◌, ◌⊎◌, inl, inr, refl, sym, ap, ◌∙◌, subst, List, [], ◌∷◌, ◌++◌, append_assoc,
  some, arith, if◌then◌else◌, Bool-cases, length,
}
use cpp_lockfree_core.Map.{Keys, Map, Color, left, right}
use cpp_lockfree_core.Map.Erase.{erase_node}
use cpp_lockfree_core.Map.Shape.{Tree, leaf, node, Frame, occ, inorder, plug, Zip, one_self}
use cpp_lockfree_core.Map.Balance.{Rb, Dark, RbAbove, DarkAbove}
use cpp_lockfree_core.Map.Order.{look, look-append}
use cpp_lockfree_core.Map.Descend.{before, after, inorder-around}
use cpp_lockfree_core.Map.Erase.Unlink.{Removed, erase_node-Removed}
use cpp_lockfree_core.Map.Erase.Both.{erase_both-Removed, regroup, few_above}

abbrev pub Among : ℕ → ℕ → Tree → Type 0
Among d i t = (i ≡ d) ⊎ (1 ≤ occ i t)

-- The node that is found is one of the tree.
pub look-Among :
    {K : Type 0} (keys : Keys K) (key : ℕ → K) (k : K) (t : Tree) (d : ℕ)
    → Among d (look keys key k (inorder t) d) t
look-Among keys key k leaf d = inl refl
look-Among keys key k (node i c l r) d =
    let rest = look keys key k (inorder r) d in
    let later = if keys.same k (key i) then i else rest in
    subst (λ x. Among d x (node i c l r))
      (sym (look-append keys key k (inorder l) (i ∷ inorder r) d))
      (elim (look-Among keys key k l later) [
        | inr q ↦ inr (omega (arith, q))
        | inl e ↦
            subst (λ x. Among d x (node i c l r)) (sym e)
              (elim (Bool-cases (keys.same k (key i))) [
                | inl same ↦
                    subst (λ x. Among d x (node i c l r))
                      (sym (ap (λ b. if b then i else rest) same)) (inr (omega (arith, one_self i)))
                | inr other ↦
                    subst (λ x. Among d x (node i c l r))
                      (sym (ap (λ b. if b then i else rest) other))
                      (elim (look-Among keys key k r d) [
                        | inl absent ↦ inl absent
                        | inr q ↦ inr (omega (arith, q))
                      ])
              ])
      ])

module _ {K V : Type 0} (fuel : ℕ) (m : Map K V) (nil : m.color 0 ≡ Color.black) where
  -- Any node is taken out of the list of nodes.
  pub node_erased :
      (ctx : List Frame) (z : ℕ) (c : Color) (l r : Tree) (n : ℕ)
      → Zip m ctx (node z c l r)
      → Rb n (node z c l r)
      → RbAbove n ctx
      → Dark (node z c l r) ⊎ DarkAbove ctx
      → length (inorder (plug ctx (node z c l r))) < fuel
      → (m' : Map K V) × (erase_node fuel m z ≡ some m')
        × Removed m m' ((before ctx ++ inorder l) ++ (inorder r ++ after ctx))
  node_erased ctx z c leaf r n zip rb fits dark few =
      let (m', e, removed) =
        erase_node-Removed fuel m ctx left z c r n nil zip rb fits
          (omega (arith, few, few_above ctx (node z c leaf r) _ refl)) in
      (
        m',
        e,
        subst (Removed m m')
            (inorder-around ctx r ∙ regroup (before ctx) [] (inorder r) (after ctx)) removed,
      )
  node_erased ctx z c (node i b x y) leaf n zip rb fits dark few =
      let l = node i b x y in
      let (m', e, removed) =
        erase_node-Removed fuel m ctx right z c l n nil zip rb fits
          (omega (arith, few, few_above ctx (node z c l leaf) _ refl)) in
      (
        m',
        e,
        subst (Removed m m')
            (inorder-around ctx l ∙ sym (append_assoc (before ctx) (inorder l) (after ctx)))
            removed,
      )
  node_erased ctx z c (node i b x y) (node j d u v) n zip rb fits dark few =
      erase_both-Removed fuel m ctx z c (node i b x y) (node j d u v) nil zip (zip.here.5.0) n
        (zip.here.6.0) rb fits dark few
