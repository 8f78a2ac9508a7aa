-- ===== src/Map/Height.antt =====
-- How deep a red-black tree is.
use cpp_lockfree_core.Base.{
  ℕ, suc, ◌+◌, ◌*◌, ◌^◌, ◌≡◌, ◌≤◌, ◌<◌, refl, sym, ap, ◌∙◌, subst, ◌∷◌, ◌++◌, Option, some, arith,
  length, length-append, dec_le,
}
use native.Mathlib.Nat.{pow-le-pow_right}
use cpp_lockfree_core.Map.{Keys, Map, red, black, find_node, find, value_at}
use cpp_lockfree_core.Map.Shape.{Tree, leaf, node, inorder}
use cpp_lockfree_core.Map.Balance.{Rb, Dark}
use cpp_lockfree_core.Map.Order.{look}
use cpp_lockfree_core.Map.Find.{Deep, Deep-more, find_node_finds}
use cpp_lockfree_core.Map.Valid.{IsValid, lookup, lookup_is, nodes}

-- As many black nodes on each way down as make a full tree of them.
Rb-size : (n : ℕ) (t : Tree) → Rb n t → 2 ^ n ≤ length (inorder t) + 1
Rb-size n leaf h = subst (λ k. 2 ^ k ≤ 1) (sym h) (omega arith)
Rb-size n (node i red l r) (a, b, dl, dr) =
    omega (arith, Rb-size n l a, length-append (inorder l) (i ∷ inorder r))
Rb-size n (node i black l r) (k, e, a, b) =
    let p = Rb-size k l a in
    let q = Rb-size k r b in
    let s = length-append (inorder l) (i ∷ inorder r) in
    subst (λ x. 2 ^ x ≤ length (inorder l ++ (i ∷ inorder r)) + 1) (sym e) (omega (arith, p, q, s))

-- At most one red node for each black one, and none above the first black one of a dark tree.
Rb-Deep : (n : ℕ) (t : Tree) → Rb n t → Deep (suc (2 * n)) t × (Dark t → Deep (2 * n) t)
Rb-Deep n leaf h = (tt, λ d. tt)
Rb-Deep n (node i red l r) (a, b, dl, dr) =
    (((Rb-Deep n l a).1 dl, (Rb-Deep n r b).1 dr), λ d. absurd d)
Rb-Deep n (node i black l r) (k, e, a, b) =
    let q : suc (suc (2 * k)) ≡ 2 * n = omega (arith, e) in
    let deep = subst (λ x. Deep x (node i black l r)) q ((Rb-Deep k l a).0, (Rb-Deep k r b).0) in
    (Deep-more (2 * n) (suc (2 * n)) (node i black l r) deep (omega arith), λ d. deep)

-- On a valid map `find` ends within twice the logarithm of the number of nodes: if the map has fewer
-- than `2 ^ (b + 1) - 1` of them, fuel for `2 * b + 1` rounds is enough, and the result is the one that
-- any more fuel gives.
pub find-Bounded :
    {K V : Type 0} (keys : Keys K) {m : Map K V} (fuel b : ℕ) (k : K)
    → IsValid keys m
    → m.count + 1 < 2 ^ suc b
    → 2 * b < fuel
    → (r : Option V) × (find keys fuel m k ≡ some r) × (lookup keys m k ≡ some r)
unfolding find
find-Bounded keys {m} fuel b k valid few enough =
    let size = Rb-size valid.height valid.t valid.rules in
    let low : valid.height ≤ b = elim (dec_le valid.height b) [
      | yes h ↦ h
      | no n ↦
          let p : 2 ^ suc b ≤ 2 ^ valid.height =
            pow-le-pow_right (omega arith) (omega (arith, n)) in
          absurd (omega (arith, p, size, few, valid.counted))
    ] in
    let deep =
      Deep-more (2 * valid.height) (2 * b) valid.t
        ((Rb-Deep valid.height valid.t valid.rules).1 valid.dark) (omega (arith, low)) in
    let found : find_node keys fuel m k m.root ≡ some (look keys m.key k (nodes keys valid) 0) =
      ap (find_node keys fuel m k) valid.zip.around
      ∙ find_node_finds keys m k fuel (2 * b) 0 valid.t valid.zip.here deep enough valid.sorted in
    (
      value_at m (look keys m.key k (nodes keys valid) 0),
      rw (find, found) refl,
      lookup_is keys valid k,
    )
