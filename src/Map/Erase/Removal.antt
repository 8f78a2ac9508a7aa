-- ===== src/Map/Erase/Removal.antt =====
-- `erase` on a valid tree is that of a finite map.
use cpp_lockfree_core.Base.{
  ℕ, suc, ◌+◌, ◌≡◌, ◌≢◌, ◌≤◌, ◌<◌, inl, inr, refl, sym, ap, ap₂, ◌∙◌, subst, Bool, true, false,
  List, [], ◌∷◌, ◌++◌, none, some, arith, ◌==◌, if◌then◌else◌, Bool-cases, ℕ_discrete, length,
  length-append,
}
use cpp_lockfree_core.Map.{Keys, Map}
use cpp_lockfree_core.Map.Erase.{erase}
use cpp_lockfree_core.Map.Shape.{node, occ, inorder}
use cpp_lockfree_core.Map.Balance.{at_root}
use cpp_lockfree_core.Map.Order.{
  Sorted, Missing, look, look-append, look-Missing, Sorted-Around, below-Missing, above-Missing,
  AllMore-append, AllMore-split,
}
use cpp_lockfree_core.Map.Descend.{before, after, inorder-around}
use cpp_lockfree_core.Map.Attach.{AllBelow, AllBelow-split, AllBelow-append}
use cpp_lockfree_core.Map.Valid.{IsValid, lookup, added, nodes, find_node_in, lookup_is, look_same}
use cpp_lockfree_core.Map.Erase.Least.{locate}
use cpp_lockfree_core.Map.Erase.Unlink.{Removed}
use cpp_lockfree_core.Map.Erase.Both.{regroup}
use cpp_lockfree_core.Map.Erase.Taken.{look-Among, node_erased}

-- What `erase` has done: the map is valid, the key is not found, every other key has what it had, and
-- a key that was there is counted no more. The result says whether it was there.
pub record Erased {K V : Type 0} (keys : Keys K) (m m' : Map K V) (k : K) (b : Bool) : Type 0 where
  pub valid : IsValid keys m'
  pub finds : (j : K) → lookup keys m' j ≡ (if keys.same j k then some none else lookup keys m j)
  pub counts : m.count + added (lookup keys m k) ≡ m'.count + 1
  pub tells : added (lookup keys m k) ≡ (if b then 0 else 1)

module _ {K : Type 0} (keys : Keys K) (key : ℕ → K) where
  Sorted-without :
      (z : ℕ) (xs ys : List ℕ) → Sorted keys key (xs ++ (z ∷ ys)) → Sorted keys key (xs ++ ys)
  Sorted-without z [] ys (a, s) = s
  Sorted-without z (x ∷ xs) ys (a, s) =
      let (p, q) = AllMore-split keys key (key x) xs (z ∷ ys) a in
      (AllMore-append keys key (key x) xs ys p q.1, Sorted-without z xs ys s)

  -- The key of a node that is taken out is missing,
  look-without_self :
      (k : K) (z : ℕ) (xs ys : List ℕ)
      → Sorted keys key (xs ++ (z ∷ ys))
      → k ≡ key z
      → look keys key k (xs ++ ys) 0 ≡ 0
  look-without_self k z xs ys s e =
      let a = Sorted-Around keys key z xs ys s in
      let gone_left =
        subst (λ x. Missing keys key x xs) (sym e) (below-Missing keys key (key z) xs a.less) in
      let gone_right =
        subst (λ x. Missing keys key x ys) (sym e) (above-Missing keys key (key z) ys a.more) in
      look-append keys key k xs ys 0
      ∙ look-Missing keys key k xs (look keys key k ys 0) gone_left
      ∙ look-Missing keys key k ys 0 gone_right

  -- and no other key misses it.
  look-without :
      (k : K) (z : ℕ) (xs ys : List ℕ)
      → keys.same k (key z) ≡ false
      → look keys key k (xs ++ ys) 0 ≡ look keys key k (xs ++ (z ∷ ys)) 0
  look-without k z xs ys e =
      look-append keys key k xs ys 0 ∙ sym (look-append keys key k xs (z ∷ ys) 0 ∙ rw e refl)

module _ {K V : Type 0} (keys : Keys K) {m : Map K V} (valid : IsValid keys m) (k : K) (z : ℕ)
    (xs ys : List ℕ) (is : nodes keys valid ≡ xs ++ (z ∷ ys)) (m' : Map K V)
    (removed : Removed m m' (xs ++ ys)) where
  sizes : length (nodes keys valid) ≡ suc (length (inorder removed.t))
  sizes =
      omega (
        arith,
        ap length is,
        ap length removed.order,
        length-append xs (z ∷ ys),
        length-append xs ys,
      )

  removed-IsValid : IsValid keys m'
  removed-IsValid =
      let below = AllBelow-split m.fresh xs (z ∷ ys) (subst (AllBelow m.fresh) is valid.below) in
      record {
        t = removed.t;
        zip = removed.zip;
        height = removed.height;
        rules = removed.rules;
        dark = removed.dark;
        sorted =
            subst (λ f. Sorted keys f (inorder removed.t)) (sym removed.key)
              (subst (Sorted keys m.key) (sym removed.order)
                (Sorted-without keys m.key z xs ys (subst (Sorted keys m.key) is valid.sorted)));
        nil = removed.nil;
        below =
            subst (λ n. AllBelow n (inorder removed.t)) (sym removed.fresh)
              (subst (AllBelow m.fresh) (sym removed.order)
                (AllBelow-append m.fresh xs ys below.0 below.1.1));
        real_fresh = λ e. valid.real_fresh (sym removed.fresh ∙ e);
        counted = omega (arith, removed.count, valid.counted, sizes);
      }

  found_after : (j : K) → look keys m'.key j (inorder removed.t) 0 ≡ look keys m.key j (xs ++ ys) 0
  found_after j = ap₂ (λ f l. look keys f j l 0) removed.key removed.order

  removed-Erased : look keys m.key k (nodes keys valid) 0 ≡ z → z ≢ 0 → Erased keys m m' k true
  unfolding removed-IsValid
  removed-Erased at nz =
      let l = nodes keys valid in
      let same_k : keys.same k (m.key z) ≡ true =
        subst (λ x. keys.same k (m.key x) ≡ true) at
          (look_same keys m.key k l (λ e. nz (sym at ∙ e))) in
      let one_key : k ≡ m.key z = keys.same_eq k (m.key z) same_k in
      let there : added (lookup keys m k) ≡ 0 =
        let real : z == 0 ≡ false = ground (arith, nz) in
        ap added (lookup_is keys valid k) ∙ rw (at, real) refl in
      record {
        valid = removed-IsValid;
        finds = λ j. elim (Bool-cases (keys.same j k)) [
          | inl e ↦
              let gone : look keys m'.key j (inorder removed.t) 0 ≡ 0 =
                found_after j
                ∙ look-without_self keys m.key j z xs ys (subst (Sorted keys m.key) is valid.sorted)
                    (keys.same_eq j k e ∙ one_key) in
              lookup_is keys removed-IsValid j ∙ rw (gone, e) refl
          | inr e ↦
              let apart : keys.same j (m.key z) ≡ false = ap (keys.same j) (sym one_key) ∙ e in
              let same : look keys m'.key j (inorder removed.t) 0 ≡ look keys m.key j l 0 =
                found_after j
                ∙ look-without keys m.key j z xs ys apart
                ∙ ap (λ x. look keys m.key j x 0) (sym is) in
              lookup_is keys removed-IsValid j
              ∙ rw (same, removed.value, e) (sym (lookup_is keys valid j))
        ];
        counts = omega (arith, there, removed.count, valid.counted, sizes);
        tells = there;
      }

-- On a valid map, with fuel for more rounds than it has nodes, `erase` ends and does what it should:
-- the map is a valid red-black search tree again, `find` does not find the key and gives what it gave
-- before for every other key, and a key that was there is taken off the count. The result says
-- whether the key was there.
pub erase-Erased :
    {K V : Type 0} (keys : Keys K) {m : Map K V} (fuel : ℕ) (k : K)
    → IsValid keys m
    → m.count < fuel
    → (m' : Map K V) × (b : Bool) × (erase keys fuel m k ≡ some (m', b)) × Erased keys m m' k b
unfolding erase
erase-Erased keys {m} fuel k valid enough =
    let l = nodes keys valid in
    let z = look keys m.key k l 0 in
    let found = find_node_in keys valid fuel k enough in
    elim (ℕ_discrete z 0) [
      | yes none_there ↦
          let real : z == 0 ≡ true = ground (arith, none_there) in
          let not_there : lookup keys m k ≡ some none = lookup_is keys valid k ∙ rw real refl in
          rw (erase, found, real)
            (
              m,
              false,
              refl,
              record {
                valid = valid;
                finds = λ j. elim (Bool-cases (keys.same j k)) [
                  | inl e ↦ rw e (ap (lookup keys m) (keys.same_eq j k e) ∙ not_there)
                  | inr e ↦ rw e refl
                ];
                counts = omega (arith, ap added not_there);
                tells = ap added not_there;
              },
            )
      | no nz ↦
          let real : z == 0 ≡ false = ground (arith, nz) in
          let q : 1 ≤ occ z valid.t = elim (look-Among keys m.key k valid.t 0) [
            | inl e ↦ absurd (nz e)
            | inr q ↦ q
          ] in
          let a =
            locate m z valid.height [] valid.t q valid.zip valid.rules (at_root valid.height)
              (inl valid.dark) in
          let is : l ≡ (before a.ctx ++ inorder a.l) ++ (z ∷ (inorder a.r ++ after a.ctx)) =
            ap inorder (sym a.is)
            ∙ inorder-around a.ctx (node z a.c a.l a.r)
            ∙ regroup (before a.ctx) (inorder a.l) (z ∷ inorder a.r) (after a.ctx) in
          let (m', e, removed) =
            node_erased fuel m valid.nil a.ctx z a.c a.l a.r a.height a.zip a.rules a.fits a.dark
              (omega (arith, enough, valid.counted, ap (λ t. length (inorder t)) a.is)) in
          rw (erase, found, real, e)
            (
              m',
              true,
              refl,
              removed-Erased keys valid k z (before a.ctx ++ inorder a.l)
                  (inorder a.r ++ after a.ctx) is m' removed refl nz,
            )
    ]
