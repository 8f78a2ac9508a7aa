-- ===== src/Map/Add.antt =====
-- A key that is not in the map is added in a new node.
use cpp_lockfree_core.Base.{
  ℕ, suc, ◌+◌, ◌≡◌, ◌≤◌, ◌<◌, refl, sym, ap, ap₂, ◌∙◌, subst, true, false, List, [], ◌∷◌, ◌++◌,
  none, some, arith, if◌then◌else◌, ◌==◌, Bool-cases, inl, inr, ℕ_discrete, length, length-append,
}
use cpp_lockfree_core.Family.{update, update_self, update_ne}
use cpp_lockfree_core.Map.{
  Keys, Map, red, black, new_node, attach, descend, insert_new, insert, insert_fixup,
}
use cpp_lockfree_core.Map.Shape.{leaf, node, Frame, above, inorder, occ, occ_above, Zip}
use cpp_lockfree_core.Map.Keep.{Same}
use cpp_lockfree_core.Map.Balance.{raised, at_root}
use cpp_lockfree_core.Map.Order.{
  AllLess, AllMore, Sorted, Missing, look, look-append, look-Missing, Sorted-between, Sorted-left,
  Sorted-right, below-Missing,
}
use cpp_lockfree_core.Map.Find.{Deep-size}
use cpp_lockfree_core.Map.Loop.{Fixed, insert_fixup-Fixed}
use cpp_lockfree_core.Map.Descend.{Place, descend-Place, before, after, inorder-around, occ-plug}
use cpp_lockfree_core.Map.Attach.{
  AllBelow, AllBelow-split, AllBelow-append, AllBelow-more, occ-below, length-around, Zip-Same,
  new_node-Same, new_node-New, attach-Zip,
}
use cpp_lockfree_core.Map.Valid.{
  IsValid, lookup, added, nodes, find_node_in, lookup_is, look-below, look_zero-Missing,
  Holds-AllReal,
}
use cpp_lockfree_core.Map.Agree.{Missing-agree, Sorted-agree, look-agree}
use cpp_lockfree_core.Map.Insert.{Inserted, overwritten}

-- What hanging a node does not touch.
record Attached {K V : Type 0} (m m' : Map K V) : Type 0 where
  key : m'.key ≡ m.key
  value : m'.value ≡ m.value
  color : m'.color ≡ m.color
  fresh : m'.fresh ≡ m.fresh
  count : m'.count ≡ m.count + 1

attach-Attached :
    {K V : Type 0} (keys : Keys K) (m : Map K V) (k : K) (y z : ℕ)
    → Attached m (attach keys m k y z)
unfolding attach
attach-Attached keys m k y z = elim (Bool-cases (y == 0)) [
  | inl e ↦ rw e (record { key = refl; value = refl; color = refl; fresh = refl; count = refl })
  | inr e ↦ rw e (record { key = refl; value = refl; color = refl; fresh = refl; count = refl })
]

module _ {K V : Type 0} (keys : Keys K) {m : Map K V} (valid : IsValid keys m) (k : K) (v : V)
    (missing : Missing keys m.key k (nodes keys valid)) where
  abbrev z : ℕ
  z = m.fresh

  abbrev m2 : Map K V
  m2 = new_node m k v

  agree : (i : ℕ) → i < z → m2.key i ≡ m.key i
  unfolding new_node
  agree i h = update_ne m.key z k i (λ e. omega (arith, e, h))

  Same-below : (i : ℕ) → i < z → Same m m2 i
  Same-below i h = new_node-Same m k v i (λ e. omega (arith, e, h))

  zip2 : Zip m2 [] valid.t
  unfolding new_node
  zip2 =
      Zip-Same m m2 [] valid.t refl
        (λ i q. Same-below i (occ-below z valid.t valid.below i (omega (arith, q)))) valid.zip

  place : (fuel : ℕ) → m.count < fuel → Place keys m2 k valid.t (descend keys fuel m2 k 0 m2.root)
  place fuel enough =
      let l = nodes keys valid in
      subst (λ r. Place keys m2 k valid.t (descend keys fuel m2 k 0 r)) (sym zip2.around)
        (descend-Place keys m2 k fuel (length l) valid.height [] valid.t (Deep-size valid.t)
          (omega (arith, enough, valid.counted)) zip2 valid.rules (at_root valid.height)
          (inl valid.dark) (Sorted-agree keys m.key m2.key z agree l valid.below valid.sorted)
          (Missing-agree keys m.key m2.key z agree k l valid.below missing) tt tt tt)

  module _ (fuel : ℕ) (enough : m.count < fuel) where
    abbrev ctx : List Frame
    ctx = (place fuel enough).ctx

    abbrev m3 : Map K V
    m3 = attach keys m2 k (above ctx) z

    around : nodes keys valid ≡ before ctx ++ after ctx
    around = ap inorder (sym (place fuel enough).same) ∙ inorder-around ctx leaf

    in_tree : (i : ℕ) → 1 ≤ occ_above i ctx → i < z
    in_tree i q = occ-below z valid.t valid.below i (
        let e : occ i valid.t ≡ occ_above i ctx + 0 =
          ap (occ i) (sym (place fuel enough).same) ∙ occ-plug i ctx leaf in
        omega (arith, e, q))

    hung : Zip m3 ctx (node z red leaf leaf)
    hung =
        attach-Zip keys m2 k z valid.real_fresh (new_node-New m k v).child
          (new_node-New m k v).color ctx (λ i q e. omega (arith, in_tree i q, e))
          (place fuel enough).hangs (place fuel enough).zip

    attached : Attached m2 m3
    attached = attach-Attached keys m2 k (above ctx) z

    nil3 : m3.color 0 ≡ black
    unfolding new_node
    nil3 =
        ap (λ f. f 0) attached.color
        ∙ update_ne m.color z red 0 (λ e. valid.real_fresh (sym e))
        ∙ valid.nil

    fixed :
        (m' : Map K V) × (insert_fixup fuel m3 z ≡ some m')
        × Fixed m3 m' (before ctx ++ (z ∷ after ctx))
    fixed =
        let long = length-around ctx in
        let size : length (nodes keys valid) ≡ length (before ctx) + length (after ctx) =
          ap length around ∙ length-append (before ctx) (after ctx) in
        let (m', e, f) =
          insert_fixup-Fixed fuel m3 ctx 0 z (node z red leaf leaf) nil3 hung
            (raised z leaf leaf refl refl tt tt) (place fuel enough).fits
            (inl (omega (arith, enough, long, size, valid.counted))) in
        (m', e, subst (Fixed m3 m') (inorder-around ctx (node z red leaf leaf)) f)

    abbrev m4 : Map K V
    m4 = fixed.0

    keys_after : m4.key ≡ m2.key
    keys_after = fixed.2.keeps.key ∙ attached.key

    below_around : AllBelow z (before ctx) × AllBelow z (after ctx)
    below_around = AllBelow-split z (before ctx) (after ctx) (subst (AllBelow z) around valid.below)

    Sorted-around : Sorted keys m2.key (before ctx ++ after ctx)
    Sorted-around =
        subst (Sorted keys m2.key) around
          (Sorted-agree keys m.key m2.key z agree (nodes keys valid) valid.below valid.sorted)

    at_z : m2.key z ≡ k
    at_z = (new_node-New m k v).key

    Sorted-after : Sorted keys m2.key (before ctx ++ (z ∷ after ctx))
    Sorted-after =
        Sorted-between keys m2.key z (before ctx) (after ctx)
          (Sorted-left keys m2.key (before ctx) (after ctx) Sorted-around)
          (Sorted-right keys m2.key (before ctx) (after ctx) Sorted-around)
          (subst (λ x. AllLess keys m2.key x (before ctx)) (sym at_z) (place fuel enough).less)
          (subst (λ x. AllMore keys m2.key x (after ctx)) (sym at_z) (place fuel enough).more)

    fresh_after : m4.fresh ≡ z + 1
    unfolding new_node
    fresh_after = fixed.2.keeps.fresh ∙ attached.fresh

    count_after : m4.count ≡ m.count + 1
    unfolding new_node
    count_after = fixed.2.keeps.count ∙ attached.count

    valid_after : IsValid keys m4
    valid_after =
        let order = fixed.2.order in
        let size : length (nodes keys valid) ≡ length (before ctx) + length (after ctx) =
          ap length around ∙ length-append (before ctx) (after ctx) in
        let new_size : length (inorder fixed.2.t) ≡ length (before ctx) + suc (length (after ctx)) =
          ap length order ∙ length-append (before ctx) (z ∷ after ctx) in
        record {
          t = fixed.2.t;
          zip = fixed.2.zip;
          height = fixed.2.height;
          rules = fixed.2.rules;
          dark = fixed.2.dark;
          sorted =
              subst (λ f. Sorted keys f (inorder fixed.2.t)) (sym keys_after)
                (subst (Sorted keys m2.key) (sym order) Sorted-after);
          nil = fixed.2.nil;
          below =
              subst (λ n. AllBelow n (inorder fixed.2.t)) (sym fresh_after)
                (subst (AllBelow (z + 1)) (sym order) (
                  AllBelow-append (z + 1) (before ctx) (z ∷ after ctx)
                    (AllBelow-more z (before ctx) below_around.0)
                    (omega arith, AllBelow-more z (after ctx) below_around.1)));
          real_fresh = λ e. omega (arith, fresh_after, e);
          counted = omega (arith, count_after, valid.counted, size, new_size);
        }

    -- The nodes that are found for a key, after and before.
    found_after :
        (j : K)
        → look keys m4.key j (inorder fixed.2.t) 0
          ≡ look keys m2.key j
              (before ctx)
              (if keys.same j k then z else look keys m2.key j (after ctx) 0)
    found_after j =
        ap₂ (λ f l. look keys f j l 0) keys_after fixed.2.order
        ∙ look-append keys m2.key j (before ctx) (z ∷ after ctx) 0
        ∙ ap
            (λ x.
              look keys m2.key j (before ctx)
                (if keys.same j x then z else look keys m2.key j (after ctx) 0))
            at_z

    value_after : m4.value ≡ m2.value
    value_after = fixed.2.keeps.value ∙ attached.value

    added_Inserted : look keys m.key k (nodes keys valid) 0 ≡ 0 → Inserted keys m m4 k v
    unfolding new_node valid_after
    added_Inserted none_there = record {
      valid = valid_after;
      finds = λ j. elim (Bool-cases (keys.same j k)) [
        | inl e ↦
            let one_key : j ≡ k = keys.same_eq j k e in
            let skip = look-Missing keys m2.key j (before ctx) z (
              subst (λ x. Missing keys m2.key x (before ctx)) (sym one_key)
                (below-Missing keys m2.key k (before ctx) (place fuel enough).less)) in
            let is : look keys m4.key j (inorder fixed.2.t) 0 ≡ z = found_after j ∙ rw e skip in
            let real : z == 0 ≡ false = ground (arith, valid.real_fresh) in
            lookup_is keys valid_after j
            ∙ rw (is, real, e)
                (ap (λ f. some (some (f z))) value_after
                  ∙ ap (λ x. some (some x)) (update_self m.value z v))
        | inr e ↦
            let r = look keys m.key j (nodes keys valid) 0 in
            let is : look keys m4.key j (inorder fixed.2.t) 0 ≡ r =
              found_after j
              ∙ rw e (sym (look-append keys m2.key j (before ctx) (after ctx) 0))
              ∙ ap (λ l. look keys m2.key j l 0) (sym around)
              ∙ look-agree keys m.key m2.key z agree j (nodes keys valid) 0 valid.below in
            let small = look-below keys m.key z j (nodes keys valid) valid.real_fresh valid.below in
            lookup_is keys valid_after j
            ∙ rw (is, e)
                (ap (λ x. some (if r == 0 then none else some x))
                    (ap (λ f. f r) value_after
                      ∙ update_ne m.value z v r (λ q. omega (arith, small, q)))
                  ∙ sym (lookup_is keys valid j))
      ];
      counts =
          let c : added (lookup keys m k) ≡ 1 =
            ap added (lookup_is keys valid k) ∙ rw none_there refl in
          omega (arith, c, count_after);
    }

-- On a valid map, with fuel for more rounds than it has nodes, `insert` ends and does what it should:
-- the map is a valid red-black search tree again, `find` gives the new value for the key and what it
-- gave before for every other key, and a key that was not there is counted once.
pub insert-Inserted :
    {K V : Type 0} (keys : Keys K) {m : Map K V} (fuel : ℕ) (k : K) (v : V)
    → IsValid keys m
    → m.count < fuel
    → (m' : Map K V) × (insert keys fuel m k v ≡ some m') × Inserted keys m m' k v
unfolding insert insert_new new_node
insert-Inserted keys {m} fuel k v valid enough =
    let l = nodes keys valid in
    let i = look keys m.key k l 0 in
    let found = find_node_in keys valid fuel k enough in
    elim (ℕ_discrete i 0) [
      | no nz ↦
          let real : i == 0 ≡ false = ground (arith, nz) in
          rw (insert, found, real)
            (record m { value = update m.value i v }, refl, overwritten keys valid k v i refl nz)
      | yes none_there ↦
          let real : i == 0 ≡ true = ground (arith, none_there) in
          let missing =
            look_zero-Missing keys m.key k l (Holds-AllReal m 0 valid.t valid.zip.here)
              none_there in
          let (m', e, f) = fixed keys valid k v missing fuel enough in
          rw (insert, found, real, insert_new, (place keys valid k v missing fuel enough).is)
            (m', e, added_Inserted keys valid k v missing fuel enough none_there)
    ]
