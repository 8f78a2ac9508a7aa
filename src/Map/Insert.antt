-- ===== src/Map/Insert.antt =====
-- `insert` on a valid tree is that of a finite map.
use cpp_lockfree_core.Base.{
  ℕ, ◌+◌, ◌≡◌, ◌≢◌, refl, sym, ap, ◌∙◌, subst, true, false, [], none, some, arith, if◌then◌else◌,
  ◌==◌, Bool-cases, inl, inr,
}
use cpp_lockfree_core.Family.{update, update_self, update_ne}
use cpp_lockfree_core.Grid.Cells.{true-false}
use cpp_lockfree_core.Map.{Keys, Map}
use cpp_lockfree_core.Map.Order.{look}
use cpp_lockfree_core.Map.Attach.{Zip-Same}
use cpp_lockfree_core.Map.Valid.{IsValid, lookup, added, nodes, lookup_is, look_same}

-- What `insert` has done: the map is valid, the key has the value, every other key has what it had,
-- and a key that was not there has been counted.
pub record Inserted {K V : Type 0} (keys : Keys K) (m m' : Map K V) (k : K) (v : V) : Type 0 where
  pub valid : IsValid keys m'
  pub finds :
      (j : K) → lookup keys m' j ≡ (if keys.same j k then some (some v) else lookup keys m j)
  pub counts : m'.count ≡ m.count + added (lookup keys m k)

module _ {K V : Type 0} (keys : Keys K) {m : Map K V} (valid : IsValid keys m) (k : K) (v : V) where
  -- The key is there: its node gets the value.
  pub overwritten :
      (i : ℕ)
      → look keys m.key k (nodes keys valid) 0 ≡ i
      → i ≢ 0
      → Inserted keys m (record m { value = update m.value i v }) k v
  overwritten i at nz =
      let l = nodes keys valid in
      let m' : Map K V = record m { value = update m.value i v } in
      let real : i == 0 ≡ false = ground (arith, nz) in
      let same_k : keys.same k (m.key i) ≡ true =
        subst (λ x. keys.same k (m.key x) ≡ true) at
          (look_same keys m.key k l (λ z. nz (sym at ∙ z))) in
      let still_valid : IsValid keys m' = record {
        t = valid.t;
        zip =
            Zip-Same m m' [] valid.t refl
              (λ j q. record { color = refl; parent = refl; child = λ s. refl }) valid.zip;
        height = valid.height;
        rules = valid.rules;
        dark = valid.dark;
        sorted = valid.sorted;
        nil = valid.nil;
        below = valid.below;
        real_fresh = valid.real_fresh;
        counted = valid.counted;
      } in
      record {
        valid = still_valid;
        finds = λ j. elim (Bool-cases (keys.same j k)) [
          | inl e ↦
              let is : look keys m.key j l 0 ≡ i =
                ap (λ x. look keys m.key x l 0) (keys.same_eq j k e) ∙ at in
              lookup_is keys still_valid j
              ∙ rw (is, real, e) (ap (λ x. some (some x)) (update_self m.value i v))
          | inr e ↦
              let r = look keys m.key j l 0 in
              let apart : r ≢ i = λ q.
                let same_j : keys.same j (m.key i) ≡ true =
                  subst (λ x. keys.same j (m.key x) ≡ true) q
                    (look_same keys m.key j l (λ z. nz (sym q ∙ z))) in
                let one_key : j ≡ k =
                  keys.same_eq j (m.key i) same_j ∙ sym (keys.same_eq k (m.key i) same_k) in
                true-false (sym (ap (keys.same j) (sym one_key) ∙ keys.same_refl j) ∙ e) in
              lookup_is keys still_valid j
              ∙ rw e (
                  ap (λ x. some (if r == 0 then none else some x)) (update_ne m.value i v r apart)
                  ∙ sym (lookup_is keys valid j))
        ];
        counts =
            let c : added (lookup keys m k) ≡ 0 =
              ap added (lookup_is keys valid k) ∙ rw (at, real) refl in
            omega (arith, c);
      }
