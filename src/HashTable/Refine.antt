-- ===== src/HashTable/Refine.antt =====
-- A table behaves as a finite map with a size.
use cpp_lockfree_core.Base.{
  ℕ, ◌+◌, ◌-◌, ◌^◌, ◌≡◌, ◌≤◌, ◌<◌, refl, sym, ap, ap₂, ◌∙◌, subst, List, [], ◌∷◌, Option, none,
  some, length, arith, if◌then◌else◌, Bool-cases, Option-cases, inl, inr, ℕ_discrete, mod_small,
  mod_wrap,
}
use cpp_lockfree_core.Family.{update, update_self, update_ne}
use cpp_lockfree_core.HashTable.{
  Key, IsLawful, Table, new_table, get_count, hash_of, find, find_in, insert, insert_from, erase,
  erase_from, assign_in, cut_out,
}
use cpp_lockfree_core.HashTable.Chains.{
  Unique, Assigned, absent, present, assign_in-Assigned, Cut, missing, out, cut_out-Cut,
}
use cpp_lockfree_core.HashTable.Spec.{
  Finite, Op, insert_op, find_op, erase_op, count_op, value, was_there, number, is_some, more,
  fewer, exec, spec_exec, replies, spec_replies, nowhere,
}
use cpp_lockfree_core.HashTable.Invariant.{
  total, total_empty, total-update, total-member, TableInv, hash_of-bound, find_after, find-same,
}

pub record Agrees {ℓ} {K V : Type ℓ} (key : Key K) (t : Table K V) (s : Finite K V) : Type ℓ where
  pub inv : TableInv key t
  pub same_lookup : (k : K) → find key t k ≡ s.lookup k
  pub same_size : t.count ≡ s.size

module _ {ℓ} {K V : Type ℓ} {key : Key K} (law : IsLawful key) where
  -- One chain is replaced by a chain without repeats.
  put_back :
      (t : Table K V) (k : K) (ms : List (K × V)) (n : ℕ)
      → TableInv key t
      → Unique key ms
      → n ≡ total (update t.buckets (hash_of key t k) ms) t.bucket_count
      → TableInv key (record t { buckets = update t.buckets (hash_of key t k) ms; count = n })
  put_back t k ms n inv u c = record {
    some_bucket = inv.some_bucket;
    unique = λ i. elim (ℕ_discrete (hash_of key t k) i) [
      | yes e ↦
          subst (λ j. Unique key (update t.buckets (hash_of key t k) ms j)) e
            (subst (Unique key) (sym (update_self t.buckets (hash_of key t k) ms)) u)
      | no ne ↦
          subst (Unique key) (sym (update_ne t.buckets (hash_of key t k) ms i (λ z. ne (sym z))))
            (inv.unique i)
    ];
    counted = c;
  }

  module _ {t : Table K V} {s : Finite K V} (ag : Agrees key t s) (k : K) where
    total_put :
        (ms : List (K × V))
        → total (update t.buckets (hash_of key t k) ms) t.bucket_count
            + length (t.buckets (hash_of key t k))
          ≡ t.count + length ms
    total_put ms =
        total-update t.buckets (hash_of key t k) ms t.bucket_count
          (hash_of-bound law t k ag.inv.some_bucket)
        ∙ ap (λ n. n + length ms) (sym ag.inv.counted)

    looked : {o : Option V} → find_in key k (t.buckets (hash_of key t k)) ≡ o → s.lookup k ≡ o
    unfolding find
    looked q = sym (ag.same_lookup k) ∙ q

    agree_put :
        (ms : List (K × V)) (o : Option V) (n m : ℕ)
        → ((k' : K)
            → find_in key k' ms
              ≡ (if key.same k k' then o else find_in key k' (t.buckets (hash_of key t k))))
        → Unique key ms
        → n ≡ total (update t.buckets (hash_of key t k) ms) t.bucket_count
        → n ≡ m
        → Agrees key
            (record t { buckets = update t.buckets (hash_of key t k) ms; count = n })
            (record { lookup = λ k'. if key.same k k' then o else s.lookup k'; size = m })
    agree_put ms o n m h u c e = record {
      inv = put_back t k ms n ag.inv u c;
      same_lookup = λ k'.
          find_after law t k ms o n h k'
          ∙ ap (λ x. if key.same k k' then o else x) (ag.same_lookup k');
      same_size = e;
    }

    insert-Agrees :
        (v : V)
        → s.size + 1 < 2 ^ 32
        → Agrees key (insert key t k v) (spec_exec key s (insert_op k v)).1
    unfolding insert insert_from find_in spec_exec more
    insert-Agrees v few =
        go (assign_in key k v (t.buckets (hash_of key t k)))
          (assign_in-Assigned law k v (t.buckets (hash_of key t k)))
      where
        go :
            (o : Option (List (K × V)))
            → Assigned law k v (t.buckets (hash_of key t k)) o
            → Agrees key
                (insert_from key t (hash_of key t k) k v o)
                (spec_exec key s (insert_op k v)).1
        go o (absent q) =
            let w = mod_small (2 ^ 32) (t.count + 1) (omega (arith, ag.same_size)) in
            rw (looked q) (
              agree_put ((k, v) ∷ t.buckets (hash_of key t k)) (some v) _ _ (λ k'. refl)
                (q, ag.inv.unique (hash_of key t k))
                (omega (arith, w, total_put ((k, v) ∷ t.buckets (hash_of key t k))))
                (omega (arith, w, ag.same_size)))
        go o (present ms w q a l un) = rw (looked q) (
            agree_put ms (some v) _ _ a (un (ag.inv.unique (hash_of key t k)))
              (omega (arith, l, total_put ms)) ag.same_size)

    erase-Agrees :
        s.size < 2 ^ 32
        → ((erase key t k).0 ≡ is_some (s.lookup k))
          × Agrees key (erase key t k).1 (spec_exec key s (erase_op k)).1
    unfolding erase erase_from spec_exec fewer is_some
    erase-Agrees few =
        go (cut_out key k (t.buckets (hash_of key t k)))
          (cut_out-Cut law k (t.buckets (hash_of key t k)) (ag.inv.unique (hash_of key t k)))
      where
        go :
            (o : Option (List (K × V)))
            → Cut law k (t.buckets (hash_of key t k)) o
            → ((erase_from key t (hash_of key t k) o).0 ≡ is_some (s.lookup k))
              × Agrees key (erase_from key t (hash_of key t k) o).1 (spec_exec key s (erase_op k)).1
        go o (missing q) = rw (looked q) (
          refl,
          record {
            inv = ag.inv;
            same_lookup = λ k'. elim (Bool-cases (key.same k k')) [
              | inl e ↦ rw e (sym (find-same law t k k' e) ∙ ag.same_lookup k ∙ looked q)
              | inr e ↦ rw e (ag.same_lookup k')
            ];
            same_size = ag.same_size;
          },
        )
        go o (out ms w q a l un) =
            let i = hash_of key t k in
            let held : ¬ (t.count < 1) = λ z.
              total-member t.buckets i t.bucket_count (hash_of-bound law t k ag.inv.some_bucket)
                (omega (arith, z, l, ag.inv.counted)) in
            let c =
              mod_wrap (2 ^ 32) (t.count + 2 ^ 32 - 1) (omega (arith, held))
                (omega (arith, held, ag.same_size)) in
            rw (looked q) (
              refl,
              agree_put ms none _ _ a un (omega (arith, c, held, l, total_put ms))
                  (omega (arith, c, held, ag.same_size)),
            )

  exec-Agrees :
      {t : Table K V} {s : Finite K V}
      → Agrees key t s
      → s.size + 1 < 2 ^ 32
      → (o : Op K V)
      → ((exec key t o).0 ≡ (spec_exec key s o).0)
        × Agrees key (exec key t o).1 (spec_exec key s o).1
  unfolding exec spec_exec get_count
  exec-Agrees ag few (insert_op k v) = (refl, insert-Agrees ag k v few)
  exec-Agrees ag few (find_op k) = (ap value (ag.same_lookup k), ag)
  exec-Agrees ag few (erase_op k) =
      let e = erase-Agrees ag k (omega arith) in (ap was_there e.0, e.1)
  exec-Agrees ag few count_op = (ap number ag.same_size, ag)

  size_grows : (s : Finite K V) (o : Op K V) → (spec_exec key s o).1.size ≤ s.size + 1
  unfolding spec_exec more fewer
  size_grows s (insert_op k v) = elim (Option-cases (s.lookup k)) [
    | inl e ↦ rw e (omega arith)
    | inr (w, e) ↦ rw e (omega arith)
  ]
  size_grows s (find_op k) = omega arith
  size_grows s (erase_op k) = elim (Option-cases (s.lookup k)) [
    | inl e ↦ rw e (omega arith)
    | inr (w, e) ↦ rw e (omega arith)
  ]
  size_grows s count_op = omega arith

  replies-Agrees :
      (os : List (Op K V)) {t : Table K V} {s : Finite K V}
      → Agrees key t s
      → s.size + length os < 2 ^ 32
      → replies key t os ≡ spec_replies key s os
  unfolding replies spec_replies
  replies-Agrees [] ag few = refl
  replies-Agrees (o ∷ os) {t} {s} ag few =
      let e = exec-Agrees ag (omega arith) o in
      ap₂ (λ r rs. r ∷ rs) e.0 (replies-Agrees os e.1 (omega (arith, size_grows s o)))

  -- The hash table is a finite map: to any sequence of fewer than 2^31 calls of `insert`, `find`,
  -- `erase` and `getCount` on a new table with at least one bucket, it gives the answers of a partial
  -- function that is changed at the key alone, with the number of keys it is defined on. The keys'
  -- `==` must be an equivalence under which equal keys have the same bytes.
  pub replies_refine :
      (n : ℕ)
      → 0 < n
      → (os : List (Op K V)) → length os < 2 ^ 31
      → replies key (new_table n) os ≡ spec_replies key nowhere os
  unfolding new_table nowhere find find_in
  replies_refine n pos os few =
      replies-Agrees os
        (record {
          inv = record {
            some_bucket = pos;
            unique = λ i. tt;
            counted = sym (total_empty (K × V) n);
          };
          same_lookup = λ k. refl;
          same_size = refl;
        })
        (omega arith)
