-- ===== src/HashTable/Invariant.antt =====
-- Where a table's chains stand, how many nodes they have, and what every operation keeps.
use cpp_lockfree_core.Base.{
  ℕ, suc, zero, ◌+◌, ◌≡◌, ◌<◌, refl, sym, ap, ◌∙◌, subst, true, List, [], Option, length, arith,
  if◌then◌else◌, Bool-cases, inl, inr, ℕ_discrete,
}
use native.Mathlib.Nat.{mod-lt}
use cpp_lockfree_core.Family.{update, update_self, update_ne}
use cpp_lockfree_core.HashTable.{Key, IsLawful, Table, hash_of, find, find_in}
use cpp_lockfree_core.HashTable.Chains.{Unique, find_in-same}

-- The nodes of the first `n` chains.
unfoldable pub total {ℓ} : {A : Type ℓ} → (ℕ → List A) → ℕ → ℕ
total f zero = 0
total f (suc n) = length (f n) + total f n

pub total_empty {ℓ} : (A : Type ℓ) (n : ℕ) → total {A = A} (λ _. []) n ≡ 0
unfolding total
total_empty A zero = refl
total_empty A (suc n) = omega (arith, total_empty A n)

total_beyond {ℓ} :
    {A : Type ℓ} (f : ℕ → List A) (i : ℕ) (l : List A) (n : ℕ)
    → ¬ (i < n)
    → total (update f i l) n ≡ total f n
unfolding total
total_beyond f i l zero h = refl
total_beyond f i l (suc n) h =
    rw (update_ne f i l n (λ e. omega (arith, e, h)), total_beyond f i l n (λ q. omega (arith, h)))
      refl

pub total-update {ℓ} :
    {A : Type ℓ} (f : ℕ → List A) (i : ℕ) (l : List A) (n : ℕ)
    → i < n
    → total (update f i l) n + length (f i) ≡ total f n + length l
unfolding total
total-update f i l zero h = absurd (omega arith)
total-update f i l (suc n) h = elim (ℕ_discrete i n) [
  | yes e ↦
      let q : length (update f i l n) ≡ length l =
        ap length (ap (update f i l) (sym e) ∙ update_self f i l) in
      let r : length (f n) ≡ length (f i) = ap (λ x. length (f x)) (sym e) in
      omega (arith, q, r, total_beyond f i l n (λ z. omega (arith, e)))
  | no ne ↦
      let q : length (update f i l n) ≡ length (f n) =
        ap length (update_ne f i l n (λ z. ne (sym z))) in
      omega (arith, q, total-update f i l n (omega (arith, ne)))
]

pub total-member {ℓ} :
    {A : Type ℓ} (f : ℕ → List A) (i n : ℕ) → i < n → ¬ (total f n < length (f i))
unfolding total
total-member f i zero h q = absurd (omega arith)
total-member f i (suc n) h q = elim (ℕ_discrete i n) [
  | yes e ↦ let r : length (f n) ≡ length (f i) = ap (λ x. length (f x)) (sym e) in omega (arith, r)
  | no ne ↦ total-member f i n (omega (arith, ne)) (omega arith)
]

pub record TableInv {ℓ} {K V : Type ℓ} (key : Key K) (t : Table K V) : Type ℓ where
  pub some_bucket : 0 < t.bucket_count
  pub unique : (i : ℕ) → Unique key (t.buckets i)
  pub counted : t.count ≡ total t.buckets t.bucket_count

module _ {ℓ} {K V : Type ℓ} {key : Key K} (law : IsLawful key) where
  pub hash_of-bound :
      (t : Table K V) (k : K) → 0 < t.bucket_count → hash_of key t k < t.bucket_count
  unfolding hash_of
  hash_of-bound t k h = mod-lt _ h

  pub hash_of-same :
      (t : Table K V) (k k' : K) → key.same k k' ≡ true → hash_of key t k ≡ hash_of key t k'
  unfolding hash_of
  hash_of-same t k k' e = rw (law.bytes_same k k' e) refl

  pub find-same : (t : Table K V) (k k' : K) → key.same k k' ≡ true → find key t k ≡ find key t k'
  unfolding find
  find-same t k k' e =
      rw (← hash_of-same t k k' e) (find_in-same law k k' (t.buckets (hash_of key t k)) e)

  -- A lookup in a table whose chain for `k` was replaced by one that differs at `k` alone.
  pub find_after :
      (t : Table K V) (k : K) (ms : List (K × V)) (o : Option V) (n : ℕ)
      → ((k' : K)
          → find_in key k' ms
            ≡ (if key.same k k' then o else find_in key k' (t.buckets (hash_of key t k))))
      → (k' : K)
      → find key (record t { buckets = update t.buckets (hash_of key t k) ms; count = n }) k'
        ≡ (if key.same k k' then o else find key t k')
  unfolding find hash_of
  find_after t k ms o n h k' = elim (ℕ_discrete (hash_of key t k) (hash_of key t k')) [
    | yes e ↦
        subst
          (λ i.
            find_in key k' (update t.buckets (hash_of key t k) ms i)
            ≡ (if key.same k k' then o else find_in key k' (t.buckets i)))
          e (rw (update_self t.buckets (hash_of key t k) ms) (h k'))
    | no ne ↦ elim (Bool-cases (key.same k k')) [
      | inl s ↦ absurd (ne (hash_of-same t k k' s))
      | inr s ↦
          rw (s, update_ne t.buckets (hash_of key t k) ms (hash_of key t k') (λ z. ne (sym z))) refl
    ]
  ]
