-- ===== src/HashTable.antt =====
-- The chained hash table of CppLockFreeCore/HashTable.h. A chain is the list of its nodes, first to
-- last; the array of buckets is a family, of which the indices below `bucket_count` are used.
pub mod Chains
pub mod Invariant
pub mod Spec
pub mod Refine
use cpp_lockfree_core.Base.{
  ℕ, ◌+◌, ◌-◌, ◌*◌, ◌%◌, ◌^◌, ◌≡◌, Bool, true, false, List, [], ◌∷◌, Option, none, some,
  if◌then◌else◌,
}
use Prim.Native.Nat.{bit_xor}
use cpp_lockfree_core.Family.{update}

-- What the table asks of its template argument `K`: `==`, and the bytes of the object that
-- `hashOf` reads through `reinterpret_cast`.
pub record Key {ℓ} (K : Type ℓ) : Type ℓ where
  pub same : K → K → Bool
  pub bytes : K → List ℕ

-- `==` is an equivalence, and keys that are equal for it have the same bytes, which types with
-- padding or two zeros do not promise.
pub record IsLawful {ℓ} {K : Type ℓ} (key : Key K) : Type ℓ where
  pub same_refl : (a : K) → key.same a a ≡ true
  pub same_sym : (a b : K) → key.same a b ≡ key.same b a
  pub same_trans : (a b c : K) → key.same a b ≡ true → key.same b c ≡ true → key.same a c ≡ true
  pub bytes_same : (a b : K) → key.same a b ≡ true → key.bytes a ≡ key.bytes b

-- FNV-1a on `unsigned long long`.
pub fnv : ℕ → List ℕ → ℕ
fnv h [] = h
fnv h (b ∷ bs) = fnv ((bit_xor h b * 1099511628211) % 2 ^ 64) bs

pub record Table {ℓ} (K V : Type ℓ) : Type ℓ where
  pub buckets : ℕ → List (K × V)
  pub bucket_count : ℕ
  pub count : ℕ

module _ {ℓ} {K V : Type ℓ} where
  unfoldable pub new_table : ℕ → Table K V
  new_table n = record { buckets = λ _. []; bucket_count = n; count = 0 }

  pub get_count : Table K V → ℕ
  get_count t = t.count

module _ {ℓ} {K V : Type ℓ} (key : Key K) where
  unfoldable pub hash_of : Table K V → K → ℕ
  hash_of t k = fnv 1469598103934665603 (key.bytes k) % t.bucket_count

  -- The loops over the nodes of one chain: the value of a key, the chain with another value for a
  -- key that it holds, and the chain without the first node of a key that it holds.
  pub find_in : K → List (K × V) → Option V
  find_in k [] = none
  find_in k ((c, v) ∷ ns) = if key.same c k then some v else find_in k ns

  pub assign_in : K → V → List (K × V) → Option (List (K × V))
  assign_in k v [] = none
  assign_in k v ((c, w) ∷ ns) =
      if key.same c k
      then some ((c, v) ∷ ns)
      else (elim (assign_in k v ns) [ none ↦ none | some ms ↦ some ((c, w) ∷ ms) ])

  pub cut_out : K → List (K × V) → Option (List (K × V))
  cut_out k [] = none
  cut_out k ((c, w) ∷ ns) =
      if key.same c k
      then some ns
      else (elim (cut_out k ns) [ none ↦ none | some ms ↦ some ((c, w) ∷ ms) ])

  unfoldable pub find : Table K V → K → Option V
  find t k = find_in k (t.buckets (hash_of t k))

  pub insert_from : Table K V → ℕ → K → V → Option (List (K × V)) → Table K V
  insert_from t i k v (some ns) = record t { buckets = update t.buckets i ns }
  insert_from t i k v none = record t {
    buckets = update t.buckets i ((k, v) ∷ t.buckets i);
    count = (t.count + 1) % 2 ^ 32;
  }

  unfoldable pub insert : Table K V → K → V → Table K V
  insert t k v = let i = hash_of t k in insert_from t i k v (assign_in k v (t.buckets i))

  pub erase_from : Table K V → ℕ → Option (List (K × V)) → Bool × Table K V
  erase_from t i none = (false, t)
  erase_from t i (some ns) =
      (true, record t { buckets = update t.buckets i ns; count = (t.count + 2 ^ 32 - 1) % 2 ^ 32 })

  unfoldable pub erase : Table K V → K → Bool × Table K V
  erase t k = let i = hash_of t k in erase_from t i (cut_out k (t.buckets i))
