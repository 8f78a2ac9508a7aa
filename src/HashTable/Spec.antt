-- ===== src/HashTable/Spec.antt =====
-- What a hash table is for: a finite map with a size, its operations, and what they answer.
use cpp_lockfree_core.Base.{
  ℕ, ◌+◌, ◌-◌, Bool, true, false, List, [], ◌∷◌, Option, none, some, if◌then◌else◌,
}
use cpp_lockfree_core.HashTable.{Key, Table, get_count, find, insert, erase}

-- The specification: a partial function, and the number of keys on which it is defined.
pub record Finite {ℓ} (K V : Type ℓ) : Type ℓ where
  pub lookup : K → Option V
  pub size : ℕ

pub data Op {ℓ} (K V : Type ℓ) : Type ℓ where
  insert_op : K → V → Op K V
  find_op erase_op : K → Op K V
  count_op : Op K V

pub data Reply {ℓ} (V : Type ℓ) : Type ℓ where
  done : Reply V
  value : Option V → Reply V
  was_there : Bool → Reply V
  number : ℕ → Reply V

module _ {ℓ} {V : Type ℓ} where
  unfoldable pub is_some : Option V → Bool
  is_some none = false
  is_some (some v) = true

  unfoldable pub more : Option V → ℕ → ℕ
  more none n = n + 1
  more (some v) n = n

  unfoldable pub fewer : Option V → ℕ → ℕ
  fewer none n = n
  fewer (some v) n = n - 1

module _ {ℓ} {K V : Type ℓ} (key : Key K) where
  unfoldable pub exec : Table K V → Op K V → Reply V × Table K V
  exec t (insert_op k v) = (done, insert key t k v)
  exec t (find_op k) = (value (find key t k), t)
  exec t (erase_op k) = let r = erase key t k in (was_there r.0, r.1)
  exec t count_op = (number (get_count t), t)

  unfoldable pub spec_exec : Finite K V → Op K V → Reply V × Finite K V
  spec_exec s (insert_op k v) = (
    done,
    record {
      lookup = λ k'. if key.same k k' then some v else s.lookup k';
      size = more (s.lookup k) s.size;
    },
  )
  spec_exec s (find_op k) = (value (s.lookup k), s)
  spec_exec s (erase_op k) = (
    was_there (is_some (s.lookup k)),
    record {
      lookup = λ k'. if key.same k k' then none else s.lookup k';
      size = fewer (s.lookup k) s.size;
    },
  )
  spec_exec s count_op = (number s.size, s)

  -- The answers to a sequence of operations, by the table and by the specification.
  unfoldable pub replies : Table K V → List (Op K V) → List (Reply V)
  replies t [] = []
  replies t (o ∷ os) = let r = exec t o in r.0 ∷ replies r.1 os

  unfoldable pub spec_replies : Finite K V → List (Op K V) → List (Reply V)
  spec_replies s [] = []
  spec_replies s (o ∷ os) = let r = spec_exec s o in r.0 ∷ spec_replies r.1 os

unfoldable pub nowhere {ℓ} : {K V : Type ℓ} → Finite K V
nowhere = record { lookup = λ _. none; size = 0 }
