-- ===== src/Tests/Hash.antt =====
-- `HashTable` at work, with `int` keys.
use cpp_lockfree_core.Base.{ℕ, ◌≡◌, refl, List, [], ◌∷◌, none, some, arith, true, false, ◌==◌}
use cpp_lockfree_core.Bytes.{le_bytes}
use cpp_lockfree_core.HashTable.{Key, IsLawful, new_table}
use cpp_lockfree_core.HashTable.Spec.{
  Op, insert_op, find_op, erase_op, count_op, done, value, was_there, number, replies, spec_replies,
  nowhere, spec_exec, is_some, more, fewer,
}
use cpp_lockfree_core.HashTable.Refine.{replies_refine}

abbrev int_key : Key ℕ
int_key = record { same = λ a b. a == b; bytes = le_bytes 4 }

int_key-IsLawful : IsLawful int_key
int_key-IsLawful = record {
  same_refl = λ a. ground arith;
  same_sym = λ a b. ground arith;
  same_trans = λ a b c p q. ground arith;
  bytes_same = λ a b p. let e : a ≡ b = ground arith in rw e refl;
}

-- Keys 1 and 8 share one of the two buckets with others.
abbrev calls : List (Op ℕ ℕ)
calls =
    insert_op 1 10
    ∷ insert_op 8 80
    ∷ insert_op 3 30
    ∷ insert_op 1 11
    ∷ count_op
    ∷ find_op 1
    ∷ erase_op 8
    ∷ erase_op 8
    ∷ find_op 8
    ∷ count_op
    ∷ []

calls_answered :
    spec_replies int_key nowhere calls
    ≡ done
      ∷ done
      ∷ done
      ∷ done
      ∷ number 3
      ∷ value (some 11)
      ∷ was_there true
      ∷ was_there false
      ∷ value none
      ∷ number 2
      ∷ []
unfolding spec_replies spec_exec nowhere is_some more fewer
calls_answered = refl

replies_refine_example : replies int_key (new_table 2) calls ≡ spec_replies int_key nowhere calls
replies_refine_example = replies_refine int_key-IsLawful 2 (omega arith) calls (omega arith)
