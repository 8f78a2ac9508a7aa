-- ===== src/LockFreeStack/Invariant.antt =====
-- What holds of the stack and of every thread's locals after `k` successful `cas`.
use cpp_lockfree_core.Base.{ℕ, ◌≤◌, ◌≡◌, ◌↔◌, refl, List, [], Option, some}
use cpp_lockfree_core.LockFreeStack.{
  linked, busy, Mem, Pc, idle, push_start, push_ptr, push_snap, push_linked, pop_start, pop_ptr,
  pop_snap, pop_next, System, new_stack,
}
use cpp_lockfree_core.LockFreeStack.Chain.{In, Distinct, Chain}

-- A snapshot whose loads began at tag `a`: if nothing has happened since, it is the head.
pub record Fresh (k : ℕ) (m : Mem) (p : Option ℕ) (t a : ℕ) : Type 0 where
  pub begun : a ≤ k
  pub read : t ≤ k
  pub current : k ≡ a → (m.head_ptr ≡ p) × (t ≡ k)

abbrev pub Holds : ℕ → Mem → ℕ → Pc → Type 0
Holds k m i idle = Unit {0}
Holds k m i (push_start n) = m.owner n ≡ busy i
Holds k m i (push_ptr n p a) = (m.owner n ≡ busy i) × (a ≤ k) × (k ≡ a → m.head_ptr ≡ p)
Holds k m i (push_snap n p t a) = (m.owner n ≡ busy i) × Fresh k m p t a
Holds k m i (push_linked n p t a) = (m.owner n ≡ busy i) × Fresh k m p t a × (m.next n ≡ p)
Holds k m i pop_start = Unit {0}
Holds k m i (pop_ptr x a) = (a ≤ k) × (k ≡ a → m.head_ptr ≡ some x)
Holds k m i (pop_snap x t a) = Fresh k m (some x) t a
Holds k m i (pop_next x t nx a) =
    Fresh k m (some x) t a × (m.head_ptr ≡ some x → m.head_tag ≡ t → nx ≡ m.next x)

pub record MemInv (k : ℕ) (m : Mem) (xs : List ℕ) : Type 0 where
  pub tag : m.head_tag ≡ k
  pub chain : Chain m.next m.head_ptr xs
  pub distinct : Distinct xs
  pub inside : (x : ℕ) → (m.owner x ≡ linked) ↔ In x xs

pub record Inv (k : ℕ) (s : System) (xs : List ℕ) : Type 0 where
  pub memory : MemInv k s.mem xs
  pub threads : (i : ℕ) → Holds k s.mem i (s.pc i)

-- A new stack, with every thread outside its operations, is empty.
pub Inv-new_stack :
    (next : ℕ → Option ℕ) → Inv 0 (record { mem = new_stack next; pc = λ _. idle }) []
unfolding new_stack
Inv-new_stack next = record {
  memory = record {
    tag = refl;
    chain = refl;
    distinct = tt;
    inside = λ x. (λ e. cc, λ e. absurd e);
  };
  threads = λ i. tt;
}
