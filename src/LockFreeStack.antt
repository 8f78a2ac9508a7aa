-- ===== src/LockFreeStack.antt =====
-- The Treiber stack of CppLockFreeCore/LockFreeStack.h, one shared access at a time. A node is its
-- address; `none` is the null pointer.
pub mod Chain
pub mod Owners
pub mod Invariant
pub mod Keep
pub mod Linearize
pub mod Runs
pub mod Progress
pub mod Sequential
use cpp_lockfree_core.Base.{ℕ, ◌+◌, ◌%◌, ◌^◌, ◌≡◌, Option, none, some}
use cpp_lockfree_core.Family.{update}

-- Who may touch a node: the client, the thread that is pushing it, or the stack. The code keeps no
-- such record; the client's part of it is that a node is pushed only when it is `free`.
pub data Owner : Type 0 where
  free linked : Owner
  busy : ℕ → Owner

-- `m_head`, and the `next` member of every node.
pub record Mem : Type 0 where
  pub head_ptr : Option ℕ
  pub head_tag : ℕ
  pub next : ℕ → Option ℕ
  pub owner : ℕ → Owner

unfoldable pub new_stack : (ℕ → Option ℕ) → Mem
new_stack next = record { head_ptr = none; head_tag = 0; next = next; owner = λ _. free }

-- `oldHead.tag + 1` on `__int64`.
abbrev pub next_tag : ℕ → ℕ
next_tag t = (t + 1) % 2 ^ 64

-- Where a thread stands in `push` or `pop`, with its locals. The 16 bytes of `oldHead = m_head` are
-- two loads, the pointer and then the tag. The last number of a state is no variable of the code:
-- it is the tag that stood in the head at the first of the two loads.
pub data Pc : Type 0 where
  idle : Pc
  push_start : (node : ℕ) → Pc
  push_ptr : (node : ℕ) (ptr : Option ℕ) (since : ℕ) → Pc
  push_snap : (node : ℕ) (ptr : Option ℕ) (tag since : ℕ) → Pc
  push_linked : (node : ℕ) (ptr : Option ℕ) (tag since : ℕ) → Pc
  pop_start : Pc
  pop_ptr : (ptr since : ℕ) → Pc
  pop_snap : (ptr tag since : ℕ) → Pc
  pop_next : (ptr tag : ℕ) (next : Option ℕ) (since : ℕ) → Pc

-- What a step does to the stack as its client sees it.
pub data Event : Type 0 where
  silent : Event
  pushed popped : ℕ → Event
  found_empty : Event

-- One step of thread `i`. `cas` compares both halves of the head and stores both.
pub data Move (i : ℕ) (m : Mem) : Pc → Event → Mem → Pc → Type 0 where
  begin_push :
      {n : ℕ}
      → m.owner n ≡ free
      → Move i m idle silent (record m { owner = update m.owner n (busy i) }) (push_start n)
  push_load_ptr : {n : ℕ} → Move i m (push_start n) silent m (push_ptr n m.head_ptr m.head_tag)
  push_load_tag :
      {n a : ℕ} {p : Option ℕ} → Move i m (push_ptr n p a) silent m (push_snap n p m.head_tag a)
  push_link :
      {n t a : ℕ} {p : Option ℕ}
      → Move i m
          (push_snap n p t a)
          silent
          (record m { next = update m.next n p })
          (push_linked n p t a)
  push_cas :
      {n t a : ℕ} {p : Option ℕ}
      → m.head_ptr ≡ p
      → m.head_tag ≡ t
      → Move i m
          (push_linked n p t a)
          (pushed n)
          (record m { head_ptr = some n; head_tag = next_tag t; owner = update m.owner n linked })
          idle
  push_retry :
      {n t a : ℕ} {p : Option ℕ}
      → ¬ ((m.head_ptr ≡ p) × (m.head_tag ≡ t))
      → Move i m (push_linked n p t a) silent m (push_start n)
  begin_pop : Move i m idle silent m pop_start
  pop_null : m.head_ptr ≡ none → Move i m pop_start found_empty m idle
  pop_load_ptr : {x : ℕ} → m.head_ptr ≡ some x → Move i m pop_start silent m (pop_ptr x m.head_tag)
  pop_load_tag : {x a : ℕ} → Move i m (pop_ptr x a) silent m (pop_snap x m.head_tag a)
  pop_load_next : {x t a : ℕ} → Move i m (pop_snap x t a) silent m (pop_next x t (m.next x) a)
  pop_cas :
      {x t a : ℕ} {nx : Option ℕ}
      → m.head_ptr ≡ some x
      → m.head_tag ≡ t
      → Move i m
          (pop_next x t nx a)
          (popped x)
          (record m { head_ptr = nx; head_tag = next_tag t; owner = update m.owner x free })
          idle
  pop_retry :
      {x t a : ℕ} {nx : Option ℕ}
      → ¬ ((m.head_ptr ≡ some x) × (m.head_tag ≡ t))
      → Move i m (pop_next x t nx a) silent m pop_start

-- Any number of threads over one stack, interleaved in any order.
pub record System : Type 0 where
  pub mem : Mem
  pub pc : ℕ → Pc

pub data Step (s : System) : Event → System → Type 0 where
  step :
      (i : ℕ) {e : Event} {m : Mem} {p : Pc}
      → Move i s.mem (s.pc i) e m p
      → Step s e (record { mem = m; pc = update s.pc i p })

-- The number of tags that an event uses up.
abbrev pub uses : Event → ℕ
uses silent = 0
uses found_empty = 0
uses (pushed _) = 1
uses (popped _) = 1
