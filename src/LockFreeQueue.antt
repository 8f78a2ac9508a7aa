-- ===== src/LockFreeQueue.antt =====
-- The bounded queue of CppLockFreeCore/LockFreeQueue.h, one shared access at a time. The cells are
-- two families, of which the indices up to `mask` are used.
pub mod Invariant
pub mod Claim
pub mod Keep
pub mod Outcome
pub mod Pushes
pub mod Pops
pub mod Moves
pub mod Runs
pub mod Stuck
use cpp_lockfree_core.Base.{ℕ, ◌+◌, ◌-◌, ◌%◌, ◌^◌, ◌≡◌, ◌≢◌, ◌≤◌, ◌<◌, List}
use Prim.Native.Nat.{bit_and}
use cpp_lockfree_core.Family.{update}

pub record Queue (V : Type 0) : Type 0 where
  pub sequence : ℕ → ℕ
  pub value : ℕ → V
  pub mask : ℕ
  pub enqueue_pos : ℕ
  pub dequeue_pos : ℕ

unfoldable pub new_queue : {V : Type 0} → ℕ → (ℕ → V) → Queue V
new_queue capacity value = record {
  sequence = λ i. i;
  value = value;
  mask = capacity - 1;
  enqueue_pos = 0;
  dequeue_pos = 0;
}

-- `a - b` and `a + b` on `LONG64`, as the 64 bits that stand for them.
abbrev pub diff : ℕ → ℕ → ℕ
diff a b = (a + 2 ^ 64 - b) % 2 ^ 64

abbrev pub sum : ℕ → ℕ → ℕ
sum a b = (a + b) % 2 ^ 64

abbrev pub IsNegative : ℕ → Type 0
IsNegative d = 2 ^ 63 ≤ d

-- `pos & m_mask`
unfoldable pub slot : {V : Type 0} → Queue V → ℕ → ℕ
slot q pos = bit_and pos q.mask

-- Where a thread stands in `push` or `pop`, with its locals.
pub data Pc (V : Type 0) : Type 0 where
  idle : Pc V
  push_loop : (v : V) (pos : ℕ) → Pc V
  push_test : (v : V) (pos seq : ℕ) → Pc V
  push_write : (v : V) (pos : ℕ) → Pc V
  push_publish : (v : V) (pos : ℕ) → Pc V
  pop_loop : (pos : ℕ) → Pc V
  pop_test : (pos seq : ℕ) → Pc V
  pop_read : (pos : ℕ) → Pc V
  pop_release : (pos : ℕ) (out : V) → Pc V

-- What a step means to the clients: a place in the order of pushes or of pops is taken, a value is
-- handed out, or a call returns false.
pub data Event (V : Type 0) : Type 0 where
  silent found_full found_empty : Event V
  pushed : V → Event V
  popped : ℕ → Event V
  gave : ℕ → V → Event V

-- One step of a thread. After a failing compare-exchange the loops go on with the old `pos`.
pub data Move {V : Type 0} (q : Queue V) : Pc V → Event V → Queue V → Pc V → Type 0 where
  begin_push : {v : V} → Move q idle silent q (push_loop v q.enqueue_pos)
  push_load :
      {v : V} {pos : ℕ}
      → Move q (push_loop v pos) silent q (push_test v pos (q.sequence (slot q pos)))
  push_cas :
      {v : V} {pos seq : ℕ}
      → diff seq pos ≡ 0
      → q.enqueue_pos ≡ pos
      → Move q
          (push_test v pos seq)
          (pushed v)
          (record q { enqueue_pos = sum pos 1 })
          (push_write v pos)
  push_cas_fail :
      {v : V} {pos seq : ℕ}
      → diff seq pos ≡ 0
      → q.enqueue_pos ≢ pos
      → Move q (push_test v pos seq) silent q (push_loop v pos)
  push_full :
      {v : V} {pos seq : ℕ}
      → IsNegative (diff seq pos)
      → Move q (push_test v pos seq) found_full q idle
  push_reload :
      {v : V} {pos seq : ℕ}
      → diff seq pos ≢ 0
      → ¬ IsNegative (diff seq pos)
      → Move q (push_test v pos seq) silent q (push_loop v q.enqueue_pos)
  push_data :
      {v : V} {pos : ℕ}
      → Move q
          (push_write v pos)
          silent
          (record q { value = update q.value (slot q pos) v })
          (push_publish v pos)
  push_done :
      {v : V} {pos : ℕ}
      → Move q
          (push_publish v pos)
          silent
          (record q { sequence = update q.sequence (slot q pos) (sum pos 1) })
          idle
  begin_pop : Move q idle silent q (pop_loop q.dequeue_pos)
  pop_load : {pos : ℕ} → Move q (pop_loop pos) silent q (pop_test pos (q.sequence (slot q pos)))
  pop_cas :
      {pos seq : ℕ}
      → diff seq (sum pos 1) ≡ 0
      → q.dequeue_pos ≡ pos
      → Move q (pop_test pos seq) (popped pos) (record q { dequeue_pos = sum pos 1 }) (pop_read pos)
  pop_cas_fail :
      {pos seq : ℕ}
      → diff seq (sum pos 1) ≡ 0
      → q.dequeue_pos ≢ pos
      → Move q (pop_test pos seq) silent q (pop_loop pos)
  pop_empty :
      {pos seq : ℕ}
      → IsNegative (diff seq (sum pos 1))
      → Move q (pop_test pos seq) found_empty q idle
  pop_reload :
      {pos seq : ℕ}
      → diff seq (sum pos 1) ≢ 0
      → ¬ IsNegative (diff seq (sum pos 1))
      → Move q (pop_test pos seq) silent q (pop_loop q.dequeue_pos)
  pop_data : {pos : ℕ} → Move q (pop_read pos) silent q (pop_release pos (q.value (slot q pos)))
  pop_done :
      {pos : ℕ} {out : V}
      → Move q
          (pop_release pos out)
          (gave pos out)
          (record q { sequence = update q.sequence (slot q pos) (sum (pos + q.mask) 1) })
          idle

-- Any number of threads over one queue, interleaved in any order.
pub record System (V : Type 0) : Type 0 where
  pub queue : Queue V
  pub pc : ℕ → Pc V

pub data Step {V : Type 0} (s : System V) : Event V → System V → Type 0 where
  step :
      (i : ℕ) {e : Event V} {q : Queue V} {p : Pc V}
      → Move s.queue (s.pc i) e q p
      → Step s e (record { queue = q; pc = update s.pc i p })
