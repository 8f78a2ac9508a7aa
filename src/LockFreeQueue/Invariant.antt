-- ===== src/LockFreeQueue/Invariant.antt =====
-- What holds of the cells and of every thread's locals, in terms of the values pushed so far.
use cpp_lockfree_core.Base.{ℕ, ◌+◌, ◌%◌, ◌≤◌, ◌<◌, ◌≡◌, List, some, length, get_elem?}
use cpp_lockfree_core.LockFreeQueue.{
  Queue, Pc, idle, push_loop, push_test, push_write, push_publish, pop_loop, pop_test, pop_read,
  pop_release, slot, System,
}

-- The specification: all values pushed, in order, and how many of them have been taken.
pub record Fifo (V : Type 0) : Type 0 where
  pub pushes : List V
  pub taken : ℕ

-- Where a cell stands: vacant for the push of ticket `p`, being filled by thread `i`, filled, or being
-- drained by thread `i`.
pub data Stage : Type 0 where
  vacant filled : (p : ℕ) → Stage
  filling draining : (i p : ℕ) → Stage

-- `Fits c n d l s seq v st`: the cell `s` of `c`, with sequence number `seq` and value `v`, is at stage
-- `st` when the values `l` have been pushed, `n` of them, and `d` have been taken.
abbrev pub Fits : {V : Type 0} → (c n d : ℕ) → List V → (s seq : ℕ) → V → Stage → Type 0
Fits c n d l s seq v (vacant p) = (seq ≡ p) × (p % c ≡ s) × (n ≤ p) × (p < d + c)
Fits c n d l s seq v (filling i p) = (seq ≡ p) × (p % c ≡ s) × (d ≤ p) × (p < n)
Fits c n d l s seq v (filled p) =
    (seq ≡ p + 1) × (p % c ≡ s) × (d ≤ p) × (p < n) × (get_elem? l p ≡ some v)
Fits c n d l s seq v (draining i p) =
    (seq ≡ p + 1) × (p % c ≡ s) × (p < d) × (n ≤ p + c) × (get_elem? l p ≡ some v)

pub record Cells {V : Type 0} (c : ℕ) (q : Queue V) (f : Fifo V) (stage : ℕ → Stage) : Type 0 where
  pub two_cells : 2 ≤ c
  pub mask_is : q.mask + 1 ≡ c
  pub slot_is : (pos : ℕ) → slot q pos ≡ pos % c
  pub enqueued : q.enqueue_pos ≡ length f.pushes
  pub dequeued : q.dequeue_pos ≡ f.taken
  pub taken_few : f.taken ≤ length f.pushes
  pub room : length f.pushes ≤ f.taken + c
  pub fits :
      (s : ℕ)
      → s < c
      → Fits c (length f.pushes) f.taken f.pushes s (q.sequence s) (q.value s) (stage s)

module _ {V : Type 0} (c : ℕ) (q : Queue V) (f : Fifo V) (stage : ℕ → Stage) (i : ℕ) where
  abbrev pub Holds : Pc V → Type 0
  Holds idle = Unit {0}
  Holds (push_loop v pos) = pos ≤ q.enqueue_pos
  Holds (push_test v pos seq) = (pos ≤ q.enqueue_pos) × (seq ≤ q.sequence (pos % c))
  Holds (push_write v pos) = (stage (pos % c) ≡ filling i pos) × (get_elem? f.pushes pos ≡ some v)
  Holds (push_publish v pos) =
      (stage (pos % c) ≡ filling i pos)
      × (get_elem? f.pushes pos ≡ some v)
      × (q.value (pos % c) ≡ v)
  Holds (pop_loop pos) = pos ≤ q.dequeue_pos
  Holds (pop_test pos seq) = (pos ≤ q.dequeue_pos) × (seq ≤ q.sequence (pos % c))
  Holds (pop_read pos) = stage (pos % c) ≡ draining i pos
  Holds (pop_release pos out) =
      (stage (pos % c) ≡ draining i pos) × (get_elem? f.pushes pos ≡ some out)

pub record Inv {V : Type 0} (c : ℕ) (s : System V) (f : Fifo V) : Type 0 where
  pub stage : ℕ → Stage
  pub cells : Cells c s.queue f stage
  pub threads : (i : ℕ) → Holds c s.queue f stage i (s.pc i)
