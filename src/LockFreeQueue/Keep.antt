-- ===== src/LockFreeQueue/Keep.antt =====
-- What a step of one thread leaves to all the others.
use cpp_lockfree_core.Base.{ℕ, ◌%◌, ◌≤◌, ◌≡◌, ◌≢◌, ◌∙◌, some, get_elem?, arith}
use cpp_lockfree_core.LockFreeQueue.{
  Queue, Pc, idle, push_loop, push_test, push_write, push_publish, pop_loop, pop_test, pop_read,
  pop_release,
}
use cpp_lockfree_core.LockFreeQueue.Invariant.{Fifo, Stage, filling, draining, Holds}

pub record Keeps {V : Type 0} (i : ℕ) (q q' : Queue V) (f f' : Fifo V) (stage stage' : ℕ → Stage)
    : Type 0 where
  pub pushes_up : q.enqueue_pos ≤ q'.enqueue_pos
  pub pops_up : q.dequeue_pos ≤ q'.dequeue_pos
  pub sequence_up : (s : ℕ) → q.sequence s ≤ q'.sequence s
  pub filling_kept : (s j p : ℕ) → j ≢ i → stage s ≡ filling j p → stage' s ≡ filling j p
  pub draining_kept : (s j p : ℕ) → j ≢ i → stage s ≡ draining j p → stage' s ≡ draining j p
  pub value_kept : (s j p : ℕ) → j ≢ i → stage s ≡ filling j p → q'.value s ≡ q.value s
  pub pushes_kept : (p : ℕ) (v : V) → get_elem? f.pushes p ≡ some v → get_elem? f'.pushes p ≡ some v

pub Holds-keep :
    {V : Type 0} (c : ℕ) {i : ℕ} {q q' : Queue V} {f f' : Fifo V} {stage stage' : ℕ → Stage}
    → Keeps i q q' f f' stage stage'
    → (j : ℕ) → j ≢ i
    → (p : Pc V) → Holds c q f stage j p
    → Holds c q' f' stage' j p
Holds-keep c k j ne idle h = tt
Holds-keep c k j ne (push_loop v pos) h = omega (arith, h, k.pushes_up)
Holds-keep c k j ne (push_test v pos seq) h =
    (omega (arith, h.0, k.pushes_up), omega (arith, h.1, k.sequence_up (pos % c)))
Holds-keep c k j ne (push_write v pos) h = (k.filling_kept _ j pos ne h.0, k.pushes_kept pos v h.1)
Holds-keep c k j ne (push_publish v pos) (h, g, e) =
    (k.filling_kept _ j pos ne h, k.pushes_kept pos v g, k.value_kept _ j pos ne h ∙ e)
Holds-keep c k j ne (pop_loop pos) h = omega (arith, h, k.pops_up)
Holds-keep c k j ne (pop_test pos seq) h =
    (omega (arith, h.0, k.pops_up), omega (arith, h.1, k.sequence_up (pos % c)))
Holds-keep c k j ne (pop_read pos) h = k.draining_kept _ j pos ne h
Holds-keep c k j ne (pop_release pos out) h =
    (k.draining_kept _ j pos ne h.0, k.pushes_kept pos out h.1)
