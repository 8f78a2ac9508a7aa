-- ===== src/Tests/Pool.antt =====
-- `MemoryPool` at work.
use cpp_lockfree_core.Base.{refl, [], ◌∷◌, none, arith, inl, inr}
use cpp_lockfree_core.LockFreeStack.Invariant.{Inv-new_stack}
use cpp_lockfree_core.MemoryPool.{Pool, new_pool, alloc, free}
use cpp_lockfree_core.MemoryPool.Counts.{PoolInv, Allocated, alloc-Allocated}
use cpp_lockfree_core.MemoryPool.Remove.{remove}
use cpp_lockfree_core.MemoryPool.Free.{free-PoolInv}

abbrev fresh_pool : Pool
fresh_pool = new_pool (λ _. none) 100

fresh_pool-PoolInv : PoolInv 0 fresh_pool [] []
unfolding new_pool
fresh_pool-PoolInv = record {
  memory = (Inv-new_stack (λ _. none)).memory;
  allocated = refl;
  in_use = refl;
  distinct = tt;
  apart = λ x q r. q;
  live_old = λ x q. absurd q;
  free_old = λ x q. absurd q;
}

alloc-Allocated_example : Allocated 0 fresh_pool [] [] (alloc fresh_pool)
alloc-Allocated_example = alloc-Allocated fresh_pool-PoolInv (omega arith) (omega arith)

-- A block in use, and none on the free list.
abbrev one_block : Pool
one_block = record (fresh_pool) { alloc_count = 1; use_count = 1; fresh = 101 }

one_block-PoolInv : PoolInv 0 one_block (100 ∷ []) []
unfolding new_pool
one_block-PoolInv = record {
  memory = (Inv-new_stack (λ _. none)).memory;
  allocated = refl;
  in_use = refl;
  distinct = (λ q. q, tt);
  apart = λ x q r. r;
  live_old = λ x q. elim q [ inl e ↦ omega (arith, e) | inr r ↦ absurd r ];
  free_old = λ x q. absurd q;
}

free-PoolInv_example : PoolInv 1 (free one_block 100) (remove 100 (100 ∷ [])) (100 ∷ [])
free-PoolInv_example = free-PoolInv 100 one_block-PoolInv (omega arith) (omega arith) (inl refl)
