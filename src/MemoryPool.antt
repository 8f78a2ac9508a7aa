-- ===== src/MemoryPool.antt =====
-- The block pool of CppLockFreeCore/MemoryPool.h, used by one thread at a time, on the stack of
-- LockFreeStack.antt. A block is its address, which is that of its `data` too.
pub mod Counts
pub mod Remove
pub mod Free
use cpp_lockfree_core.Base.{ℕ, suc, ◌+◌, ◌-◌, ◌%◌, ◌^◌, Option, none, some}
use cpp_lockfree_core.LockFreeStack.{Mem, new_stack}
use cpp_lockfree_core.LockFreeStack.Sequential.{push, pop}

-- `fresh` is the address that the next `new` returns: no block has had it.
pub record Pool : Type 0 where
  pub free_list : Mem
  pub alloc_count : ℕ
  pub use_count : ℕ
  pub fresh : ℕ

unfoldable pub new_pool : (ℕ → Option ℕ) → ℕ → Pool
new_pool next fresh = record {
  free_list = new_stack next;
  alloc_count = 0;
  use_count = 0;
  fresh = fresh;
}

-- `InterlockedIncrement` and `InterlockedDecrement` on a `LONG`.
abbrev pub increment : ℕ → ℕ
increment n = (n + 1) % 2 ^ 32

abbrev pub decrement : ℕ → ℕ
decrement n = (n + 2 ^ 32 - 1) % 2 ^ 32

alloc_from : Pool → Option ℕ × Mem → ℕ × Pool
alloc_from p (none, m) = (
  p.fresh,
  record {
    free_list = m;
    alloc_count = increment p.alloc_count;
    use_count = increment p.use_count;
    fresh = suc p.fresh;
  },
)
alloc_from p (some x, m) = (x, record p { free_list = m; use_count = increment p.use_count })

unfoldable pub alloc : Pool → ℕ × Pool
unfolding alloc_from pop
alloc p = alloc_from p (pop p.free_list)

unfoldable pub free : Pool → ℕ → Pool
free p x = record p { use_count = decrement p.use_count; free_list = push p.free_list x }

pub get_alloc_count : Pool → ℕ
get_alloc_count p = p.alloc_count

pub get_use_count : Pool → ℕ
get_use_count p = p.use_count
