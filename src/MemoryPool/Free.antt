-- ===== src/MemoryPool/Free.antt =====
-- A block that goes back to the free list.
use cpp_lockfree_core.Base.{
  ℕ, ◌+◌, ◌<◌, ◌^◌, ◌≡◌, inl, inr, sym, ap, ◌∙◌, subst, List, ◌∷◌, arith, length,
}
use cpp_lockfree_core.LockFreeStack.Chain.{In}
use cpp_lockfree_core.LockFreeStack.Sequential.{push-MemInv}
use cpp_lockfree_core.MemoryPool.{Pool, free, decrement}
use cpp_lockfree_core.MemoryPool.Counts.{PoolInv}
use cpp_lockfree_core.MemoryPool.Remove.{remove, length-remove, In-remove, remove-Distinct}

decrement_lem : (n : ℕ) → n + 1 < 2 ^ 32 → decrement (n + 1) ≡ n
decrement_lem n h = omega arith

-- In a pool that keeps its invariant, with fewer than 2^32 blocks in use and after fewer than 2^64 - 1
-- pushes and pops of its free list, `free` of a block in use puts it on the front of the free list, so
-- that the next `alloc` takes it first, and the counters go on telling the blocks made and in use.
pub free-PoolInv :
    {k : ℕ} {p : Pool} {live xs : List ℕ} (x : ℕ)
    → PoolInv k p live xs
    → k + 1 < 2 ^ 64
    → length live < 2 ^ 32
    → In x live
    → PoolInv (k + 1) (free p x) (remove x live) (x ∷ xs)
unfolding free
free-PoolInv {k} {p} {live} {xs} x inv few small here =
    let less : length (remove x live) + 1 ≡ length live = length-remove x live here in
    let r = remove-Distinct x live inv.distinct in
    record {
      memory = push-MemInv inv.memory few x (λ l. inv.apart x here ((inv.memory.inside x).0 l));
      allocated = omega (arith, inv.allocated);
      in_use =
          ap decrement (inv.in_use ∙ sym less)
          ∙ decrement_lem (length (remove x live)) (omega arith);
      distinct = r.0;
      apart = λ y q s. elim s [
        | inl e ↦ r.1 (subst (λ z. In z (remove x live)) e q)
        | inr t ↦ inv.apart y (In-remove x y live q) t
      ];
      live_old = λ y q. inv.live_old y (In-remove x y live q);
      free_old = λ y q. elim q [
        | inl e ↦ subst (λ z. z < p.fresh) (sym e) (inv.live_old x here)
        | inr t ↦ inv.free_old y t
      ];
    }
