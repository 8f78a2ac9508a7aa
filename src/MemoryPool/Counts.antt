-- ===== src/MemoryPool/Counts.antt =====
-- Blocks in use and blocks on the free list, and the two counters.
use cpp_lockfree_core.Base.{
  ℕ, ◌+◌, ◌≤◌, ◌<◌, ◌^◌, ◌≡◌, ◌⊎◌, inl, inr, refl, sym, ap, ◌∙◌, subst, List, [], ◌∷◌, Option, none,
  some, arith, length, mod_small,
}
use cpp_lockfree_core.LockFreeStack.{Mem}
use cpp_lockfree_core.LockFreeStack.Chain.{In, Distinct}
use cpp_lockfree_core.LockFreeStack.Invariant.{MemInv}
use cpp_lockfree_core.LockFreeStack.Sequential.{pop, Pops, empty, first, pop-Pops}
use cpp_lockfree_core.MemoryPool.{Pool, alloc, alloc_from}

-- `live` are the blocks in use, `xs` those on the free list, after `k` pushes and pops of it.
pub record PoolInv (k : ℕ) (p : Pool) (live xs : List ℕ) : Type 0 where
  pub memory : MemInv k p.free_list xs
  pub allocated : p.alloc_count ≡ length live + length xs
  pub in_use : p.use_count ≡ length live
  pub distinct : Distinct live
  pub apart : (x : ℕ) → In x live → ¬ In x xs
  pub live_old : (x : ℕ) → In x live → x < p.fresh
  pub free_old : (x : ℕ) → In x xs → x < p.fresh

-- What an `alloc` gives: a block that was not in use, from the free list if that is not empty, and
-- otherwise a new one.
pub record Allocated (k : ℕ) (p : Pool) (live xs : List ℕ) (out : ℕ × Pool) : Type 0 where
  pub left : List ℕ
  pub not_live : ¬ In out.0 live
  pub reused : (xs ≡ out.0 ∷ left) ⊎ ((xs ≡ []) × (out.0 ≡ p.fresh) × (left ≡ []))
  pub ticks : ℕ
  pub few : ticks ≤ k + 1
  pub inv : PoolInv ticks out.1 (out.0 ∷ live) left

module _ {k : ℕ} {p : Pool} {live xs : List ℕ} (inv : PoolInv k p live xs)
    (few : k + 1 < 2 ^ 64) where
  module _ (small : length live + length xs + 1 < 2 ^ 32) where
    from_new : xs ≡ [] → Allocated k p live xs (alloc_from p (none, p.free_list))
    unfolding alloc_from
    from_new e = record {
      left = [];
      not_live = λ q. let l = inv.live_old p.fresh q in absurd (omega arith);
      reused = inr (e, refl, refl);
      ticks = k;
      few = omega arith;
      inv = record {
        memory = subst (MemInv k p.free_list) e inv.memory;
        allocated =
            rw inv.allocated (mod_small (2 ^ 32) _ (omega arith) ∙ omega (arith, ap length e));
        in_use = rw inv.in_use (mod_small (2 ^ 32) _ (omega arith) ∙ omega arith);
        distinct = (λ q. let l = inv.live_old p.fresh q in absurd (omega arith), inv.distinct);
        apart = λ x q r. r;
        live_old =
            λ x q. elim q [ inl h ↦ omega arith | inr h ↦ let l = inv.live_old x h in omega arith ];
        free_old = λ x q. absurd q;
      };
    }

    from_list :
        (x : ℕ) (ys : List ℕ) (m' : Mem)
        → xs ≡ x ∷ ys
        → MemInv (k + 1) m' ys
        → Allocated k p live xs (alloc_from p (some x, m'))
    unfolding alloc_from
    from_list x ys m' e mi =
        let d : Distinct (x ∷ ys) = subst Distinct e inv.memory.distinct in
        let not_here : (y : ℕ) → In y live → ¬ In y (x ∷ ys) =
          λ y q. subst (λ l. ¬ In y l) e (inv.apart y q) in
        let old : (y : ℕ) → In y (x ∷ ys) → y < p.fresh =
          λ y q. inv.free_old y (subst (In y) (sym e) q) in
        record {
          left = ys;
          not_live = λ q. not_here x q (inl refl);
          reused = inl e;
          ticks = k + 1;
          few = omega arith;
          inv = record {
            memory = mi;
            allocated = omega (arith, inv.allocated, ap length e);
            in_use = rw inv.in_use (mod_small (2 ^ 32) _ (omega arith) ∙ omega arith);
            distinct = (λ q. not_here x q (inl refl), inv.distinct);
            apart = λ y q r. elim q [
              | inl h ↦ d.0 (subst (λ t. In t ys) h r)
              | inr h ↦ not_here y h (inr r)
            ];
            live_old = λ y q. elim q [ inl h ↦ old y (inl h) | inr h ↦ inv.live_old y h ];
            free_old = λ y q. old y (inr q);
          };
        }

    -- In a pool that keeps its invariant, of fewer than 2^32 - 1 blocks and after fewer than 2^64 - 1
    -- pushes and pops of its free list, `alloc` hands out a block that nobody uses, takes it from the
    -- free list as long as that has one and makes a new one otherwise, and both counters go on telling
    -- the blocks made so far and the blocks in use.
    pub alloc-Allocated : Allocated k p live xs (alloc p)
    unfolding alloc
    alloc-Allocated = go (pop p.free_list) (pop-Pops inv.memory few)
      where
        go : (o : Option ℕ × Mem) → Pops inv.memory few o → Allocated k p live xs (alloc_from p o)
        go o (empty e) = from_new e
        go o (first x ys m' e mi _) = from_list x ys m' e mi
