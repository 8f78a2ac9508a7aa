-- ===== src/LockFreeStack/Progress.antt =====
-- How long threads can go on over one stack without any of them finishing.
use cpp_lockfree_core.Base.{
  ℕ, ◌+◌, ◌*◌, ◌<◌, ◌^◌, ◌≤◌, ◌≡◌, sym, subst, ◌∙◌, List, Option, arith, ℕ_discrete, ltb,
  if◌then◌else◌,
}
use cpp_lockfree_core.Family.{update}
use cpp_lockfree_core.Family.Sums.{sum_over, sum_over-update, sum_over-bound}
use cpp_lockfree_core.LockFreeStack.{
  Mem, Pc, idle, push_start, push_ptr, push_snap, push_linked, pop_start, pop_ptr, pop_snap,
  pop_next, silent, uses, Move, begin_push, push_load_ptr, push_load_tag, push_link, push_retry,
  begin_pop, pop_load_ptr, pop_load_tag, pop_load_next, pop_retry, System, step,
}
use cpp_lockfree_core.LockFreeStack.Invariant.{Holds, Inv, Fresh}
use cpp_lockfree_core.LockFreeStack.Runs.{Step-Inv}

-- A `cas` that fails has been overtaken: the tag has moved on since the attempt began.
Fresh-fails :
    {k : ℕ} {m : Mem} {p : Option ℕ} {t a : ℕ}
    → Fresh k m p t a
    → m.head_tag ≡ k
    → ¬ ((m.head_ptr ≡ p) × (m.head_tag ≡ t))
    → a < k
Fresh-fails {k} {m} {p} {t} {a} f tag fails = elim (ℕ_discrete k a) [
  | yes e ↦ absurd (fails ((f.current e).0, tag ∙ sym (f.current e).1))
  | no ne ↦ omega (arith, f.begun)
]

-- The steps that a thread can take until it finishes while no other does, the tag being `k`: an
-- attempt that began at an earlier tag may have to be made again, and only once.
rank : ℕ → Pc → ℕ
rank k idle = 4
rank k (push_start n) = 3
rank k (push_ptr n p a) = if ltb a k then 6 else 2
rank k (push_snap n p t a) = if ltb a k then 5 else 1
rank k (push_linked n p t a) = if ltb a k then 4 else 0
rank k pop_start = 3
rank k (pop_ptr x a) = if ltb a k then 6 else 2
rank k (pop_snap x t a) = if ltb a k then 5 else 1
rank k (pop_next x t nx a) = if ltb a k then 4 else 0

rank-bound : (k : ℕ) (p : Pc) → rank k p ≤ 6
unfolding rank
rank-bound k p = ground arith

rank-Move :
    {i k : ℕ} {m m' : Mem} {p p' : Pc}
    → Move i m p silent m' p'
    → m.head_tag ≡ k
    → Holds k m i p
    → rank k p' + 1 ≤ rank k p
unfolding rank
rank-Move (begin_push o) tag h = omega arith
rank-Move push_load_ptr tag h = ground arith
rank-Move push_load_tag tag h = ground arith
rank-Move push_link tag h = ground arith
rank-Move (push_retry f) tag h = let l = Fresh-fails h.1 tag f in ground arith
rank-Move begin_pop tag h = omega arith
rank-Move (pop_load_ptr e) tag h = ground arith
rank-Move pop_load_tag tag h = ground arith
rank-Move pop_load_next tag h = ground arith
rank-Move (pop_retry f) tag h = let l = Fresh-fails h.0 tag f in ground arith

-- So many steps of the threads below `n`, by which no operation ends.
pub data Unfinished (n : ℕ) (s : System) : ℕ → System → Type 0 where
  here : Unfinished n s 0 s
  moves :
      {steps : ℕ} {t : System} (i : ℕ) {m : Mem} {p : Pc}
      → Unfinished n s steps t
      → i < n
      → Move i t.mem (t.pc i) silent m p
      → Unfinished n s (steps + 1) (record { mem = m; pc = update t.pc i p })

silent-uses : (k : ℕ) → k + uses silent ≡ k
silent-uses k = omega arith

module _ {k n : ℕ} {s : System} {xs : List ℕ} (inv : Inv k s xs) (few : k < 2 ^ 64) where
  spent :
      {steps : ℕ} {t : System}
      → Unfinished n s steps t
      → (ys : List ℕ) × Inv k t ys × (steps + sum_over (rank k) t.pc n ≤ sum_over (rank k) s.pc n)
  spent here = (xs, inv, omega arith)
  spent (moves {steps} {t} i {m} {p} run l mv) =
      let (ys, inv', le) = spent run in
      let (zs, _, inv'') = Step-Inv inv' (step i mv) (omega arith) in
      (
        zs,
        subst (λ q. Inv q (record { mem = m; pc = update t.pc i p }) zs) (silent-uses k) inv'',
        omega (
          arith,
          le,
          rank-Move mv inv'.memory.tag (inv'.threads i),
          sum_over-update (rank k) t.pc i p n l,
        ),
      )

  -- The stack is lock-free: from a state that keeps the invariant, with fewer than 2^64 successful
  -- `cas` so far, `n` threads take at most six steps each, all together, before one of them finishes
  -- a push or a pop.
  pub lock_free : {steps : ℕ} {t : System} → Unfinished n s steps t → steps ≤ 6 * n
  lock_free run = omega (arith, (spent run).2, sum_over-bound (rank k) 6 (rank-bound k) s.pc n)
