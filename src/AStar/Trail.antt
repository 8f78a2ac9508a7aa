-- ===== src/AStar/Trail.antt =====
-- The closed cells, and the way back from each, over any relation of a cell with one before it.
use cpp_lockfree_core.Base.{
  ℕ, zero, suc, ◌≡◌, ◌≤◌, ◌⊎◌, inl, inr, refl, sym, subst, List, [], ◌∷◌, Option, none, some, arith,
  length,
}
use cpp_lockfree_core.LockFreeStack.Chain.{In}
use cpp_lockfree_core.Grid.{Grid}
use cpp_lockfree_core.AStar.{Point, point_of, retrace}

module _ (g : Grid) (start : Point) (R : ℕ → ℕ → Type 0) where
  -- A cell that is the start, or was reached from a cell of `ds`.
  abbrev pub Known : (ℕ → Option ℕ) → List ℕ → ℕ → Type 0
  Known came ds c =
      ((came c ≡ none) × (point_of g c ≡ start)) ⊎ ((p : ℕ) × (came c ≡ some p) × In p ds × R p c)

  -- Every closed cell was reached from one that was closed before it.
  abbrev pub Trail : (ℕ → Option ℕ) → List ℕ → Type 0
  Trail came [] = Unit {0}
  Trail came (d ∷ ds) = Known came ds d × Trail came ds

  -- The way back from a cell: the cells that follow it lead to the start.
  abbrev pub Back : ℕ → List ℕ → Type 0
  Back c [] = point_of g c ≡ start
  Back c (p ∷ l) = R p c × Back p l

  -- With as much fuel as there are closed cells, each of them has a way back.
  pub retrace-Back :
      (came : ℕ → Option ℕ) (ds : List ℕ) (c fuel : ℕ)
      → Trail came ds
      → In c ds
      → length ds ≤ fuel
      → (l : List ℕ) × (retrace fuel came (some c) ≡ some (c ∷ l)) × Back c l
  unfolding retrace
  retrace-Back came [] c fuel t q le = absurd q
  retrace-Back came (d ∷ ds) c zero t q le = absurd (omega arith)
  retrace-Back came (d ∷ ds) c (suc fuel) (k, t) q le = elim q [
    | inr r ↦ retrace-Back came ds c (suc fuel) t r (omega arith)
    | inl e ↦ elim (subst (Known came ds) (sym e) k) [
      | inl (first, at) ↦ ([], rw first refl, at)
      | inr (p, from, back, m) ↦
          let (l, r, way) = retrace-Back came ds p fuel t back (omega arith) in
          (p ∷ l, rw (from, r) refl, (m, way))
    ]
  ]
