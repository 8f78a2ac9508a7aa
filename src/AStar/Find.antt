-- ===== src/AStar/Find.antt =====
-- A* ends, and a path that it finds is one.
use cpp_lockfree_core.Base.{
  ℕ, suc, ◌+◌, ◌*◌, ◌≡◌, ◌≤◌, inl, inr, refl, sym, subst, true, not, ◌||◌, List, [], ◌∷◌, some,
  arith, Bool-cases,
}
use cpp_lockfree_core.Grid.{Grid, is_walkable}
use cpp_lockfree_core.Grid.Cells.{IsValid}
use cpp_lockfree_core.AStar.{
  Point, PathResult, Cost, point_of, directions, search, find_path, reversed_points, restore_path,
  expand, visit_all,
}
use cpp_lockfree_core.AStar.Route.{Route, begin, onward}
use cpp_lockfree_core.AStar.Trail.{Back, retrace-Back}
use cpp_lockfree_core.AStar.Visit.{Neighbour, visit_all-Visited}
use cpp_lockfree_core.AStar.Loop.{Sound, Expands, Restores, not_found-Ends, begin_search-Ends}

Back-Route :
    {g : Grid} {start : Point} (c : ℕ) (l : List ℕ)
    → is_walkable g start.x start.y ≡ true
    → Back g start (Neighbour g) c l
    → Route g start (point_of g c) (reversed_points g (c ∷ l))
unfolding reversed_points
Back-Route {g} {start} c [] free at = subst (λ x. Route g start x (x ∷ [])) (sym at) (begin free)
Back-Route {g} c (p ∷ l) free (m, way) = onward (point_of g c) _ (Back-Route p l free way) m refl

module _ {F : Type 0} (cost : Cost F) {g : Grid} (start goal : Point) where
  A_star-Restores :
      is_walkable g start.x start.y ≡ true
      → Restores g start (Neighbour g) (restore_path cost g start goal)
  unfolding restore_path
  A_star-Restores free current s ds good here =
      let (l, r, way) =
        retrace-Back g start (Neighbour g) s.came_from ds current (suc s.nodes_expanded) good.trail
          here (omega (arith, good.counted)) in
      rw r (reversed_points g (current ∷ l), refl, Back-Route current l free way)

  A_star-Expands : IsValid g → Expands g start (Neighbour g) (expand cost g start goal)
  A_star-Expands valid current s ds good small here = (
    visit_all cost g start goal current s directions,
    refl,
    visit_all-Visited cost valid start goal current ds directions s good here (λ d o. o),
  )

  -- On a valid board `AStar::findPath` ends: with fuel for nine rounds for each cell and two more it
  -- gives a result. Either it says that it has found no path, and gives none, or the path leads from the
  -- start to the goal in moves to one of the eight neighbours, each to a free cell, and in a diagonal
  -- past at least one free cell. It has expanded no more cells than the board has. The arithmetic and
  -- the order of the costs play no part in this.
  pub find_path-Ends :
      (fuel : ℕ)
      → IsValid g
      → 9 * (g.width * g.height) + 2 ≤ fuel
      → (r : PathResult) × (find_path cost g start goal fuel ≡ some r) × Sound g start goal r
  unfolding find_path search
  find_path-Ends fuel valid enough =
      elim (Bool-cases (not (is_walkable g start.x start.y) || not (is_walkable g goal.x goal.y))) [
        | inl e ↦ rw e (not_found-Ends 0 (omega arith))
        | inr e ↦
            let free : is_walkable g start.x start.y ≡ true = ground (arith, e) in
            rw e (
              begin_search-Ends cost valid start goal (Neighbour g) (expand cost g start goal)
                (restore_path cost g start goal) (A_star-Expands valid) (A_star-Restores free) free
                fuel enough)
      ]
