-- ===== src/Jps/Find.antt =====
-- The jump point search ends, and a path that it finds is one.
use cpp_lockfree_core.Base.{
  ℕ, zero, suc, ◌+◌, ◌*◌, ◌/◌, ◌%◌, ◌≡◌, ◌≤◌, ◌<◌, inl, inr, refl, sym, subst, true, not, ◌||◌,
  List, some, arith, Bool-cases,
}
use native.Mathlib.Nat.{mod-lt, div-lt_iff_lt-mul}
use cpp_lockfree_core.LockFreeStack.Chain.{In}
use cpp_lockfree_core.Grid.{ℤ, Grid, is_walkable, index_of}
use cpp_lockfree_core.Grid.Cells.{IsValid}
use cpp_lockfree_core.AStar.{Point, PathResult, Cost, Search, point_of, octile_distance}
use cpp_lockfree_core.AStar.Route.{index_of-point_of}
use cpp_lockfree_core.AStar.Trail.{retrace-Back}
use cpp_lockfree_core.AStar.Good.{Good, Visited, unvisited, Visited-then, Visited-more, relaxed}
use cpp_lockfree_core.AStar.Loop.{Sound, Expands, Restores, not_found-Ends, begin_search-Ends}
use cpp_lockfree_core.Jps.{relax, visit_jumps, expand_jumps, restore_jumps, jump_search, parent_of}
use cpp_lockfree_core.Jps.Directions.{
  IsUnit, still, up, down, Directions, nothing, one_more, pruned_directions-Directions,
}
use cpp_lockfree_core.Jps.Run.{Leads}
use cpp_lockfree_core.Jps.Jump.{Jumped-cases, jump-Jumped, ahead}
use cpp_lockfree_core.Jps.Fill.{fill_path-Route, Run-free}

wide : (c w h : ℕ) → c < w * h → 0 < w
wide c zero h l = absurd (omega arith)
wide c (suc w) h l = omega arith

-- One cell is a straight run away from another.
abbrev Ahead : Grid → ℕ → ℕ → Type 0
Ahead g p c = Leads g (point_of g p) (point_of g c)

ahead_short : {d : ℤ} (w i : ℕ) → IsUnit d → i < w → ahead w d i ≤ w
ahead_short w i still h = omega arith
ahead_short w i up h = omega arith
ahead_short w i down h = omega arith

module _ {F : Type 0} (cost : Cost F) {g : Grid} (valid : IsValid g) (start goal : Point)
    (reach : ℕ) where
  relax-Visited :
      (current : ℕ) (s : Search F) (ds : List ℕ) (p : Point)
      → Good g start (Ahead g) s ds
      → In current ds
      → is_walkable g p.x p.y ≡ true
      → Leads g (point_of g current) p
      → Visited g start (Ahead g) s (relax cost g start goal reach current s p) ds 1
  unfolding relax
  relax-Visited current s ds p good here free leads =
      let n = index_of g p.x p.y in
      let (small, at) = index_of-point_of valid p.x p.y free in
      let better =
        cost.less (cost.plus (s.g_score current) (octile_distance cost (point_of g current) p))
          (s.g_score n) in
      let still_good = unvisited (Ahead g) s ds 1 good in
      elim (Bool-cases (s.closed n)) [
        | inl e ↦ rw e still_good
        | inr unseen ↦ elim (Bool-cases better) [
          | inr e ↦ rw (unseen, e) still_good
          | inl e ↦
              rw (unseen, e)
                (relaxed (Ahead g) s ds current n _ _ good here small
                  (subst (Leads g (point_of g current)) (sym at) leads) unseen)
        ]
      ]

  visit_jumps-Visited :
      (current : ℕ) (ds : List ℕ)
      → current < g.width * g.height
      → g.width + g.height < reach
      → In current ds
      → (k : ℕ) (moves : List (ℤ × ℤ)) (s : Search F) → Good g start (Ahead g) s ds
      → Directions k moves
      → (next : Search F) × (visit_jumps cost g start goal reach current s moves ≡ some next)
        × Visited g start (Ahead g) s next ds k
  unfolding visit_jumps
  visit_jumps-Visited current ds small enough here _ _ s good (nothing k) =
      (s, refl, unvisited (Ahead g) s ds k good)
  visit_jumps-Visited current ds small enough here _ _ s good
        (one_more {k} {d} {ds = moves} is more) =
      let c = point_of g current in
      let width : current % g.width < g.width =
        mod-lt current (wide current g.width g.height small) in
      let height : current / g.width < g.height =
        (div-lt_iff_lt-mul (wide current g.width g.height small)).1 (omega (arith, small)) in
      let short_x = ahead_short g.width (current % g.width) is.unit_x width in
      let short_y = ahead_short g.height (current / g.width) is.unit_y height in
      let jumped =
        jump-Jumped g goal reach c.x c.y d.0 d.1 (current % g.width) (current / g.width) refl refl
          is (omega (arith, enough, short_x, short_y)) in
      elim (Jumped-cases g jumped) [
        | inl e ↦
            let (next, r, v) =
              visit_jumps-Visited current ds small enough here k moves s good more in
            (next, rw (visit_jumps, e) r, Visited-more (Ahead g) s next ds k v)
        | inr (p, e, n, (b, m, by, rest)) ↦
            let free = Run-free g d n b p m.free rest in
            let v =
              relax-Visited current s ds p good here free
                (record { direction = d; is_direction = is; count = n; run = (b, m, by, rest) }) in
            let (next, r, w) =
              visit_jumps-Visited current ds small enough here k moves _ v.good more in
            (next, rw (visit_jumps, e) r, Visited-then (Ahead g) s _ next ds k v w)
      ]

  expand_jumps-Expands :
      g.width + g.height < reach → Expands g start (Ahead g) (expand_jumps cost g start goal reach)
  unfolding expand_jumps
  expand_jumps-Expands enough current s ds good small here =
      visit_jumps-Visited current ds small enough here 8 _ s good (
        pruned_directions-Directions g (point_of g current).x (point_of g current).y
          (parent_of cost g start goal reach (s.came_from current)))

  restore_jumps-Restores :
      g.width + g.height < reach
      → is_walkable g start.x start.y ≡ true
      → Restores g start (Ahead g) (restore_jumps cost g start goal reach)
  unfolding restore_jumps
  restore_jumps-Restores enough free current s ds good here =
      let (l, r, way) =
        retrace-Back g start (Ahead g) s.came_from ds current (suc s.nodes_expanded) good.trail here
          (omega (arith, good.counted)) in
      rw r (fill_path-Route g start reach (omega (arith, enough)) current l free way)

-- On a valid board `JPS::findPath` ends: with fuel for nine rounds for each cell and two more, and
-- more fuel than the board's sides together for each jump and each run of cells between way points, it
-- gives a result. Either it says that it has found no path, and gives none, or the path with the cells
-- between its jump points leads from the start to the goal in moves to one of the eight neighbours,
-- each to a free cell, and in a diagonal past at least one free cell. It has expanded no more cells
-- than the board has. The arithmetic and the order of the costs play no part in this.
pub jump_search-Ends :
    {F : Type 0} (cost : Cost F) {g : Grid} (start goal : Point) (reach fuel : ℕ)
    → IsValid g
    → g.width + g.height < reach
    → 9 * (g.width * g.height) + 2 ≤ fuel
    → (r : PathResult) × (jump_search cost g start goal reach fuel ≡ some r) × Sound g start goal r
unfolding jump_search
jump_search-Ends cost {g} start goal reach fuel valid far enough =
    elim (Bool-cases (not (is_walkable g start.x start.y) || not (is_walkable g goal.x goal.y))) [
      | inl e ↦ rw e (not_found-Ends 0 (omega arith))
      | inr e ↦
          let free : is_walkable g start.x start.y ≡ true = ground (arith, e) in
          rw e (
            begin_search-Ends cost valid start goal (Ahead g) _ _
              (expand_jumps-Expands cost valid start goal reach far)
              (restore_jumps-Restores cost valid start goal reach far free) free fuel enough)
    ]
