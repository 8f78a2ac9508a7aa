-- ===== src/Tests/Paths.antt =====
-- A* on a board of two by two cells and the jump point search on one of four by three, with costs in
-- hundredths.
use cpp_lockfree_core.Base.{
  ℕ, ◌+◌, ◌*◌, ◌/◌, ◌≡◌, refl, true, arith, ltb, [], ◌∷◌, some, ℕ_discrete,
}
use cpp_lockfree_core.Grid.{pos, Grid, new_grid, set_wall, is_walkable, is_in_bounds, to_index}
use cpp_lockfree_core.Grid.Cells.{IsValid, new_grid-IsValid}
use cpp_lockfree_core.AStar.{
  Point, PathResult, Cost, find_path, search, loop, restore_path, begin_search, visit, visit_all,
  take_least, before, octile_distance, can_move_diagonally, retrace, reversed_points, ◌+ℤ◌,
  distance,
}
use cpp_lockfree_core.AStar.Loop.{Sound}
use cpp_lockfree_core.AStar.Find.{find_path-Ends}
use cpp_lockfree_core.Jps.{
  jump_search, expand_jumps, visit_jumps, relax, restore_jumps, jump, forced, can_step,
  pruned_directions, pushed, fill_path, legs, straight,
}
use cpp_lockfree_core.Jps.Directions.{up}
use cpp_lockfree_core.Jps.Jump.{Jumped, jump-Jumped}
use cpp_lockfree_core.Jps.Find.{jump_search-Ends}

abbrev hundredths : Cost ℕ
hundredths = record {
  of_nat = λ n. 100 * n;
  plus = λ a b. a + b;
  times = λ a b. (a * b) / 100;
  less = ltb;
  root_two = 141;
  infinity = 1000000;
}

abbrev square : Grid
square = new_grid 2 2

abbrev corner : Point
corner = record { x = pos 0; y = pos 0 }

abbrev far_corner : Point
far_corner = record { x = pos 1; y = pos 1 }

diagonal_found :
    find_path hundredths square corner far_corner 38
    ≡ some (record { found = true; path = corner ∷ far_corner ∷ []; nodes_expanded = 2 })
unfolding find_path search loop restore_path begin_search visit visit_all take_least before
    octile_distance can_move_diagonally retrace reversed_points ◌+ℤ◌ distance new_grid is_walkable
    is_in_bounds to_index ℕ_discrete
diagonal_found = refl

find_path-Ends_example :
    (r : PathResult) × (find_path hundredths square corner far_corner 38 ≡ some r)
    × Sound square corner far_corner r
unfolding new_grid
find_path-Ends_example =
    find_path-Ends hundredths corner far_corner 38 (new_grid-IsValid 2 2 (omega arith))
      (omega arith)

-- A wall, past which the jump from the corner stops at a forced neighbour.
abbrev walled : Grid
walled = set_wall (new_grid 4 3) (pos 1) (pos 0)

walled-IsValid : IsValid walled
unfolding new_grid set_wall is_in_bounds to_index ℕ_discrete
walled-IsValid = record { small = omega arith; full = refl }

abbrev beyond : Point
beyond = record { x = pos 3; y = pos 0 }

jumps_found :
    jump_search hundredths walled corner beyond 8 110
    ≡ some (record {
      found = true;
      path = corner ∷ far_corner ∷ record { x = pos 2; y = pos 0 } ∷ beyond ∷ [];
      nodes_expanded = 4;
    })
unfolding jump_search loop begin_search expand_jumps visit_jumps relax restore_jumps jump forced
    can_step pruned_directions pushed fill_path legs straight take_least before octile_distance
    can_move_diagonally retrace reversed_points ◌+ℤ◌ distance new_grid set_wall is_walkable
    is_in_bounds to_index ℕ_discrete
jumps_found = refl

jump_search-Ends_example :
    (r : PathResult) × (jump_search hundredths walled corner beyond 8 110 ≡ some r)
    × Sound walled corner beyond r
unfolding new_grid set_wall is_in_bounds to_index ℕ_discrete
jump_search-Ends_example =
    jump_search-Ends hundredths corner beyond 8 110 walled-IsValid (omega arith) (omega arith)

jump-Jumped_example :
    Jumped walled (pos 1, pos 1) corner (jump walled beyond 8 (pos 0) (pos 0) (pos 1) (pos 1))
unfolding new_grid set_wall is_in_bounds to_index ℕ_discrete
jump-Jumped_example =
    jump-Jumped walled beyond 8 (pos 0) (pos 0) (pos 1) (pos 1) 0 0 refl refl
      (record { unit_x = up; unit_y = up; goes = refl }) (omega arith)
