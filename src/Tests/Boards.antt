-- ===== src/Tests/Boards.antt =====
-- A board of three by two cells.
use cpp_lockfree_core.Base.{ℕ, ◌+◌, ◌*◌, ◌<◌, ◌≡◌, refl, Bool, true, false, not, arith, ◌==◌}
use cpp_lockfree_core.Grid.{
  pos, negsuc, Grid, new_grid, is_walkable, is_in_bounds, set_wall, clear_wall, randomize_walls,
  to_index,
}
use cpp_lockfree_core.Grid.Cells.{
  IsValid, new_grid-IsValid, Wrote, set_wall-Wrote, clear_wall-Wrote,
}
use cpp_lockfree_core.Grid.Fill.{randomize_walls_lem}

abbrev board : Grid
board = new_grid 3 2

board-IsValid : IsValid board
board-IsValid = new_grid-IsValid 3 2 (omega arith)

walled : is_walkable (set_wall board (pos 2) (pos 1)) (pos 2) (pos 1) ≡ false
unfolding new_grid is_walkable is_in_bounds set_wall to_index
walled = refl

outside_is_closed : is_walkable board (negsuc 0) (pos 1) ≡ false
unfolding is_walkable is_in_bounds
outside_is_closed = refl

set_wall-Wrote_example : Wrote board-IsValid (pos 2) (pos 1) false (set_wall board (pos 2) (pos 1))
set_wall-Wrote_example = set_wall-Wrote board-IsValid (pos 2) (pos 1)

clear_wall-Wrote_example :
    Wrote board-IsValid (pos 2) (pos 1) true (clear_wall board (pos 2) (pos 1))
clear_wall-Wrote_example = clear_wall-Wrote board-IsValid (pos 2) (pos 1)

abbrev first_only : ℕ → Bool
first_only k = k == 0

randomize_walls_lem_example :
    IsValid (randomize_walls board first_only)
    × ((randomize_walls board first_only).width ≡ board.width)
    × ((randomize_walls board first_only).height ≡ board.height)
    × ((x y : ℕ)
        → x < board.width
        → y < board.height
        → is_walkable (randomize_walls board first_only) (pos x) (pos y)
          ≡ not (first_only (y * board.width + x)))
randomize_walls_lem_example = randomize_walls_lem first_only board board-IsValid
