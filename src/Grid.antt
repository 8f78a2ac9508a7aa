-- ===== src/Grid.antt =====
-- The board of CppLockFreeCore.Pathfinding/Grid.h and Grid.cpp.
pub mod Cells
pub mod Fill
use cpp_lockfree_core.Base.{
  ℕ, zero, suc, ◌+◌, ◌*◌, ◌%◌, ◌^◌, Bool, true, false, not, ◌&&◌, List, ltb, if◌then◌else◌,
  replicate, set, get_or,
}

-- The `int` coordinates, which may be negative.
pub data ℤ : Type 0 where
  pos negsuc : ℕ → ℤ

pub record Grid : Type 0 where
  pub width : ℕ
  pub height : ℕ
  pub walls : List Bool

unfoldable pub new_grid : ℕ → ℕ → Grid
new_grid w h = record { width = w; height = h; walls = replicate (w * h) false }

unfoldable pub is_in_bounds : Grid → ℤ → ℤ → Bool
is_in_bounds g (pos x) (pos y) = ltb x g.width && ltb y g.height
is_in_bounds g (pos x) (negsuc y) = false
is_in_bounds g (negsuc x) y = false

-- `y * m_width + x` on `int`.
unfoldable pub to_index : Grid → ℕ → ℕ → ℕ
to_index g x y = (y * g.width + x) % 2 ^ 32

-- The index of coordinates that are in bounds; other coordinates are never looked up.
abbrev pub index_of : Grid → ℤ → ℤ → ℕ
index_of g (pos x) (pos y) = to_index g x y
index_of g (pos x) (negsuc y) = 0
index_of g (negsuc x) y = 0

unfoldable pub is_walkable : Grid → ℤ → ℤ → Bool
is_walkable g x y =
    if not (is_in_bounds g x y) then false else not (get_or g.walls (index_of g x y) false)

unfoldable pub set_wall : Grid → ℤ → ℤ → Grid
set_wall g x y =
    if is_in_bounds g x y then record g { walls = set g.walls (index_of g x y) true } else g

unfoldable pub clear_wall : Grid → ℤ → ℤ → Grid
clear_wall g x y =
    if is_in_bounds g x y then record g { walls = set g.walls (index_of g x y) false } else g

-- The loops of `randomizeWalls`; `rolls k` says whether the `k`-th number drawn is below the ratio.
-- `n` is the number of cells that are left of a row, or of rows.
pub fill_row : Grid → (ℕ → Bool) → (y x n k : ℕ) → Grid
fill_row g rolls y x zero k = g
fill_row g rolls y x (suc n) k =
    fill_row (record g { walls = set g.walls (to_index g x y) (rolls k) }) rolls y (suc x) n (suc k)

pub fill_rows : Grid → (ℕ → Bool) → (y n k : ℕ) → Grid
fill_rows g rolls y zero k = g
fill_rows g rolls y (suc n) k =
    fill_rows (fill_row g rolls y 0 g.width k) rolls (suc y) n (k + g.width)

unfoldable pub randomize_walls : Grid → (ℕ → Bool) → Grid
randomize_walls g rolls = fill_rows g rolls 0 g.height 0
