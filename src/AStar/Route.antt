-- ===== src/AStar/Route.antt =====
-- What a path on the board is.
use cpp_lockfree_core.Base.{
  ◌*◌, ◌/◌, ◌%◌, ◌≡◌, ◌<◌, ◌⊎◌, sym, ap, ap₂, ◌∙◌, true, ◌&&◌, ◌||◌, List, [], ◌∷◌, ◌++◌, arith,
  ltb→lt,
}
use native.Mathlib.Nat.{mul-add-mod_self_right, mul-add-div_right, mod-eq_of_lt, div-eq_of_lt}
use cpp_lockfree_core.Grid.{ℤ, pos, negsuc, Grid, is_walkable, is_in_bounds, index_of, to_index}
use cpp_lockfree_core.Grid.Cells.{IsValid, cell_bound, to_index_small, true-false}
use cpp_lockfree_core.AStar.{Point, ◌+ℤ◌, directions, nonzero, point_of}

abbrev pub OneOf : ℤ × ℤ → List (ℤ × ℤ) → Type 0
OneOf d [] = ⊥
OneOf d (e ∷ es) = (d ≡ e) ⊎ OneOf d es

-- One move: to one of the eight neighbours, which is free, and in a diagonal past a free cell.
pub record Moves (g : Grid) (a b : Point) : Type 0 where
  pub by : ℤ × ℤ
  pub one_of_eight : OneOf by directions
  pub to_x : b.x ≡ a.x +ℤ by.0
  pub to_y : b.y ≡ a.y +ℤ by.1
  pub free : is_walkable g b.x b.y ≡ true
  pub past_free :
      nonzero by.0 && nonzero by.1 ≡ true
      → is_walkable g (a.x +ℤ by.0) a.y || is_walkable g a.x (a.y +ℤ by.1) ≡ true

-- A path from `start`, with its end.
pub data Route (g : Grid) (start : Point) : Point → List Point → Type 0 where
  begin : is_walkable g start.x start.y ≡ true → Route g start start (start ∷ [])
  onward :
      {a : Point} {l : List Point} (b : Point) (m : List Point)
      → Route g start a l
      → Moves g a b
      → m ≡ l ++ (b ∷ [])
      → Route g start b m

module _ {g : Grid} (valid : IsValid g) where
  -- A free cell's index is on the board, and its point is the cell.
  pub index_of-point_of :
      (x y : ℤ)
      → is_walkable g x y ≡ true
      → (index_of g x y < g.width * g.height)
        × (point_of g (index_of g x y) ≡ record { x = x; y = y })
  unfolding is_walkable is_in_bounds
  index_of-point_of (negsuc x) y h = absurd (true-false (sym h))
  index_of-point_of (pos x) (negsuc y) h = absurd (true-false (sym h))
  index_of-point_of (pos x) (pos y) h =
      let a : x < g.width = ground (arith, ltb→lt x g.width) in
      let b : y < g.height = ground (arith, ltb→lt y g.height) in
      let s = to_index_small valid x y a b in
      let px : to_index g x y % g.width ≡ x =
        ap (λ n. n % g.width) s ∙ mul-add-mod_self_right y g.width x ∙ mod-eq_of_lt a in
      let z = div-eq_of_lt a in
      let py : to_index g x y / g.width ≡ y =
        ap (λ n. n / g.width) s
        ∙ omega (arith, z, mul-add-div_right {m = g.width} (omega arith) y x) in
      (
        omega (arith, s, cell_bound valid x y a b),
        ap₂ (λ u v. record { x = pos u; y = pos v }) px py,
      )
