-- ===== src/Jps.antt =====
-- The jump point search of CppLockFreeCore.Pathfinding/JPS.cpp. The board, the heap and the state of
-- the search are those of A*.
pub mod Directions
pub mod Run
pub mod Jump
pub mod Fill
pub mod Find
use cpp_lockfree_core.Base.{
  ℕ, zero, suc, Bool, true, false, not, ◌&&◌, ◌||◌, List, [], ◌∷◌, ◌++◌, Option, none, some,
  if◌then◌else◌,
}
use cpp_lockfree_core.Family.{update}
use cpp_lockfree_core.Grid.{ℤ, pos, negsuc, Grid, is_walkable, index_of}
use cpp_lockfree_core.AStar.{
  Point, PathResult, Cost, Search, ◌+ℤ◌, nonzero, directions, point_of, octile_distance,
  can_move_diagonally, same_cell, retrace, reversed_points, loop, begin_search, not_found,
}

abbrev pub negate : ℤ → ℤ
negate (pos zero) = pos 0
negate (pos (suc a)) = negsuc a
negate (negsuc a) = pos (suc a)

infix 60 ◌-ℤ◌
abbrev pub ◌-ℤ◌ : ℤ → ℤ → ℤ
a -ℤ b = a +ℤ negate b

abbrev pub sign : ℤ → ℤ
sign (pos zero) = pos 0
sign (pos (suc a)) = pos 1
sign (negsuc a) = negsuc 0

-- What a jump comes to: it has run out of fuel, or found nothing, or found a jump point.
pub data Leap : Type 0 where
  spent blocked : Leap
  lands : Point → Leap

-- `if (test) dirs.push_back({ dx, dy });`, for each test in turn.
unfoldable pub pushed : List (Bool × ℤ × ℤ) → List (ℤ × ℤ)
pushed [] = []
pushed ((true, dx, dy) ∷ more) = (dx, dy) ∷ pushed more
pushed ((false, dx, dy) ∷ more) = pushed more

module _ (g : Grid) where
  abbrev pub wall : ℤ → ℤ → Bool
  wall x y = not (is_walkable g x y)

  -- The tests for a forced neighbour at `x` and `y`, in each of the three cases of `jump`.
  unfoldable pub forced : ℤ → ℤ → ℤ → ℤ → Bool
  forced x y dx dy =
      if nonzero dx && nonzero dy
      then (wall (x -ℤ dx) y && is_walkable g (x -ℤ dx) (y +ℤ dy))
        || (wall x (y -ℤ dy) && is_walkable g (x +ℤ dx) (y -ℤ dy))
      else if nonzero dx
      then (wall x (y +ℤ pos 1) && is_walkable g (x +ℤ dx) (y +ℤ pos 1))
        || (wall x (y -ℤ pos 1) && is_walkable g (x +ℤ dx) (y -ℤ pos 1))
      else (wall (x +ℤ pos 1) y && is_walkable g (x +ℤ pos 1) (y +ℤ dy))
        || (wall (x -ℤ pos 1) y && is_walkable g (x -ℤ pos 1) (y +ℤ dy))

  -- The first two tests of `jump`.
  unfoldable pub can_step : ℤ → ℤ → ℤ → ℤ → Bool
  can_step x y dx dy =
      is_walkable g (x +ℤ dx) (y +ℤ dy)
      && not (nonzero dx && nonzero dy && not (can_move_diagonally g x y dx dy))

  -- The recursion, on fuel for its depth.
  unfoldable pub jump : Point → ℕ → ℤ → ℤ → ℤ → ℤ → Leap
  jump goal zero x y dx dy = spent
  jump goal (suc fuel) x y dx dy =
      let nx = x +ℤ dx in
      let ny = y +ℤ dy in
      let here = lands (record { x = nx; y = ny }) in
      let diagonal = nonzero dx && nonzero dy in
      elim (can_step x y dx dy) [
        | false ↦ blocked
        | true ↦ elim ((same_cell nx goal.x && same_cell ny goal.y) || forced nx ny dx dy) [
          | true ↦ here
          | false ↦ elim diagonal [
            | false ↦ jump goal fuel nx ny dx dy
            | true ↦ elim (jump goal fuel nx ny dx (pos 0)) [
              | spent ↦ spent
              | lands p ↦ here
              | blocked ↦ elim (jump goal fuel nx ny (pos 0) dy) [
                | spent ↦ spent
                | lands p ↦ here
                | blocked ↦ jump goal fuel nx ny dx dy
              ]
            ]
          ]
        ]
      ]

  -- The parent is given by `hasParent`, `px` and `py`.
  unfoldable pub pruned_directions : ℤ → ℤ → Option Point → List (ℤ × ℤ)
  pruned_directions x y none = directions
  pruned_directions x y (some p) =
      let dx = sign (x -ℤ p.x) in
      let dy = sign (y -ℤ p.y) in
      pushed (
        if nonzero dx && nonzero dy
        then (is_walkable g x (y +ℤ dy), pos 0, dy)
          ∷ (is_walkable g (x +ℤ dx) y, dx, pos 0)
          ∷ (can_move_diagonally g x y dx dy, dx, dy)
          ∷ (wall (x -ℤ dx) y && is_walkable g x (y +ℤ dy), negate dx, dy)
          ∷ (wall x (y -ℤ dy) && is_walkable g (x +ℤ dx) y, dx, negate dy)
          ∷ []
        else if nonzero dx
        then (is_walkable g (x +ℤ dx) y, dx, pos 0)
          ∷ (wall x (y +ℤ pos 1) && is_walkable g (x +ℤ dx) (y +ℤ pos 1), dx, pos 1)
          ∷ (wall x (y -ℤ pos 1) && is_walkable g (x +ℤ dx) (y -ℤ pos 1), dx, negsuc 0)
          ∷ []
        else if nonzero dy
        then (is_walkable g x (y +ℤ dy), pos 0, dy)
          ∷ (wall (x +ℤ pos 1) y && is_walkable g (x +ℤ pos 1) (y +ℤ dy), pos 1, dy)
          ∷ (wall (x -ℤ pos 1) y && is_walkable g (x -ℤ pos 1) (y +ℤ dy), negsuc 0, dy)
          ∷ []
        else [])

-- The loop that fills in the cells up to the next way point, on fuel.
unfoldable pub straight : ℕ → ℤ → ℤ → Point → Point → Option (List Point)
straight zero step_x step_y cur to = none
straight (suc fuel) step_x step_y cur to =
    let next : Point = record { x = cur.x +ℤ step_x; y = cur.y +ℤ step_y } in
    elim (same_cell cur.x to.x && same_cell cur.y to.y) [
      | true ↦ some []
      | false ↦ elim (straight fuel step_x step_y next to) [
        | none ↦ none
        | some l ↦ some (next ∷ l)
      ]
    ]

abbrev pub leg : ℕ → Point → Point → Option (List Point)
leg fuel from to = straight fuel (sign (to.x -ℤ from.x)) (sign (to.y -ℤ from.y)) from to

-- The loop over the way points.
unfoldable pub legs : ℕ → Point → List Point → Option (List Point)
legs fuel from [] = some []
legs fuel from (to ∷ more) = elim (leg fuel from to) [
  | none ↦ none
  | some l ↦ elim (legs fuel to more) [ none ↦ none | some m ↦ some (l ++ m) ]
]

-- The path through way points, of which there is at least one.
unfoldable pub fill_path : ℕ → List Point → Option (List Point)
fill_path fuel [] = none
fill_path fuel (p ∷ more) = elim (legs fuel p more) [ none ↦ none | some l ↦ some (p ∷ l) ]

module _ {F : Type 0} (cost : Cost F) (g : Grid) (start goal : Point) (reach : ℕ) where
  -- What the body of the loop over the directions does with a jump point.
  unfoldable pub relax : ℕ → Search F → Point → Search F
  relax current s p =
      let n = index_of g p.x p.y in
      let tentative = cost.plus (s.g_score current) (octile_distance cost (point_of g current) p) in
      if s.closed n
      then s
      else if cost.less tentative (s.g_score n)
      then record s {
        g_score = update s.g_score n tentative;
        came_from = update s.came_from n (some current);
        open_list = (cost.plus tentative (octile_distance cost p goal), n) ∷ s.open_list;
      }
      else s

  unfoldable pub visit_jumps : ℕ → Search F → List (ℤ × ℤ) → Option (Search F)
  visit_jumps current s [] = some s
  visit_jumps current s ((dx, dy) ∷ ds) =
      let c = point_of g current in
      elim (jump g goal reach c.x c.y dx dy) [
        | spent ↦ none
        | blocked ↦ visit_jumps current s ds
        | lands p ↦ visit_jumps current (relax current s p) ds
      ]

  abbrev pub parent_of : Option ℕ → Option Point
  parent_of none = none
  parent_of (some p) = some (point_of g p)

  unfoldable pub expand_jumps : ℕ → Search F → Option (Search F)
  expand_jumps current s =
      let c = point_of g current in
      visit_jumps current s (pruned_directions g c.x c.y (parent_of (s.came_from current)))

  abbrev pub filled : Option (List ℕ) → Option (List Point)
  filled none = none
  filled (some l) = fill_path reach (reversed_points g l)

  unfoldable pub restore_jumps : ℕ → Search F → Option (List Point)
  restore_jumps current s = filled (retrace (suc s.nodes_expanded) s.came_from (some current))

  unfoldable pub jump_search : ℕ → Option PathResult
  jump_search fuel =
      let go = loop cost g goal expand_jumps restore_jumps fuel (begin_search cost g start goal) in
      if not (is_walkable g start.x start.y) || not (is_walkable g goal.x goal.y)
      then some (not_found 0)
      else go
