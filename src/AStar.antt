-- ===== src/AStar.antt =====
-- The A* search of CppLockFreeCore.Pathfinding/AStar.cpp, and the results of PathTypes.h.
pub mod Route
pub mod Trail
pub mod Heap
pub mod Good
pub mod Visit
pub mod Loop
pub mod Find
use cpp_lockfree_core.Base.{
  ℕ, zero, suc, ◌+◌, ◌-◌, ◌*◌, ◌/◌, ◌%◌, min, Bool, true, false, not, ◌&&◌, ◌||◌, List, [], ◌∷◌,
  ◌++◌, map, Option, none, some, ltb, ◌==◌, if◌then◌else◌,
}
use cpp_lockfree_core.Family.{update}
use cpp_lockfree_core.Grid.{ℤ, pos, negsuc, Grid, is_walkable, index_of}

pub record Point : Type 0 where
  pub x : ℤ
  pub y : ℤ

pub record PathResult : Type 0 where
  pub found : Bool
  pub path : List Point
  pub nodes_expanded : ℕ

-- What the search asks of `float`. Nothing is assumed of its arithmetic or its order.
pub record Cost (F : Type 0) : Type 0 where
  pub of_nat : ℕ → F
  pub plus : F → F → F
  pub times : F → F → F
  pub less : F → F → Bool
  pub root_two : F
  pub infinity : F

infix 60 ◌+ℤ◌
unfoldable pub ◌+ℤ◌ : ℤ → ℤ → ℤ
pos a +ℤ pos b = pos (a + b)
pos a +ℤ negsuc b = if ltb b a then pos (a - b - 1) else negsuc (b - a)
negsuc a +ℤ pos b = if ltb a b then pos (b - a - 1) else negsuc (a - b)
negsuc a +ℤ negsuc b = negsuc (a + b + 1)

-- `std::abs(a - b)`
unfoldable pub distance : ℤ → ℤ → ℕ
distance (pos a) (pos b) = (a - b) + (b - a)
distance (pos a) (negsuc b) = a + b + 1
distance (negsuc a) (pos b) = a + b + 1
distance (negsuc a) (negsuc b) = (a - b) + (b - a)

abbrev pub nonzero : ℤ → Bool
nonzero (pos a) = not (a == 0)
nonzero (negsuc a) = true

-- `DX` and `DY`
abbrev pub directions : List (ℤ × ℤ)
directions =
    (pos 1, pos 0)
    ∷ (negsuc 0, pos 0)
    ∷ (pos 0, pos 1)
    ∷ (pos 0, negsuc 0)
    ∷ (pos 1, pos 1)
    ∷ (pos 1, negsuc 0)
    ∷ (negsuc 0, pos 1)
    ∷ (negsuc 0, negsuc 0)
    ∷ []

unfoldable pub can_move_diagonally : Grid → ℤ → ℤ → ℤ → ℤ → Bool
can_move_diagonally g x y dx dy = is_walkable g (x +ℤ dx) y || is_walkable g x (y +ℤ dy)

-- The point of an index.
abbrev pub point_of : Grid → ℕ → Point
point_of g i = record { x = pos (i % g.width); y = pos (i / g.width) }

pub record Search (F : Type 0) : Type 0 where
  pub g_score : ℕ → F
  pub came_from : ℕ → Option ℕ
  pub closed : ℕ → Bool
  pub open_list : List (F × ℕ)
  pub nodes_expanded : ℕ

module _ {F : Type 0} (cost : Cost F) where
  unfoldable pub octile_distance : Point → Point → F
  octile_distance a b =
      let dx = distance a.x b.x in
      let dy = distance a.y b.y in
      let min_d = min dx dy in
      let max_d = (if ltb dx dy then dy else dx) in
      cost.plus (cost.of_nat (max_d - min_d)) (cost.times cost.root_two (cost.of_nat min_d))

  -- The order of `std::greater` on pairs, and the entry that `top` gives, with the rest of the heap.
  unfoldable pub before : F × ℕ → F × ℕ → Bool
  before (f, i) (h, j) = cost.less f h || (not (cost.less h f) && ltb i j)

  unfoldable pub take_least : F × ℕ → List (F × ℕ) → (F × ℕ) × List (F × ℕ)
  take_least e [] = (e, [])
  take_least e (x ∷ xs) =
      let low = take_least x xs in
      let keep = take_least e xs in if before x e then (low.0, e ∷ low.1) else (keep.0, x ∷ keep.1)

  module _ (g : Grid) (start goal : Point) where
    -- The body of the loop over the eight directions.
    unfoldable pub visit : ℕ → Search F → ℤ × ℤ → Search F
    visit current s (dx, dy) =
        let c = point_of g current in
        let nx = c.x +ℤ dx in
        let ny = c.y +ℤ dy in
        let n = index_of g nx ny in
        let diagonal = nonzero dx && nonzero dy in
        let tentative =
          cost.plus (s.g_score current) (if diagonal then cost.root_two else cost.of_nat 1) in
        if not (is_walkable g nx ny)
        then s
        else if diagonal && not (can_move_diagonally g c.x c.y dx dy)
        then s
        else if s.closed n
        then s
        else if cost.less tentative (s.g_score n)
        then record s {
          g_score = update s.g_score n tentative;
          came_from = update s.came_from n (some current);
          open_list =
              (cost.plus tentative (octile_distance (record { x = nx; y = ny }) goal), n)
              ∷ s.open_list;
        }
        else s

    unfoldable pub visit_all : ℕ → Search F → List (ℤ × ℤ) → Search F
    visit_all current s [] = s
    visit_all current s (d ∷ ds) = visit_all current (visit current s d) ds

-- The path back from an index over `cameFrom`, goal first; on fuel, of which `none` is the end.
unfoldable pub retrace : ℕ → (ℕ → Option ℕ) → Option ℕ → Option (List ℕ)
retrace fuel came none = some []
retrace zero came (some i) = none
retrace (suc fuel) came (some i) = elim (retrace fuel came (came i)) [
  | none ↦ none
  | some l ↦ some (i ∷ l)
]

unfoldable pub reversed_points : Grid → List ℕ → List Point
reversed_points g [] = []
reversed_points g (i ∷ l) = reversed_points g l ++ (point_of g i ∷ [])

abbrev pub points_back : Grid → Option (List ℕ) → Option (List Point)
points_back g none = none
points_back g (some l) = some (reversed_points g l)

abbrev pub same_cell : ℤ → ℤ → Bool
same_cell (pos a) (pos b) = a == b
same_cell (negsuc a) (negsuc b) = a == b
same_cell (pos a) (negsuc b) = false
same_cell (negsuc a) (pos b) = false

abbrev pub not_found : ℕ → PathResult
not_found n = record { found = false; path = []; nodes_expanded = n }

abbrev pub result_of : ℕ → Option (List Point) → Option PathResult
result_of n none = none
result_of n (some l) = some (record { found = true; path = l; nodes_expanded = n })

abbrev pub close : {F : Type 0} → Search F → ℕ → Search F
close s i = record s { closed = update s.closed i true; nodes_expanded = s.nodes_expanded + 1 }

-- The `while` loop, on fuel for its rounds, over what a round does with an open cell and how the path
-- is made at the goal. `none` says that fuel has run out.
module _ {F : Type 0} (cost : Cost F) (g : Grid) (goal : Point)
    (expand : ℕ → Search F → Option (Search F)) (restore : ℕ → Search F → Option (List Point)) where
  unfoldable pub loop : ℕ → Search F → Option PathResult
  loop zero s = none
  loop (suc fuel) s = elim s.open_list [
    | [] ↦ some (not_found s.nodes_expanded)
    | e ∷ es ↦
        let t = take_least cost e es in
        let current = t.0.1 in
        let popped = record s { open_list = t.1 } in
        let now = close popped current in
        let c = point_of g current in
        elim (s.closed current) [
          | true ↦ loop fuel popped
          | false ↦ elim (same_cell c.x goal.x && same_cell c.y goal.y) [
            | true ↦ result_of now.nodes_expanded (restore current now)
            | false ↦ elim (expand current now) [ none ↦ none | some next ↦ loop fuel next ]
          ]
        ]
  ]

module _ {F : Type 0} (cost : Cost F) (g : Grid) (start goal : Point) where
  unfoldable pub begin_search : Search F
  begin_search =
      let i = index_of g start.x start.y in
      record {
        g_score = update (λ _. cost.infinity) i (cost.of_nat 0);
        came_from = λ _. none;
        closed = λ _. false;
        open_list = (octile_distance cost start goal, i) ∷ [];
        nodes_expanded = 0;
      }

  -- The cells that lead to the goal, put in order.
  unfoldable pub restore_path : ℕ → Search F → Option (List Point)
  restore_path current s = points_back g (retrace (suc s.nodes_expanded) s.came_from (some current))

  abbrev pub expand : ℕ → Search F → Option (Search F)
  expand current s = some (visit_all cost g start goal current s directions)

  unfoldable pub search : ℕ → Search F → Option PathResult
  search fuel s = loop cost g goal expand restore_path fuel s

  unfoldable pub find_path : ℕ → Option PathResult
  find_path fuel =
      let go = search fuel begin_search in
      if not (is_walkable g start.x start.y) || not (is_walkable g goal.x goal.y)
      then some (not_found 0)
      else go
