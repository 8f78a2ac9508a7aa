-- ===== src/AStar/Visit.antt =====
-- The loop over the eight neighbours keeps the ways back.
use cpp_lockfree_core.Base.{
  ℕ, ◌≡◌, inl, inr, refl, sym, ap, subst, true, false, not, ◌&&◌, ◌||◌, List, [], ◌∷◌, arith,
  length, Bool-cases, if◌then◌else◌,
}
use cpp_lockfree_core.LockFreeStack.Chain.{In}
use cpp_lockfree_core.Grid.{ℤ, Grid, is_walkable, index_of}
use cpp_lockfree_core.Grid.Cells.{IsValid}
use cpp_lockfree_core.AStar.{
  Point, Cost, Search, ◌+ℤ◌, point_of, visit, visit_all, directions, nonzero, can_move_diagonally,
}
use cpp_lockfree_core.AStar.Route.{OneOf, Moves, index_of-point_of}
use cpp_lockfree_core.AStar.Good.{Good, Visited, unvisited, Visited-then, relaxed}

-- One cell is a move away from another.
abbrev pub Neighbour : Grid → ℕ → ℕ → Type 0
Neighbour g p c = Moves g (point_of g p) (point_of g c)

module _ {F : Type 0} (cost : Cost F) {g : Grid} (valid : IsValid g) (start goal : Point) where
  neighbour :
      (current : ℕ) (dx dy : ℤ)
      → OneOf (dx, dy) directions
      → is_walkable g ((point_of g current).x +ℤ dx) ((point_of g current).y +ℤ dy) ≡ true
      → (nonzero dx && nonzero dy)
          && not (
              is_walkable g ((point_of g current).x +ℤ dx) (point_of g current).y
              || is_walkable g (point_of g current).x ((point_of g current).y +ℤ dy))
        ≡ false
      → Neighbour g current
          (index_of g ((point_of g current).x +ℤ dx) ((point_of g current).y +ℤ dy))
  neighbour current dx dy one free past =
      let at = (index_of-point_of valid _ _ free).1 in
      record {
        by = (dx, dy);
        one_of_eight = one;
        to_x = ap (λ p. p.x) at;
        to_y = ap (λ p. p.y) at;
        free = subst (λ p. is_walkable g p.x p.y ≡ true) (sym at) free;
        past_free = λ diagonal. ground (arith, past);
      }

  visit-Visited :
      (current : ℕ) (s : Search F) (ds : List ℕ) (d : ℤ × ℤ)
      → Good g start (Neighbour g) s ds
      → In current ds
      → OneOf d directions
      → Visited g start (Neighbour g) s (visit cost g start goal current s d) ds 1
  unfolding visit can_move_diagonally
  visit-Visited current s ds (dx, dy) good here one =
      let c = point_of g current in
      let nx = c.x +ℤ dx in
      let ny = c.y +ℤ dy in
      let n = index_of g nx ny in
      let better =
        cost.less
          (cost.plus (s.g_score current)
            (if nonzero dx && nonzero dy then cost.root_two else cost.of_nat 1))
          (s.g_score n) in
      let still = unvisited (Neighbour g) s ds 1 good in
      elim (Bool-cases (is_walkable g nx ny)) [
        | inr e ↦ rw e still
        | inl free ↦
            elim (Bool-cases (
              (nonzero dx && nonzero dy)
              && not (is_walkable g (c.x +ℤ dx) c.y || is_walkable g c.x (c.y +ℤ dy)))) [
                | inl e ↦ rw (free, e) still
                | inr past ↦ elim (Bool-cases (s.closed n)) [
                  | inl e ↦ rw (free, past, e) still
                  | inr unseen ↦ elim (Bool-cases better) [
                    | inr e ↦ rw (free, past, unseen, e) still
                    | inl e ↦
                        rw (free, past, unseen, e)
                          (relaxed (Neighbour g) s ds current n _ _ good here
                            (index_of-point_of valid nx ny free).0
                            (neighbour current dx dy one free past) unseen)
                  ]
                ]
              ]
      ]

  pub visit_all-Visited :
      (current : ℕ) (ds : List ℕ) (moves : List (ℤ × ℤ)) (s : Search F)
      → Good g start (Neighbour g) s ds
      → In current ds
      → ((d : ℤ × ℤ) → OneOf d moves → OneOf d directions)
      → Visited g start
          (Neighbour g)
          s
          (visit_all cost g start goal current s moves)
          ds
          (length moves)
  unfolding visit_all
  visit_all-Visited current ds [] s good here sub = unvisited (Neighbour g) s ds 0 good
  visit_all-Visited current ds (d ∷ moves) s good here sub =
      let v = visit-Visited current s ds d good here (sub d (inl refl)) in
      Visited-then (Neighbour g) s _ _ ds (length moves) v
        (visit_all-Visited current ds moves _ v.good here (λ e q. sub e (inr q)))
