-- ===== src/Jps/Jump.antt =====
-- A jump ends, and where it lands is a straight run away.
use cpp_lockfree_core.Base.{
  ℕ, zero, suc, ◌+◌, ◌-◌, ◌≡◌, ◌≤◌, ◌<◌, ◌⊎◌, inl, inr, refl, sym, ap, ◌∙◌, true, ◌&&◌, ◌||◌, arith,
  Bool-cases,
}
use cpp_lockfree_core.Grid.{ℤ, pos, negsuc, Grid}
use cpp_lockfree_core.Grid.Cells.{true-false}
use cpp_lockfree_core.AStar.{Point, ◌+ℤ◌, nonzero, same_cell, can_move_diagonally}
use cpp_lockfree_core.AStar.Route.{Moves}
use cpp_lockfree_core.Jps.{Leap, blocked, lands, jump, forced, can_step}
use cpp_lockfree_core.Jps.Directions.{
  IsUnit, still, up, down, IsDirection, IsDirection-OneOf, direction,
}
use cpp_lockfree_core.Jps.Run.{Run, on_board, Shift, Shift-one}

-- The cells that are left of a row or a column of `w` in a direction, the present one included.
abbrev pub ahead : ℕ → ℤ → ℕ → ℕ
ahead w (pos zero) i = 0
ahead w (pos (suc k)) i = w - i
ahead w (negsuc k) i = i + 1

ahead-less :
    {d : ℤ} (w i u : ℕ)
    → IsUnit d
    → nonzero d ≡ true
    → Shift d 1 i u
    → u < w
    → ahead w d u < ahead w d i
ahead-less w i u still h s l = absurd (true-false (sym h))
ahead-less w i u up h s l = omega arith
ahead-less w i u down h s l = omega arith

ahead-le : {d : ℤ} (w i u : ℕ) → IsUnit d → Shift d 1 i u → u < w → ahead w d u ≤ ahead w d i
ahead-le w i u still s l = omega arith
ahead-le w i u up s l = omega arith
ahead-le w i u down s l = omega arith

-- What a jump from `a` comes to, if it does not run out of fuel.
pub data Jumped (g : Grid) (d : ℤ × ℤ) (a : Point) : Leap → Type 0 where
  stops : Jumped g d a blocked
  gets_to : {p : Point} (n : ℕ) → Run g d (suc n) a p → Jumped g d a (lands p)

module _ (g : Grid) where
  abbrev pub room : ℤ → ℤ → ℕ → ℕ → ℕ
  room dx dy i j = ahead g.width dx i + ahead g.height dy j

  room-less :
      {dx dy : ℤ} (i j u v : ℕ)
      → IsDirection (dx, dy)
      → Shift dx 1 i u
      → Shift dy 1 j v
      → u < g.width
      → v < g.height
      → room dx dy u v < room dx dy i j
  room-less {dx} {dy} i j u v is s t a b =
      let le_x = ahead-le g.width i u is.unit_x s a in
      let le_y = ahead-le g.height j v is.unit_y t b in
      elim (Bool-cases (nonzero dx)) [
        | inl h ↦ omega (arith, ahead-less g.width i u is.unit_x h s a, le_y)
        | inr h ↦
            omega (arith, ahead-less g.height j v is.unit_y (ground (arith, is.goes, h)) t b, le_x)
      ]

  pub Jumped-cases :
      {d : ℤ × ℤ} {a : Point} {l : Leap}
      → Jumped g d a l
      → (l ≡ blocked) ⊎ ((p : Point) × (l ≡ lands p) × (n : ℕ) × Run g d (suc n) a p)
  Jumped-cases stops = inl refl
  Jumped-cases (gets_to {p} n r) = inr (p, refl, n, r)

  one_more_move :
      {d : ℤ × ℤ} {a c : Point} {l : Leap} (m : Moves g a c)
      → m.by ≡ d
      → Jumped g d c l
      → Jumped g d a l
  one_more_move m by stops = stops
  one_more_move {c} m by (gets_to n r) = gets_to (suc n) (c, m, by, r)

  can_step-Moves :
      (x y dx dy : ℤ)
      → IsDirection (dx, dy)
      → can_step g x y dx dy ≡ true
      → (m : Moves g (record { x = x; y = y }) (record { x = x +ℤ dx; y = y +ℤ dy })) × (m.by
          ≡ (dx, dy))
  unfolding can_step can_move_diagonally
  can_step-Moves x y dx dy is e = (
    record {
      by = (dx, dy);
      one_of_eight = IsDirection-OneOf dx dy is;
      to_x = refl;
      to_y = refl;
      free = ground (arith, e);
      past_free = λ h. ground (arith, e, h);
    },
    refl,
  )

  -- A jump from a cell of the board in one of the eight directions ends, with more fuel than the cells
  -- that are left in that direction. If it finds a jump point, that is one move away or more, by legal
  -- moves all in that direction.
  pub jump-Jumped :
      (goal : Point) (fuel : ℕ) (x y dx dy : ℤ) (i j : ℕ)
      → x ≡ pos i
      → y ≡ pos j
      → IsDirection (dx, dy)
      → room dx dy i j < fuel
      → Jumped g (dx, dy) (record { x = x; y = y }) (jump g goal fuel x y dx dy)
  unfolding jump
  jump-Jumped goal zero x y dx dy i j ex ey is few = absurd (omega arith)
  jump-Jumped goal (suc fuel) x y dx dy i j ex ey is few =
      let nx = x +ℤ dx in
      let ny = y +ℤ dy in
      let a : Point = record { x = x; y = y } in
      let c : Point = record { x = nx; y = ny } in
      let diagonal = nonzero dx && nonzero dy in
      elim (Bool-cases (can_step g x y dx dy)) [
        | inr e ↦ rw (jump, e) stops
        | inl step ↦
            let m = can_step-Moves x y dx dy is step in
            let (u, v, cu, cv, small, low) = on_board g nx ny m.0.free in
            let step_x = Shift-one i u is.unit_x (sym cu ∙ ap (λ p. p +ℤ dx) ex) in
            let step_y = Shift-one j v is.unit_y (sym cv ∙ ap (λ p. p +ℤ dy) ey) in
            let less = room-less i j u v is step_x step_y small low in
            let here : Jumped g (dx, dy) a (lands c) = gets_to 0 (c, m.0, m.1, refl) in
            let further =
              one_more_move m.0 m.1
                (jump-Jumped goal fuel nx ny dx dy u v cu cv is (omega (arith, less, few))) in
            elim (Bool-cases
              ((same_cell nx goal.x && same_cell ny goal.y) || forced g nx ny dx dy)) [
                | inl e ↦ rw (jump, step, e) here
                | inr e ↦ elim (Bool-cases diagonal) [
                  | inr f ↦ rw (jump, step, e, f) further
                  | inl f ↦
                      let along_x =
                        jump-Jumped goal fuel nx ny dx (pos 0) u v cu cv
                          (direction is.unit_x still (ground (arith, f)))
                          (omega (arith, less, few)) in
                      let along_y =
                        jump-Jumped goal fuel nx ny (pos 0) dy u v cu cv
                          (direction still is.unit_y (ground (arith, f)))
                          (omega (arith, less, few)) in
                      elim (Jumped-cases along_x) [
                        | inr (p, q, _, _) ↦ rw (jump, step, e, f, q) here
                        | inl q ↦ elim (Jumped-cases along_y) [
                          | inr (p, r, _, _) ↦ rw (jump, step, e, f, q, r) here
                          | inl r ↦ rw (jump, step, e, f, q, r) further
                        ]
                      ]
                ]
              ]
      ]
