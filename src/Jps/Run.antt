-- ===== src/Jps/Run.antt =====
-- Straight runs of moves on the board.
use cpp_lockfree_core.Base.{
  ℕ, zero, suc, ◌+◌, ◌≡◌, ◌<◌, inl, inr, refl, sym, ap, ap₂, ◌∙◌, Bool, subst, true, false, ◌&&◌,
  arith, Bool-cases, lt→ltb, le→ltb, ltb→lt, ◌==◌,
}
use cpp_lockfree_core.Grid.{ℤ, pos, negsuc, Grid, is_walkable, is_in_bounds}
use cpp_lockfree_core.Grid.Cells.{true-false}
use cpp_lockfree_core.AStar.{Point, ◌+ℤ◌, nonzero, same_cell}
use cpp_lockfree_core.AStar.Route.{Moves}
use cpp_lockfree_core.Jps.{sign, ◌-ℤ◌}
use cpp_lockfree_core.Jps.Directions.{IsUnit, still, up, down, IsDirection}

-- `n` moves in the same direction.
abbrev pub Run : Grid → ℤ × ℤ → ℕ → Point → Point → Type 0
Run g d zero a b = a ≡ b
Run g d (suc n) a b = (c : Point) × (m : Moves g a c) × (m.by ≡ d) × Run g d n c b

-- At least one move, in one of the eight directions.
pub record Leads (g : Grid) (a b : Point) : Type 0 where
  pub direction : ℤ × ℤ
  pub is_direction : IsDirection direction
  pub count : ℕ
  pub run : Run g direction (suc count) a b

-- A free cell is on the board.
pub on_board :
    (g : Grid) (x y : ℤ)
    → is_walkable g x y ≡ true
    → (i : ℕ) × (j : ℕ) × (x ≡ pos i) × (y ≡ pos j) × (i < g.width) × (j < g.height)
unfolding is_walkable is_in_bounds
on_board g (negsuc x) y h = absurd (true-false (sym h))
on_board g (pos x) (negsuc y) h = absurd (true-false (sym h))
on_board g (pos x) (pos y) h =
    (x, y, refl, refl, ground (arith, ltb→lt x g.width), ground (arith, ltb→lt y g.height))

pub on_board_at :
    (g : Grid) (i j : ℕ) → is_walkable g (pos i) (pos j) ≡ true → (i < g.width) × (j < g.height)
unfolding is_walkable is_in_bounds
on_board_at g i j h = (ground (arith, ltb→lt i g.width), ground (arith, ltb→lt j g.height))

-- Where `n` steps of a component of a direction lead.
abbrev pub Shift : ℤ → ℕ → ℕ → ℕ → Type 0
Shift (pos zero) n i j = i ≡ j
Shift (pos (suc k)) n i j = i + n ≡ j
Shift (negsuc k) n i j = j + n ≡ i

abbrev value : ℤ → ℕ
value (pos a) = a
value (negsuc a) = 0

pub Shift-one : {d : ℤ} (i j : ℕ) → IsUnit d → pos j ≡ pos i +ℤ d → Shift d 1 i j
unfolding ◌+ℤ◌
Shift-one i j still e = let h : j ≡ i + 0 = ap value e in omega (arith, h)
Shift-one i j up e = let h : j ≡ i + 1 = ap value e in omega (arith, h)
Shift-one zero j down e = absurd (true-false (ap is_pos e))
  where
    is_pos : ℤ → Bool
    is_pos (pos a) = true
    is_pos (negsuc a) = false
Shift-one (suc i) j down e =
    let f : pos (suc i) +ℤ negsuc 0 ≡ pos i =
      rw (lt→ltb 0 (suc i) (omega arith)) (ap pos (omega arith)) in
    let h : j ≡ i = ap value (e ∙ f) in omega (arith, h)

Shift-none : {d : ℤ} (i : ℕ) → IsUnit d → Shift d 0 i i
Shift-none i still = refl
Shift-none i up = omega arith
Shift-none i down = omega arith

Shift-more : {d : ℤ} (n i j k : ℕ) → IsUnit d → Shift d 1 i j → Shift d n j k → Shift d (suc n) i k
Shift-more n i j k still h l = omega arith
Shift-more n i j k up h l = omega arith
Shift-more n i j k down h l = omega arith

minus_up : (i j n : ℕ) → i + n ≡ j → pos j -ℤ pos i ≡ pos n
unfolding ◌+ℤ◌
minus_up zero j n h = ap pos (omega arith)
minus_up (suc i) j n h = rw (lt→ltb i j (omega arith)) (ap pos (omega arith))

minus_down : (i j n : ℕ) → j + suc n ≡ i → pos j -ℤ pos i ≡ negsuc n
unfolding ◌+ℤ◌
minus_down zero j n h = absurd (omega arith)
minus_down (suc i) j n h = rw (le→ltb i j (omega arith)) (ap negsuc (omega arith))

-- The sign of the difference is the direction.
pub Shift-sign : {d : ℤ} (n i j : ℕ) → IsUnit d → Shift d (suc n) i j → sign (pos j -ℤ pos i) ≡ d
Shift-sign n i j still h = ap sign (minus_up i j 0 (omega arith))
Shift-sign n i j up h = ap sign (minus_up i j (suc n) h)
Shift-sign n i j down h = ap sign (minus_down i j n h)

Shift-differ :
    {d : ℤ} (n i j : ℕ) → IsUnit d → nonzero d ≡ true → Shift d (suc n) i j → i == j ≡ false
Shift-differ n i j still h s = absurd (true-false (sym h))
Shift-differ n i j up h s = ground arith
Shift-differ n i j down h s = ground arith

-- Two cells and the steps between them.
pub record Spans (d : ℤ × ℤ) (n : ℕ) (a b : Point) : Type 0 where
  pub i : ℕ
  pub j : ℕ
  pub k : ℕ
  pub l : ℕ
  pub from : a ≡ record { x = pos i; y = pos j }
  pub to : b ≡ record { x = pos k; y = pos l }
  pub in_x : Shift d.0 n i k
  pub in_y : Shift d.1 n j l

module _ (d : ℤ × ℤ) (is : IsDirection d) where
  -- A run from a cell of the board spans its steps.
  pub Run-Spans :
      (g : Grid) (n i j : ℕ) (a b : Point)
      → a ≡ record { x = pos i; y = pos j }
      → Run g d n a b
      → Spans d n a b
  Run-Spans g zero i j a b e r = record {
    i = i;
    j = j;
    k = i;
    l = j;
    from = e;
    to = sym r ∙ e;
    in_x = Shift-none i is.unit_x;
    in_y = Shift-none j is.unit_y;
  }
  Run-Spans g (suc n) i j a b e (c, m, by, r) =
      let (u, v, cu, cv, _, _) = on_board g c.x c.y m.free in
      let to_c : c ≡ record { x = pos u; y = pos v } = ap₂ (λ p q. record { x = p; y = q }) cu cv in
      let rest = Run-Spans g n u v c b to_c r in
      let same_u : rest.i ≡ u = ap (λ p. value p.x) (sym rest.from ∙ to_c) in
      let same_v : rest.j ≡ v = ap (λ p. value p.y) (sym rest.from ∙ to_c) in
      let step_x : pos u ≡ pos i +ℤ d.0 = sym cu ∙ m.to_x ∙ ap₂ (λ p q. p.x +ℤ q.0) e by in
      let step_y : pos v ≡ pos j +ℤ d.1 = sym cv ∙ m.to_y ∙ ap₂ (λ p q. p.y +ℤ q.1) e by in
      record {
        i = i;
        j = j;
        k = rest.k;
        l = rest.l;
        from = e;
        to = rest.to;
        in_x =
            Shift-more n i u rest.k is.unit_x (Shift-one i u is.unit_x step_x)
              (subst (λ p. Shift d.0 n p rest.k) same_u rest.in_x);
        in_y =
            Shift-more n j v rest.l is.unit_y (Shift-one j v is.unit_y step_y)
              (subst (λ p. Shift d.1 n p rest.l) same_v rest.in_y);
      }

  -- A run of one move or more does not end where it began.
  pub Spans-apart :
      (n : ℕ) (a b : Point) → Spans d (suc n) a b → same_cell a.x b.x && same_cell a.y b.y ≡ false
  Spans-apart n a b s = elim (Bool-cases (nonzero d.0)) [
    | inl h ↦ rw (s.from, s.to, Shift-differ n s.i s.k is.unit_x h s.in_x) refl
    | inr h ↦
        rw (s.from, s.to, Shift-differ n s.j s.l is.unit_y (ground (arith, is.goes, h)) s.in_y)
          (ground arith)
  ]
