-- ===== src/Jps/Fill.antt =====
-- The cells between way points are filled in by straight runs.
use cpp_lockfree_core.Base.{
  ℕ, zero, suc, ◌+◌, ◌≡◌, ◌≢◌, ◌≤◌, ◌<◌, ◌⊎◌, inl, inr, refl, sym, ap, ap₂, ◌∙◌, subst, true, ◌&&◌,
  List, [], ◌∷◌, ◌++◌, append-nil, append_assoc, Option, none, some, arith, Bool-cases,
}
use cpp_lockfree_core.Grid.{ℤ, pos, negsuc, Grid, is_walkable}
use cpp_lockfree_core.Grid.Cells.{true-false}
use cpp_lockfree_core.AStar.{Point, ◌+ℤ◌, nonzero, same_cell, reversed_points, point_of}
use cpp_lockfree_core.AStar.Route.{Route, begin, onward}
use cpp_lockfree_core.AStar.Trail.{Back}
use cpp_lockfree_core.Jps.{sign, ◌-ℤ◌, straight, leg, legs, fill_path}
use cpp_lockfree_core.Jps.Directions.{IsUnit, still, up, down, IsDirection}
use cpp_lockfree_core.Jps.Run.{
  Run, Leads, on_board, on_board_at, Shift, Shift-sign, Spans, Run-Spans, Spans-apart,
}

option_cases : {A : Type 0} (o : Option A) → (o ≡ none) ⊎ ((a : A) × (o ≡ some a))
option_cases none = inl refl
option_cases (some a) = inr (a, refl)

none-some : {A : Type 0} {a : A} → none ≢ some a
none-some e = cc

some_eq : {A : Type 0} {a b : A} → some a ≡ some b → a ≡ b
some_eq e = cc

same_cell_refl : (a : ℤ) → same_cell a a ≡ true
same_cell_refl (pos a) = ground arith
same_cell_refl (negsuc a) = ground arith

Route-free :
    {g : Grid} {start a : Point} {m : List Point} → Route g start a m → is_walkable g a.x a.y ≡ true
Route-free (begin free) = free
Route-free (onward b m r by e) = by.free

pub Run-free :
    (g : Grid) (d : ℤ × ℤ) (n : ℕ) (a b : Point)
    → is_walkable g a.x a.y ≡ true
    → Run g d n a b
    → is_walkable g b.x b.y ≡ true
Run-free g d zero a b free r = subst (λ p. is_walkable g p.x p.y ≡ true) r free
Run-free g d (suc n) a b free (c, m, by, r) = Run-free g d n c b m.free r

module _ (g : Grid) (d : ℤ × ℤ) (is : IsDirection d) where
  straight-Route :
      (start : Point) (n fuel : ℕ) (a b : Point) (m : List Point)
      → n < fuel
      → Run g d n a b
      → Route g start a m
      → (l : List Point) × (straight fuel d.0 d.1 a b ≡ some l) × Route g start b (m ++ l)
  unfolding straight
  straight-Route start n zero a b m few r route = absurd (omega arith)
  straight-Route start zero (suc fuel) a b m few r route =
      let e : same_cell a.x b.x && same_cell a.y b.y ≡ true =
        subst (λ p. same_cell a.x p.x && same_cell a.y p.y ≡ true) r
          (rw (same_cell_refl a.x, same_cell_refl a.y) refl) in
      (
        [],
        rw (straight, e) refl,
        subst (λ p. Route g start p (m ++ [])) r (rw (append-nil m) route),
      )
  straight-Route start (suc n) (suc fuel) a b m few (c, by, is_d, r) route =
      let (i, j, ai, aj, _, _) = on_board g a.x a.y (Route-free route) in
      let whole =
        Run-Spans d is g (suc n) i j a b (ap₂ (λ p q. record { x = p; y = q }) ai aj)
          (c, by, is_d, r) in
      let next : record { x = a.x +ℤ d.0; y = a.y +ℤ d.1 } ≡ c =
        ap₂ (λ p q. record { x = p; y = q }) (ap (λ q. a.x +ℤ q.0) (sym is_d) ∙ sym by.to_x)
          (ap (λ q. a.y +ℤ q.1) (sym is_d) ∙ sym by.to_y) in
      let (l, e, further) =
        straight-Route start n fuel c b (m ++ (c ∷ [])) (omega arith) r
          (onward c (m ++ (c ∷ [])) route by refl) in
      (
        c ∷ l,
        rw (straight, Spans-apart d is n a b whole, ap (λ p. straight fuel d.0 d.1 p b) next ∙ e)
            (ap (λ p. some (p ∷ l)) next),
        subst (Route g start b) (append_assoc m (c ∷ []) l) further,
      )

-- A run on the board is shorter than its sides together.
Shift-short :
    {d : ℤ} (n i j w : ℕ) → IsUnit d → nonzero d ≡ true → Shift d n i j → i < w → j < w → n < w
Shift-short n i j w still h s a b = absurd (true-false (sym h))
Shift-short n i j w up h s a b = omega arith
Shift-short n i j w down h s a b = omega arith

Spans-short :
    (g : Grid) (d : ℤ × ℤ) (n : ℕ) (a b : Point)
    → IsDirection d
    → is_walkable g a.x a.y ≡ true
    → is_walkable g b.x b.y ≡ true
    → Spans d n a b
    → n < g.width + g.height
Spans-short g d n a b is free_a free_b s =
    let (wi, hj) =
      on_board_at g s.i s.j (subst (λ p. is_walkable g p.x p.y ≡ true) s.from free_a) in
    let (wk, hl) = on_board_at g s.k s.l (subst (λ p. is_walkable g p.x p.y ≡ true) s.to free_b) in
    elim (Bool-cases (nonzero d.0)) [
      | inl h ↦ omega (arith, Shift-short n s.i s.k g.width is.unit_x h s.in_x wi wk)
      | inr h ↦ omega (
        arith,
        Shift-short n s.j s.l g.height is.unit_y (ground (arith, is.goes, h)) s.in_y hj hl,
      )
    ]

module _ (g : Grid) (start : Point) (fuel : ℕ) (enough : g.width + g.height ≤ fuel) where
  leg-Route :
      (a b : Point) (m : List Point)
      → Leads g a b
      → Route g start a m
      → (l : List Point) × (leg fuel a b ≡ some l) × Route g start b (m ++ l)
  leg-Route a b m leads route =
      let d = leads.direction in
      let is = leads.is_direction in
      let free = Route-free route in
      let (i, j, ai, aj, _, _) = on_board g a.x a.y free in
      let s =
        Run-Spans d is g (suc leads.count) i j a b (ap₂ (λ p q. record { x = p; y = q }) ai aj)
          leads.run in
      let in_x : sign (b.x -ℤ a.x) ≡ d.0 =
        ap₂ (λ p q. sign (p.x -ℤ q.x)) s.to s.from
        ∙ Shift-sign leads.count s.i s.k is.unit_x s.in_x in
      let in_y : sign (b.y -ℤ a.y) ≡ d.1 =
        ap₂ (λ p q. sign (p.y -ℤ q.y)) s.to s.from
        ∙ Shift-sign leads.count s.j s.l is.unit_y s.in_y in
      let short =
        Spans-short g d (suc leads.count) a b is free
          (Run-free g d (suc leads.count) a b free leads.run) s in
      rw (in_x, in_y)
        (straight-Route g d is start (suc leads.count) fuel a b m (omega (arith, short)) leads.run
          route)

  legs-snoc :
      (from a b : Point) (pre m k : List Point)
      → legs fuel from (pre ++ (a ∷ [])) ≡ some m
      → leg fuel a b ≡ some k
      → legs fuel from ((pre ++ (a ∷ [])) ++ (b ∷ [])) ≡ some (m ++ k)
  unfolding legs
  legs-snoc from a b [] m k e f = elim (option_cases (leg fuel from a)) [
    | inl q ↦ let z : none ≡ some m = sym (rw (legs, q) refl) ∙ e in absurd (none-some z)
    | inr (l, q) ↦
        let z : some (l ++ []) ≡ some m = sym (rw (legs, q) refl) ∙ e in
        rw (legs, q, f)
          (ap some
            (ap (λ x. l ++ x) (append-nil k) ∙ ap (λ x. x ++ k) (sym (append-nil l) ∙ some_eq z)))
  ]
  legs-snoc from a b (p ∷ pre) m k e f = elim (option_cases (leg fuel from p)) [
    | inl q ↦ let z : none ≡ some m = sym (rw (legs, q) refl) ∙ e in absurd (none-some z)
    | inr (l, q) ↦ elim (option_cases (legs fuel p (pre ++ (a ∷ [])))) [
      | inl r ↦ let z : none ≡ some m = sym (rw (legs, q, r) refl) ∙ e in absurd (none-some z)
      | inr (m', r) ↦
          let z : some (l ++ m') ≡ some m = sym (rw (legs, q, r) refl) ∙ e in
          rw (legs, q, legs-snoc p a b pre m' k r f)
            (ap some (sym (append_assoc l m' k) ∙ ap (λ x. x ++ k) (some_eq z)))
    ]
  ]

  fill_path-snoc :
      (a b : Point) (pre m k : List Point)
      → fill_path fuel (pre ++ (a ∷ [])) ≡ some m
      → leg fuel a b ≡ some k
      → fill_path fuel ((pre ++ (a ∷ [])) ++ (b ∷ [])) ≡ some (m ++ k)
  unfolding fill_path legs
  fill_path-snoc a b [] m k e f =
      rw (fill_path, legs, f)
        (ap some (ap (λ x. a ∷ x) (append-nil k) ∙ ap (λ x. x ++ k) (some_eq e)))
  fill_path-snoc a b (p ∷ pre) m k e f = elim (option_cases (legs fuel p (pre ++ (a ∷ [])))) [
    | inl r ↦ let z : none ≡ some m = sym (rw (fill_path, r) refl) ∙ e in absurd (none-some z)
    | inr (m', r) ↦
        let z : some (p ∷ m') ≡ some m = sym (rw (fill_path, r) refl) ∙ e in
        rw (fill_path, legs-snoc p a b pre m' k r f) (ap (λ x. some (x ++ k)) (some_eq z))
  ]

  -- The way points back from a cell, filled in, are a path to it.
  pub fill_path-Route :
      (c : ℕ) (l : List ℕ)
      → is_walkable g start.x start.y ≡ true
      → Back g start (λ p q. Leads g (point_of g p) (point_of g q)) c l
      → (m : List Point) × (fill_path fuel (reversed_points g (c ∷ l)) ≡ some m)
        × Route g start (point_of g c) m
  unfolding fill_path legs reversed_points
  fill_path-Route c [] free at =
      (point_of g c ∷ [], refl, subst (λ x. Route g start x (x ∷ [])) (sym at) (begin free))
  fill_path-Route c (p ∷ l) free (leads, way) =
      let (m, e, route) = fill_path-Route p l free way in
      let (k, f, further) = leg-Route (point_of g p) (point_of g c) m leads route in
      (m ++ k, fill_path-snoc (point_of g p) (point_of g c) (reversed_points g l) m k e f, further)
