-- ===== src/Grid/Cells.antt =====
-- The cells of a board are independent of each other.
use cpp_lockfree_core.Base.{
  ℕ, zero, suc, ◌+◌, ◌*◌, ◌%◌, ◌/◌, ◌^◌, ◌≡◌, ◌≢◌, ◌≤◌, ◌<◌, inl, inr, refl, sym, ap, ◌∙◌, Bool,
  true, false, not, ◌&&◌, List, [], ◌∷◌, ltb, if◌then◌else◌, set, get_or, length, length-set,
  length-replicate, arith, ltb→lt, lt→ltb, le→ltb, Bool-cases, mod_small, dec_lt,
}
use native.Mathlib.Nat.{
  mul-le-mul_right, mul-add-mod_self_right, mul-add-div_right, mod-eq_of_lt, div-eq_of_lt,
}
use cpp_lockfree_core.Grid.{
  ℤ, pos, negsuc, Grid, new_grid, is_in_bounds, to_index, index_of, is_walkable, set_wall,
  clear_wall,
}

pub record IsValid (g : Grid) : Type 0 where
  pub small : g.width * g.height < 2 ^ 31
  pub full : length g.walls ≡ g.width * g.height

pub new_grid-IsValid : (w h : ℕ) → w * h < 2 ^ 31 → IsValid (new_grid w h)
unfolding new_grid
new_grid-IsValid w h l = record { small = l; full = length-replicate (w * h) false }

pub get_or-set_self :
    {A : Type 0} (d : A) (l : List A) (i : ℕ) (a : A) → i < length l → get_or (set l i a) i d ≡ a
get_or-set_self d [] i a h = absurd (omega arith)
get_or-set_self d (x ∷ l) zero a h = refl
get_or-set_self d (x ∷ l) (suc i) a h = get_or-set_self d l i a (omega arith)

pub get_or-set_ne :
    {A : Type 0} (d : A) (l : List A) (i j : ℕ) (a : A)
    → i ≢ j
    → get_or (set l i a) j d ≡ get_or l j d
get_or-set_ne d [] i j a h = refl
get_or-set_ne d (x ∷ l) zero zero a h = absurd (h refl)
get_or-set_ne d (x ∷ l) zero (suc j) a h = refl
get_or-set_ne d (x ∷ l) (suc i) zero a h = refl
get_or-set_ne d (x ∷ l) (suc i) (suc j) a h = get_or-set_ne d l i j a (λ e. h (ap suc e))

pub true-false : true ≢ false
true-false e = cc

module _ {g : Grid} (valid : IsValid g) where
  pub cell_bound : (x y : ℕ) → x < g.width → y < g.height → y * g.width + x < g.width * g.height
  cell_bound x y a b =
      let rows : suc y * g.width ≤ g.height * g.width = mul-le-mul_right g.width b in
      omega (arith, rows)

  pub to_index_small : (x y : ℕ) → x < g.width → y < g.height → to_index g x y ≡ y * g.width + x
  unfolding to_index
  to_index_small x y a b = mod_small (2 ^ 32) _ (omega (arith, cell_bound x y a b, valid.small))

  index_apart :
      (x y x' y' : ℕ)
      → x < g.width
      → y < g.height
      → x' < g.width
      → y' < g.height
      → to_index g x y ≡ to_index g x' y'
      → (x ≡ x') × (y ≡ y')
  index_apart x y x' y' a b a' b' e =
      let s : y * g.width + x ≡ y' * g.width + x' =
        sym (to_index_small x y a b) ∙ e ∙ to_index_small x' y' a' b' in
      (
        sym (mod-eq_of_lt a)
            ∙ sym (mul-add-mod_self_right y g.width x)
            ∙ ap (λ n. n % g.width) s
            ∙ mul-add-mod_self_right y' g.width x'
            ∙ mod-eq_of_lt a',
        row y x a ∙ ap (λ n. n / g.width) s ∙ sym (row y' x' a'),
      )
    where
      row : (y x : ℕ) → x < g.width → y ≡ (y * g.width + x) / g.width
      row y x a =
          let z = div-eq_of_lt a in
          omega (arith, z, mul-add-div_right {m = g.width} (omega arith) y x)

  -- The board with one more entry written, at coordinates that are in bounds.
  module _ (x y : ℕ) (a : x < g.width) (b : y < g.height) (wall : Bool) where
    abbrev written : Grid
    written = record g { walls = set g.walls (to_index g x y) wall }

    pub written-IsValid : IsValid written
    written-IsValid = record {
      small = valid.small;
      full = length-set g.walls (to_index g x y) wall ∙ valid.full;
    }

    written_here : is_walkable written (pos x) (pos y) ≡ not wall
    unfolding is_walkable is_in_bounds to_index
    written_here =
        rw
          (
            lt→ltb x g.width a,
            lt→ltb y g.height b,
            get_or-set_self false g.walls (to_index g x y) wall
                (omega (arith, to_index_small x y a b, cell_bound x y a b, valid.full)),
          )
          refl

    written_elsewhere :
        (x' y' : ℤ)
        → ¬ ((x' ≡ pos x) × (y' ≡ pos y))
        → is_walkable written x' y' ≡ is_walkable g x' y'
    unfolding is_walkable is_in_bounds to_index
    written_elsewhere (negsuc x') y' ne = refl
    written_elsewhere (pos x') (negsuc y') ne = refl
    written_elsewhere (pos x') (pos y') ne = elim (dec_lt x' g.width) [
      | yes a' ↦ elim (dec_lt y' g.height) [
        | yes b' ↦
            let other : to_index g x y ≢ to_index g x' y' = λ e.
              let s = index_apart x y x' y' a b a' b' e in
              ne (ap pos (sym s.0), ap pos (sym s.1)) in
            ap (λ w. if not (ltb x' g.width && ltb y' g.height) then false else not w)
              (get_or-set_ne false g.walls (to_index g x y) (to_index g x' y') wall other)
        | no n ↦ rw (le→ltb y' g.height (omega (arith, n))) (ground arith)
      ]
      | no n ↦ rw (le→ltb x' g.width (omega (arith, n))) refl
    ]

  -- What a write at the coordinates `x` and `y` has done to the board: on it, the cell has the new
  -- state and all others the old; off it, nothing has changed. The board stays valid.
  pub record Wrote (x y : ℤ) (free : Bool) (g' : Grid) : Type 0 where
    pub here : is_in_bounds g x y ≡ true → is_walkable g' x y ≡ free
    pub elsewhere :
        (x' y' : ℤ) → ¬ ((x' ≡ x) × (y' ≡ y)) → is_walkable g' x' y' ≡ is_walkable g x' y'
    pub off : is_in_bounds g x y ≡ false → g' ≡ g
    pub still : IsValid g'

  off_board : (x y : ℤ) (free : Bool) → is_in_bounds g x y ≡ false → Wrote x y free g
  off_board x y free e = record {
    here = λ t. absurd (true-false (sym t ∙ e));
    elsewhere = λ x' y' n. refl;
    off = λ t. refl;
    still = valid;
  }

  in_bounds_both :
      (x y : ℕ) → is_in_bounds g (pos x) (pos y) ≡ true → (x < g.width) × (y < g.height)
  unfolding is_in_bounds
  in_bounds_both x y e = (ground (arith, ltb→lt x g.width), ground (arith, ltb→lt y g.height))

  on_board :
      (x y : ℤ) (wall : Bool)
      → is_in_bounds g x y ≡ true
      → Wrote x y (not wall) (record g { walls = set g.walls (index_of g x y) wall })
  unfolding is_in_bounds
  on_board (negsuc x) y wall e = absurd (true-false (sym e))
  on_board (pos x) (negsuc y) wall e = absurd (true-false (sym e))
  on_board (pos x) (pos y) wall e =
      let (a, b) = in_bounds_both x y e in
      record {
        here = λ t. written_here x y a b wall;
        elsewhere = written_elsewhere x y a b wall;
        off = λ t. absurd (true-false (sym e ∙ t));
        still = written-IsValid x y a b wall;
      }

  wrote :
      (wall : Bool) (x y : ℤ)
      → Wrote x y
          (not wall)
          (if is_in_bounds g x y then record g { walls = set g.walls (index_of g x y) wall } else g)
  wrote wall x y = elim (Bool-cases (is_in_bounds g x y)) [
    | inl e ↦ rw e (on_board x y wall e)
    | inr e ↦ rw e (off_board x y (not wall) e)
  ]

  -- A wall is put up on a valid board: the cell is closed, if it is on the board, no other cell has
  -- changed, and outside the board nothing happens.
  pub set_wall-Wrote : (x y : ℤ) → Wrote x y false (set_wall g x y)
  unfolding set_wall
  set_wall-Wrote x y = wrote true x y

  -- A wall is taken down on a valid board: the cell is open, if it is on the board, no other cell has
  -- changed, and outside the board nothing happens.
  pub clear_wall-Wrote : (x y : ℤ) → Wrote x y true (clear_wall g x y)
  unfolding clear_wall
  clear_wall-Wrote x y = wrote false x y
