-- ===== src/Grid/Fill.antt =====
-- `randomizeWalls` gives every cell the roll of its index.
use cpp_lockfree_core.Base.{
  ℕ, zero, suc, ◌+◌, ◌*◌, ◌≡◌, ◌≤◌, ◌<◌, refl, ap, ◌∙◌, subst, Bool, false, not, set, get_or,
  length, arith, lt→ltb, dec_lt,
}
use cpp_lockfree_core.Grid.{
  pos, Grid, is_in_bounds, to_index, is_walkable, fill_row, fill_rows, randomize_walls,
}
use cpp_lockfree_core.Grid.Cells.{
  IsValid, cell_bound, to_index_small, get_or-set_self, get_or-set_ne, written-IsValid,
}

-- The cells from the index `lo` up to `hi` have got their rolls, and the others are as they were.
pub record Filled (rolls : ℕ → Bool) (lo hi : ℕ) (g g' : Grid) : Type 0 where
  pub same_width : g'.width ≡ g.width
  pub same_height : g'.height ≡ g.height
  pub valid : IsValid g'
  pub inside : (j : ℕ) → lo ≤ j → j < hi → get_or g'.walls j false ≡ rolls j
  pub below : (j : ℕ) → j < lo → get_or g'.walls j false ≡ get_or g.walls j false

module _ (rolls : ℕ → Bool) where
  Filled-none : {g : Grid} (lo : ℕ) → IsValid g → Filled rolls lo lo g g
  Filled-none lo v = record {
    same_width = refl;
    same_height = refl;
    valid = v;
    inside = λ j a b. absurd (omega (arith, a, b));
    below = λ j a. refl;
  }

  Filled-then :
      {g g' g'' : Grid} (lo mid hi : ℕ)
      → lo ≤ mid
      → Filled rolls lo mid g g'
      → Filled rolls mid hi g' g''
      → Filled rolls lo hi g g''
  Filled-then lo mid hi le a b = record {
    same_width = b.same_width ∙ a.same_width;
    same_height = b.same_height ∙ a.same_height;
    valid = b.valid;
    inside = λ j l h. elim (dec_lt j mid) [
      | yes y ↦ b.below j y ∙ a.inside j l y
      | no n ↦ b.inside j (omega (arith, n)) h
    ];
    below = λ j l. b.below j (omega (arith, l, le)) ∙ a.below j l;
  }

  Filled-cell :
      {g : Grid} (valid : IsValid g) (x y k : ℕ)
      → x < g.width
      → y < g.height
      → k ≡ y * g.width + x
      → Filled rolls k (k + 1) g (record g { walls = set g.walls (to_index g x y) (rolls k) })
  Filled-cell {g} valid x y k a b e =
      let s = to_index_small valid x y a b in
      let long : to_index g x y < length g.walls =
        omega (arith, s, cell_bound valid x y a b, valid.full) in
      record {
        same_width = refl;
        same_height = refl;
        valid = written-IsValid valid x y a b (rolls k);
        inside = λ j l h.
            let at : j ≡ to_index g x y = omega (arith, l, h, e, s) in
            let at' : k ≡ j = omega (arith, l, h) in
            ap (λ i. get_or (set g.walls (to_index g x y) (rolls k)) i false) at
            ∙ get_or-set_self false g.walls (to_index g x y) (rolls k) long
            ∙ ap rolls at';
        below = λ j l.
            get_or-set_ne false g.walls (to_index g x y) j (rolls k)
              (λ q. omega (arith, q, l, e, s));
      }

  fill_row-Filled :
      (g : Grid) (y x n k : ℕ)
      → IsValid g
      → y < g.height
      → x + n ≤ g.width
      → k ≡ y * g.width + x
      → Filled rolls k (k + n) g (fill_row g rolls y x n k)
  unfolding fill_row
  fill_row-Filled g y x zero k v b fit e =
      subst (λ h. Filled rolls k h g g) (omega arith) (Filled-none k v)
  fill_row-Filled g y x (suc n) k v b fit e =
      let cell = Filled-cell v x y k (omega arith) b e in
      let g' = record g { walls = set g.walls (to_index g x y) (rolls k) } in
      let rest =
        fill_row-Filled g' y (suc x) n (suc k) cell.valid b (omega arith) (omega (arith, e)) in
      Filled-then k (k + 1) (k + suc n) (omega arith) cell (
        subst (λ m. Filled rolls m (k + suc n) g' (fill_row g' rolls y (suc x) n (suc k)))
          (omega arith)
          (subst (λ h. Filled rolls (suc k) h g' (fill_row g' rolls y (suc x) n (suc k)))
            (omega arith) rest))

  fill_rows-Filled :
      (n : ℕ) (g : Grid) (y k : ℕ)
      → IsValid g
      → y + n ≤ g.height
      → k ≡ y * g.width
      → Filled rolls k (k + n * g.width) g (fill_rows g rolls y n k)
  unfolding fill_rows
  fill_rows-Filled zero g y k v fit e =
      subst (λ h. Filled rolls k h g g) (omega arith) (Filled-none k v)
  fill_rows-Filled (suc n) g y k v fit e =
      let row = fill_row-Filled g y 0 g.width k v (omega arith) (omega arith) (omega (arith, e)) in
      let g' = fill_row g rolls y 0 g.width k in
      let w : g'.width ≡ g.width = row.same_width in
      let turn : suc y * g'.width ≡ suc y * g.width = ap (λ t. suc y * t) w in
      let rows : n * g'.width ≡ n * g.width = ap (λ t. n * t) w in
      let rest =
        fill_rows-Filled n g' (suc y) (k + g.width) row.valid (omega (arith, row.same_height))
          (omega (arith, turn, e)) in
      Filled-then k (k + g.width) (k + suc n * g.width) (omega arith) row (
        subst (λ h. Filled rolls (k + g.width) h g' (fill_rows g' rolls (suc y) n (k + g.width)))
          (omega (arith, rows)) rest)

  -- On a valid board `randomizeWalls` draws one number for each cell, row by row: afterwards a cell
  -- on the board is open just if the number drawn for it was not below the ratio. The board stays
  -- valid and keeps its width and height.
  pub randomize_walls_lem :
      (g : Grid)
      → IsValid g
      → IsValid (randomize_walls g rolls)
        × ((randomize_walls g rolls).width ≡ g.width)
        × ((randomize_walls g rolls).height ≡ g.height)
        × ((x y : ℕ)
            → x < g.width
            → y < g.height
            → is_walkable (randomize_walls g rolls) (pos x) (pos y) ≡ not (rolls (y * g.width + x)))
  unfolding randomize_walls is_walkable is_in_bounds
  randomize_walls_lem g v =
      let all = fill_rows-Filled g.height g 0 0 v (omega arith) (omega arith) in
      let g' = fill_rows g rolls 0 g.height 0 in
      (
        all.valid,
        all.same_width,
        all.same_height,
        λ x y a b.
            let a' : x < g'.width = omega (arith, a, all.same_width) in
            let b' : y < g'.height = omega (arith, b, all.same_height) in
            let turn : y * g'.width ≡ y * g.width = ap (λ t. y * t) all.same_width in
            let at : to_index g' x y ≡ y * g.width + x =
              to_index_small all.valid x y a' b' ∙ omega (arith, turn) in
            rw (lt→ltb x g'.width a', lt→ltb y g'.height b', at)
              (ap not
                (all.inside (y * g.width + x) (omega arith) (omega (arith, cell_bound v x y a b)))),
      )
