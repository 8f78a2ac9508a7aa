-- ===== src/Map/Erase/Swap.antt =====
-- A node that is not in the tree takes another's place in it.
use cpp_lockfree_core.Base.{ℕ, ◌+◌, ◌≡◌, ◌≢◌, ◌≤◌, refl, sym, ap, ◌∙◌, subst, List, arith}
use cpp_lockfree_core.Family.{update, update_self, update_ne}
use cpp_lockfree_core.Map.{Map, Color, Side, left, right, other, hang}
use cpp_lockfree_core.Map.Erase.{transplant, put_in}
use cpp_lockfree_core.Map.Shape.{
  Tree, node, Frame, above, top, one, occ, occ_above, Holds, Above, Zip, one_self, top-occ,
}
use cpp_lockfree_core.Map.Keep.{Holds-moved}
use cpp_lockfree_core.Map.Rotate.{Keeps, set_child_self, set_child_ne}
use cpp_lockfree_core.Map.Turn.{one_eq, occ_eq, above_eq}
use cpp_lockfree_core.Map.Turned.{Above-turned}
use cpp_lockfree_core.Map.Erase.Transplant.{
  Transplanted, transplant-Transplanted, Holds-real, Above-real,
}

-- The node `y` has its right subtree `r`, and nothing else has changed.
pub record Prepared {K V : Type 0} (m m0 : Map K V) (y : ℕ) (r : Tree) : Type 0 where
  pub keeps : Keeps m m0
  pub color : m0.color ≡ m.color
  pub root : m0.root ≡ m.root
  pub right_y : m0.child right y ≡ top r
  pub children : (t : Side) (j : ℕ) → j ≢ y → m0.child t j ≡ m.child t j
  pub r_under : m0.parent (top r) ≡ y
  pub parents : (j : ℕ) → j ≢ top r → m0.parent j ≡ m.parent j

-- The tree around `z`, of which `y` is no node.
pub record Around {K V : Type 0} (m : Map K V) (ctx : List Frame) (z y : ℕ) (c : Color) (l r : Tree)
    : Type 0 where
  pub real_y : y ≢ 0
  pub real_z : z ≢ 0
  pub color_z : m.color z ≡ c
  pub under_z : m.parent z ≡ above ctx
  pub left_z : m.child left z ≡ top l
  pub real_l : top l ≢ 0
  pub holds_l : Holds m z l
  pub p : ℕ
  pub holds_r : Holds m p r
  pub around : Above m ctx z
  pub once : (j : ℕ) → occ_above j ctx + one j z + one j y + occ j l + occ j r ≤ 1

pub record Swapped {K V : Type 0} (m m' : Map K V) (ctx : List Frame) (y : ℕ) (c : Color)
    (l r : Tree) : Type 0 where
  pub zip : Zip m' ctx (node y c l r)
  pub keeps : Keeps m m'
  pub nil : m'.color 0 ≡ m.color 0
  pub r_under : m'.parent (top r) ≡ y
  pub sentinel : top r ≢ 0 → m'.parent 0 ≡ m.parent 0

module _ {K V : Type 0} (m m0 : Map K V) (ctx : List Frame) (z y : ℕ) (c : Color) (l r : Tree)
    (prep : Prepared m m0 y r) (a : Around m ctx z y c l r) where
  once_l : (j : ℕ) → 1 ≤ occ j l → (j ≢ y) × (j ≢ top r) × (above ctx ≢ 0 → j ≢ above ctx)
  once_l j q = (
    λ e. omega (arith, a.once j, one_eq j y e, q),
    λ e. omega (arith, a.once j, q, occ_eq j r (λ x. Holds-real m z l a.holds_l j q (e ∙ x)) e),
    λ nz e. omega (arith, a.once j, q, above_eq j ctx nz e),
  )

  once_r : (j : ℕ) → 1 ≤ occ j r → (j ≢ y) × (j ≢ top l) × (above ctx ≢ 0 → j ≢ above ctx)
  once_r j q = (
    λ e. omega (arith, a.once j, one_eq j y e, q),
    λ e. omega (arith, a.once j, q, occ_eq j l a.real_l e),
    λ nz e. omega (arith, a.once j, q, above_eq j ctx nz e),
  )

  once_up : (j : ℕ) → 1 ≤ occ_above j ctx → (j ≢ y) × (j ≢ top l) × (j ≢ top r)
  once_up j q = (
    λ e. omega (arith, a.once j, one_eq j y e, q),
    λ e. omega (arith, a.once j, q, occ_eq j l a.real_l e),
    λ e. omega (arith, a.once j, q, occ_eq j r (λ x. Above-real m ctx z a.around j q (e ∙ x)) e),
  )

  z_r : z ≢ top r
  z_r e = omega (arith, a.once z, one_self z, occ_eq z r (λ x. a.real_z (e ∙ x)) e)

  y_r : y ≢ top r
  y_r e = omega (arith, a.once y, one_self y, occ_eq y r (λ x. a.real_y (e ∙ x)) e)

  y_l : y ≢ top l
  y_l e = omega (arith, a.once y, one_self y, occ_eq y l a.real_l e)

  z_y : z ≢ y
  z_y e = omega (arith, a.once z, one_self z, one_eq z y e)

  l_r : top r ≢ top l
  l_r e =
      omega
        (arith, a.once (top r), occ_eq (top r) l a.real_l e, top-occ r (λ x. a.real_l (sym e ∙ x)))

  y_up : above ctx ≢ 0 → y ≢ above ctx
  y_up nz e = omega (arith, a.once y, one_self y, above_eq y ctx nz e)

  z_up : above ctx ≢ 0 → z ≢ above ctx
  z_up nz e = omega (arith, a.once z, one_self z, above_eq z ctx nz e)

  moved : Transplanted m0 (transplant m0 z y) (above ctx) z y
  moved = transplant-Transplanted m0 (above ctx) z y (prep.parents z z_r ∙ a.under_z)

  abbrev m2 : Map K V
  m2 = transplant m0 z y

  abbrev m3 : Map K V
  m3 = hang m2 left y (m2.child left z)

  left_is : m2.child left z ≡ top l
  left_is = moved.elsewhere left z z_up ∙ prep.children left z z_y ∙ a.left_z

  hung : m3.child left y ≡ top l
  hung = set_child_self m2.child y (m2.child left z) left ∙ left_is

  color_else : (j : ℕ) → j ≢ y → (put_in m0 z y).color j ≡ m.color j
  unfolding put_in
  color_else j ne =
      update_ne m2.color y (m2.color z) j ne ∙ ap (λ f. f j) (moved.color ∙ prep.color)

  color_y : (put_in m0 z y).color y ≡ c
  unfolding put_in
  color_y =
      update_self m2.color y (m2.color z) ∙ ap (λ f. f z) (moved.color ∙ prep.color) ∙ a.color_z

  child_else :
      (t : Side) (j : ℕ)
      → j ≢ y
      → (above ctx ≢ 0 → j ≢ above ctx)
      → (put_in m0 z y).child t j ≡ m.child t j
  unfolding put_in
  child_else t j ne up =
      set_child_ne m2.child y (m2.child left z) left t j ne
      ∙ moved.elsewhere t j up
      ∙ prep.children t j ne

  left_y : (put_in m0 z y).child left y ≡ top l
  unfolding put_in
  left_y = hung

  right_y : (put_in m0 z y).child right y ≡ top r
  unfolding put_in
  right_y = moved.elsewhere right y y_up ∙ prep.right_y

  parent_l : (put_in m0 z y).parent (top l) ≡ y
  unfolding put_in
  parent_l =
      subst (λ i. update m2.parent i y (top l) ≡ y) (sym hung) (update_self m2.parent (top l) y)

  parent_not_l : (j : ℕ) → j ≢ top l → (put_in m0 z y).parent j ≡ m2.parent j
  unfolding put_in
  parent_not_l j ne = update_ne m2.parent (m3.child left y) y j (λ e. ne (e ∙ hung))

  parent_y : (put_in m0 z y).parent y ≡ above ctx
  parent_y = parent_not_l y y_l ∙ moved.under

  parent_r : (put_in m0 z y).parent (top r) ≡ y
  parent_r = parent_not_l (top r) l_r ∙ moved.parents (top r) (λ e. y_r (sym e)) ∙ prep.r_under

  parent_else : (j : ℕ) → j ≢ y → j ≢ top l → j ≢ top r → (put_in m0 z y).parent j ≡ m.parent j
  parent_else j jy jl jr = parent_not_l j jl ∙ moved.parents j jy ∙ prep.parents j jr

  root_is :
      (above ctx ≡ 0 → (put_in m0 z y).root ≡ y) × (above ctx ≢ 0 → (put_in m0 z y).root ≡ m.root)
  unfolding put_in
  root_is = (moved.root_none, λ nz. moved.root_some nz ∙ prep.root)

  at_up :
      above ctx ≢ 0
      → (t : Side) → m.child t (above ctx) ≡ z
      → m.child (other t) (above ctx) ≢ z
      → ((put_in m0 z y).child t (above ctx) ≡ y)
        × ((put_in m0 z y).child (other t) (above ctx) ≡ m.child (other t) (above ctx))
  unfolding put_in
  at_up nz t e n =
      let ne : above ctx ≢ y = λ q. y_up nz (sym q) in
      let (here, there) =
        moved.at nz t (prep.children t (above ctx) ne ∙ e)
          (λ q. n (sym (prep.children (other t) (above ctx) ne) ∙ q)) in
      (
        set_child_ne m2.child y (m2.child left z) left t (above ctx) ne ∙ here,
        set_child_ne m2.child y (m2.child left z) left (other t) (above ctx) ne
            ∙ there
            ∙ prep.children (other t) (above ctx) ne,
      )

  put_in-Keeps : Keeps m (put_in m0 z y)
  unfolding put_in
  put_in-Keeps = record {
    key = moved.keeps.key ∙ prep.keeps.key;
    value = moved.keeps.value ∙ prep.keeps.value;
    count = moved.keeps.count ∙ prep.keeps.count;
    fresh = moved.keeps.fresh ∙ prep.keeps.fresh;
  }

  pub put_in-Swapped : Swapped m (put_in m0 z y) ctx y c l r
  put_in-Swapped =
      let m' = put_in m0 z y in
      record {
        zip = record {
          here = (
            a.real_y,
            color_y,
            parent_y,
            left_y,
            right_y,
            Holds-moved m m' z y l
                (λ j q ne.
                  let (jy, jr, up) = once_l j q in
                  record {
                    color = color_else j jy;
                    parent = parent_else j jy ne jr;
                    child = λ t. child_else t j jy up;
                  })
                (λ nz. parent_l) (λ nz. color_else (top l) (once_l (top l) (top-occ l nz)).0)
                (λ t nz.
                  let (jy, jr, up) = once_l (top l) (top-occ l nz) in child_else t (top l) jy up)
                (λ j. omega (arith, a.once j)) a.holds_l,
            Holds-moved m m' a.p y r
                (λ j q ne.
                  let (jy, jl, up) = once_r j q in
                  record {
                    color = color_else j jy;
                    parent = parent_else j jy jl ne;
                    child = λ t. child_else t j jy up;
                  })
                (λ nz. parent_r) (λ nz. color_else (top r) (once_r (top r) (top-occ r nz)).0)
                (λ t nz.
                  let (jy, jl, up) = once_r (top r) (top-occ r nz) in child_else t (top r) jy up)
                (λ j. omega (arith, a.once j)) a.holds_r,
          );
          around =
              Above-turned m m' ctx z y a.around (λ j. omega (arith, a.once j)) a.real_z root_is.0
                root_is.1 at_up (λ nz. color_else (above ctx) (λ e. y_up nz (sym e)))
                (λ nz.
                  let (jy, jl, jr) = once_up (above ctx) (above_eq (above ctx) ctx nz refl) in
                  parent_else (above ctx) jy jl jr)
                (λ j q ne.
                  let (jy, jl, jr) = once_up j q in
                  record {
                    color = color_else j jy;
                    parent = parent_else j jy jl jr;
                    child = λ t. child_else t j jy (λ _. ne);
                  });
          once = λ j. omega (arith, a.once j);
        };
        keeps = put_in-Keeps;
        nil = color_else 0 (λ e. a.real_y (sym e));
        r_under = parent_r;
        sentinel =
            λ nz. parent_else 0 (λ e. a.real_y (sym e)) (λ e. a.real_l (sym e)) (λ e. nz (sym e));
      }
