-- ===== src/Map/Turn.antt =====
-- The nodes at a rotation, and those that it leaves alone.
use cpp_lockfree_core.Base.{ℕ, ◌+◌, ◌≡◌, ◌≢◌, ◌≤◌, refl, sym, ap, ◌∙◌, subst, List, arith}
use cpp_lockfree_core.Map.{Map, Color, Side, other, rotate}
use cpp_lockfree_core.Map.Shape.{
  Tree, on, Frame, top, above, one, occ, occ_above, Holds, Zip, At, Holds-At, top-on, occ-on,
  one_self, top-occ, above-occ,
}
use cpp_lockfree_core.Map.Keep.{Same, Holds-moved}
use cpp_lockfree_core.Map.Fields.{Rotated, rotate-Rotated}

pub one_eq : (i j : ℕ) → i ≡ j → one i j ≡ 1
one_eq i j e = ground arith

pub occ_eq : (i : ℕ) (t : Tree) → top t ≢ 0 → i ≡ top t → 1 ≤ occ i t
occ_eq i t nz e = subst (λ j. 1 ≤ occ j t) (sym e) (top-occ t nz)

pub above_eq : (i : ℕ) (ctx : List Frame) → above ctx ≢ 0 → i ≡ above ctx → 1 ≤ occ_above i ctx
above_eq i ctx nz e = subst (λ j. 1 ≤ occ_above j ctx) (sym e) (above-occ ctx nz)

module _ {K V : Type 0} (m : Map K V) (ctx : List Frame) (s : Side) (x y : ℕ) (c d : Color)
    (ta tb tc : Tree) where
  abbrev pub before_turn : Tree
  before_turn = on s x c ta (on s y d tb tc)

  abbrev pub after_turn : Tree
  after_turn = on s y d (on s x c ta tb) tc

  module _ (z : Zip m ctx before_turn) where
    pub upper : At m (above ctx) s x c ta (on s y d tb tc)
    upper = Holds-At m (above ctx) s x c ta (on s y d tb tc) z.here

    pub lower : At m x s y d tb tc
    lower = Holds-At m x s y d tb tc upper.holds_far

    pub once : (j : ℕ) → occ_above j ctx + one j x + occ j ta + one j y + occ j tb + occ j tc ≤ 1
    once j = omega (arith, z.once j, occ-on j s x c ta (on s y d tb tc), occ-on j s y d tb tc)

    pub x_y : x ≢ y
    x_y e = omega (arith, once x, one_self x, one_eq x y e)

    pub b_x : top tb ≢ x
    b_x e = omega (arith, once x, one_self x, occ_eq x tb (λ q. upper.real (sym e ∙ q)) (sym e))

    pub b_y : top tb ≢ y
    b_y e = omega (arith, once y, one_self y, occ_eq y tb (λ q. lower.real (sym e ∙ q)) (sym e))

    pub p_x : above ctx ≢ x
    p_x e = omega (arith, once x, one_self x, above_eq x ctx (λ q. upper.real (sym e ∙ q)) (sym e))

    pub p_y : above ctx ≢ y
    p_y e = omega (arith, once y, one_self y, above_eq y ctx (λ q. lower.real (sym e ∙ q)) (sym e))

    pub y_is : m.child (other s) x ≡ y
    y_is = upper.far ∙ top-on s y d tb tc

    pub b_is : m.child s (m.child (other s) x) ≡ top tb
    b_is = ap (m.child s) y_is ∙ lower.near

    pub turned : Rotated m (rotate s x m) s x y (top tb) (above ctx)
    turned =
        subst (λ b. Rotated m (rotate s x m) s x y b (above ctx)) (ap (m.child s) (sym y_is) ∙ b_is)
          (subst (λ u. Rotated m (rotate s x m) s x u (m.child s u) (above ctx)) y_is
            (rotate-Rotated m s x (above ctx) upper.under (λ e. x_y (e ∙ y_is))
              (λ e. b_x (sym b_is ∙ e)) (λ e. b_y (sym b_is ∙ e ∙ y_is)) p_x (λ e. p_y (e ∙ y_is))))

    abbrev m' : Map K V
    m' = rotate s x m

    -- A node that is none of those at the turn is the same.
    pub Same-elsewhere :
        (j : ℕ)
        → j ≢ x
        → j ≢ y
        → (top tb ≢ 0 → j ≢ top tb)
        → (above ctx ≢ 0 → j ≢ above ctx)
        → Same m (rotate s x m) j
    Same-elsewhere j jx jy jb jp = record {
      color = ap (λ f. f j) turned.color;
      parent = turned.parents j jx jy jb;
      child = λ t. turned.children t j jx jy jp;
    }

    pub apart_xy :
        (j : ℕ) → 1 ≤ occ_above j ctx + occ j ta + occ j tb + occ j tc → (j ≢ x) × (j ≢ y)
    apart_xy j q =
        (λ e. omega (arith, once j, one_eq j x e, q), λ e. omega (arith, once j, one_eq j y e, q))

    pub Same-sides : (j : ℕ) → 1 ≤ occ j ta + occ j tc → Same m (rotate s x m) j
    Same-sides j q =
        let (jx, jy) = apart_xy j (omega (arith, q)) in
        Same-elsewhere j jx jy (λ nz e. omega (arith, once j, q, occ_eq j tb nz e))
          (λ nz e. omega (arith, once j, q, above_eq j ctx nz e))

    pub middle_moved : Holds m y tb → Holds (rotate s x m) x tb
    middle_moved =
        Holds-moved m (rotate s x m) y x tb
          (λ j q ne.
            let (jx, jy) = apart_xy j (omega (arith, q)) in
            Same-elsewhere j jx jy (λ nz e. ne e)
              (λ nz e. omega (arith, once j, q, above_eq j ctx nz e)))
          turned.b_under (λ nz. ap (λ f. f (top tb)) turned.color)
          (λ t nz. turned.children t (top tb) b_x b_y (λ pz e.
            omega (arith, once (top tb), occ_eq (top tb) tb nz refl, above_eq (top tb) ctx pz e)))
          (λ j. omega (arith, once j))
