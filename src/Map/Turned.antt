-- ===== src/Map/Turned.antt =====
-- A rotation turns two nodes of the tree and nothing else.
use cpp_lockfree_core.Base.{ℕ, ◌+◌, ◌≡◌, ◌≢◌, ◌≤◌, refl, sym, ap, ◌∙◌, subst, List, [], ◌∷◌, arith}
use cpp_lockfree_core.Map.{Map, Color, Side, other, rotate}
use cpp_lockfree_core.Map.Shape.{
  Tree, on, Frame, top, above, one, occ, occ_above, Holds, Above, Zip, At-Holds, top-on, occ-on,
  one_self, above-occ,
}
use cpp_lockfree_core.Map.Keep.{Same, Holds-Same, Above-Same}
use cpp_lockfree_core.Map.Rotate.{Keeps}
use cpp_lockfree_core.Map.Turn.{
  one_eq, occ_eq, before_turn, after_turn, upper, lower, once, p_x, p_y, turned, Same-elsewhere,
  Same-sides, middle_moved,
}

pub Above-turned :
    {K V : Type 0} (m m' : Map K V) (ctx : List Frame) (x y : ℕ)
    → Above m ctx x
    → ((j : ℕ) → occ_above j ctx + one j x ≤ 1)
    → x ≢ 0
    → (above ctx ≡ 0 → m'.root ≡ y)
    → (above ctx ≢ 0 → m'.root ≡ m.root)
    → (above ctx ≢ 0
        → (t : Side) → m.child t (above ctx) ≡ x
        → m.child (other t) (above ctx) ≢ x
        → (m'.child t (above ctx) ≡ y)
          × (m'.child (other t) (above ctx) ≡ m.child (other t) (above ctx)))
    → (above ctx ≢ 0 → m'.color (above ctx) ≡ m.color (above ctx))
    → (above ctx ≢ 0 → m'.parent (above ctx) ≡ m.parent (above ctx))
    → ((j : ℕ) → 1 ≤ occ_above j ctx → j ≢ above ctx → Same m m' j)
    → Above m' ctx y
Above-turned m m' [] x y h once nz root _ _ _ _ _ = root refl
Above-turned m m' (f ∷ ctx) x y (r, k, u, n, b, hs, rest) once nz _ root at color parent same =
    let only : m.child (other f.side) f.at ≢ x = λ e.
      let q : x ≡ top f.sibling = sym e ∙ b in
      omega (arith, once x, one_self x, occ_eq x f.sibling (λ z. nz (q ∙ z)) q) in
    let (here, there) = at r f.side n only in
    let apart : (j : ℕ) → 1 ≤ occ j f.sibling + occ_above j ctx → j ≢ f.at =
      λ j q e. omega (arith, once j, one_eq j f.at e, q) in
    (
      r,
      color r ∙ k,
      parent r ∙ u,
      here,
      there ∙ b,
      Holds-Same m m' f.at f.sibling (λ j q. same j (omega (arith, q)) (apart j (omega (arith, q))))
          hs,
      Above-Same m m' ctx f.at (root r)
          (λ j q. same j (omega (arith, q)) (apart j (omega (arith, q)))) rest,
    )

module _ {K V : Type 0} (m : Map K V) (ctx : List Frame) (s : Side) (x y : ℕ) (c d : Color)
    (ta tb tc : Tree) (z : Zip m ctx (before_turn m ctx s x y c d ta tb tc)) where
  pub rotate-Zip : Zip (rotate s x m) ctx (after_turn m ctx s x y c d ta tb tc)
  rotate-Zip =
      let m' = rotate s x m in
      let t = turned m ctx s x y c d ta tb tc z in
      let hx = upper m ctx s x y c d ta tb tc z in
      let hy = lower m ctx s x y c d ta tb tc z in
      let single = once m ctx s x y c d ta tb tc z in
      let side = Same-sides m ctx s x y c d ta tb tc z in
      let lower : Holds m' y (on s x c ta tb) = At-Holds m' y s x c ta tb (record {
        real = hx.real;
        colored = ap (λ f. f x) t.color ∙ hx.colored;
        under = t.x_under;
        near = t.x_near ∙ hx.near;
        far = t.x_far;
        holds_near = Holds-Same m m' x ta (λ j q. side j (omega (arith, q))) hx.holds_near;
        holds_far = middle_moved m ctx s x y c d ta tb tc z hy.holds_near;
      }) in
      record {
        here = At-Holds m' (above ctx) s y d (on s x c ta tb) tc (record {
          real = hy.real;
          colored = ap (λ f. f y) t.color ∙ hy.colored;
          under = t.y_under;
          near = t.y_near ∙ sym (top-on s x c ta tb);
          far = t.y_far ∙ hy.far;
          holds_near = lower;
          holds_far = Holds-Same m m' y tc (λ j q. side j (omega (arith, q))) hy.holds_far;
        });
        around = subst (Above m' ctx) (sym (top-on s y d (on s x c ta tb) tc)) (
            Above-turned m m' ctx x y
              (subst (Above m ctx) (top-on s x c ta (on s y d tb tc)) z.around)
              (λ j. omega (arith, single j)) hx.real t.root_none t.root_some t.at_parent
              (λ _. ap (λ f. f (above ctx)) t.color)
              (λ nz.
                t.parents (above ctx) (p_x m ctx s x y c d ta tb tc z)
                  (p_y m ctx s x y c d ta tb tc z)
                  (λ bz e.
                    omega
                      (arith, single (above ctx), above-occ ctx nz, occ_eq (above ctx) tb bz e)))
              (λ j q ne.
                Same-elsewhere m ctx s x y c d ta tb tc z j
                  (λ e. omega (arith, single j, one_eq j x e, q))
                  (λ e. omega (arith, single j, one_eq j y e, q))
                  (λ bz e. omega (arith, single j, occ_eq j tb bz e, q)) (λ _. ne)));
        once =
            λ j. omega (arith, single j, occ-on j s y d (on s x c ta tb) tc, occ-on j s x c ta tb);
      }

  pub rotate-Keeps : Keeps m (rotate s x m)
  rotate-Keeps = (turned m ctx s x y c d ta tb tc z).keeps

  pub rotate_color : (rotate s x m).color ≡ m.color
  rotate_color = (turned m ctx s x y c d ta tb tc z).color

  pub rotate_sentinel : (rotate s x m).parent 0 ≡ m.parent 0
  rotate_sentinel =
      let a = upper m ctx s x y c d ta tb tc z in
      let b = lower m ctx s x y c d ta tb tc z in
      (turned m ctx s x y c d ta tb tc z).parents 0 (λ e. a.real (sym e)) (λ e. b.real (sym e))
        (λ nz e. nz (sym e))
