-- ===== src/Map/Erase/Lift.antt =====
-- The least node to the right of a node is taken out of its place.
use cpp_lockfree_core.Base.{
  ℕ, ◌+◌, ◌≡◌, ◌≢◌, ◌≤◌, refl, sym, ap, ◌∙◌, subst, true, false, List, [], ◌∷◌, ◌++◌, arith, ◌==◌,
  ℕ_discrete,
}
use cpp_lockfree_core.Family.{update, update_self, update_ne}
use cpp_lockfree_core.Map.{Map, Color, left, right, hang, adopt}
use cpp_lockfree_core.Map.Erase.{transplant, lift_out}
use cpp_lockfree_core.Map.Shape.{
  Tree, leaf, node, Frame, above, top, one, occ, occ_above, plug, Holds, Zip, one_self,
}
use cpp_lockfree_core.Map.Keep.{Zip-up}
use cpp_lockfree_core.Map.Fix.{frame, Zip-down_far}
use cpp_lockfree_core.Map.Rotate.{Keeps, Keeps-refl, set_child_self, set_child_ne}
use cpp_lockfree_core.Map.Turn.{one_eq}
use cpp_lockfree_core.Map.Descend.{occ-plug}
use cpp_lockfree_core.Map.Erase.Colors.{top-plug-above}
use cpp_lockfree_core.Map.Erase.Transplant.{
  Moved, transplant-Moved, Zip-down_path, Zip-up_path, Holds-real,
}
use cpp_lockfree_core.Map.Erase.Swap.{Prepared, Around, Swapped}

pub occ_above-append :
    (j : ℕ) (a b : List Frame) → occ_above j (a ++ b) ≡ occ_above j a + occ_above j b
occ_above-append j [] b = omega arith
occ_above-append j (f ∷ a) b = omega (arith, occ_above-append j a b)

pub ne_test : (a b : ℕ) → a ≢ b → a == b ≡ false
ne_test a b ne = ground (arith, ne)

under_top :
    {K V : Type 0} (m : Map K V) (p : ℕ) (t : Tree) → Holds m p t → top t ≢ 0 → m.parent (top t) ≡ p
under_top m p leaf h nz = absurd (nz refl)
under_top m p (node i c l r) h nz = h.2

-- `y`, below whose place there is `rest`, is no longer a node of the tree, which is that of `base`
-- but for what `y` is given.
pub record Lifted {K V : Type 0} (m m0 : Map K V) (ctx : List Frame) (z y : ℕ) (c : Color)
    (l rest : Tree) (path : List Frame) : Type 0 where
  pub base : Map K V
  pub prep : Prepared base m0 y (plug path rest)
  pub around : Around base ctx z y c l (plug path rest)
  pub keeps : Keeps m base
  pub nil : base.color 0 ≡ m.color 0
  pub under :
      (m' : Map K V)
      → Swapped base m' ctx y c l (plug path rest)
      → m'.parent (top rest) ≡ above (path ++ (frame right y c l ∷ ctx))

module _ {K V : Type 0} (m : Map K V) (ctx : List Frame) (z y : ℕ) (c d : Color) (l r rest : Tree)
    (zip : Zip m ctx (node z c l r)) (real_l : top l ≢ 0) where
  -- `y` is the right child of `z`.
  child-Lifted :
      Zip m (frame right z c l ∷ ctx) (node y d leaf rest)
      → Lifted m (lift_out m z y (m.child right y)) ctx z y c l rest []
  unfolding lift_out
  child-Lifted zy =
      let (nz, cz, uz, lz, rz, hl, hr) = zip.here in
      let (ny, cy, uy, ly, ry, _, hrest) = zy.here in
      let test : m.parent y == z ≡ true = ground (arith, uy) in
      rw (lift_out, test)
        (record {
          base = m;
          prep = record {
            keeps = record { key = refl; value = refl; count = refl; fresh = refl };
            color = refl;
            root = refl;
            right_y = ry;
            children = λ t j ne. refl;
            r_under =
                subst (λ i. update m.parent i y (top rest) ≡ y) (sym ry)
                  (update_self m.parent (top rest) y);
            parents = λ j ne. update_ne m.parent (m.child right y) y j (λ q. ne (q ∙ ry));
          };
          around = record {
            real_y = ny;
            real_z = nz;
            color_z = cz;
            under_z = uz;
            left_z = lz;
            real_l = real_l;
            holds_l = hl;
            p = y;
            holds_r = hrest;
            around = zip.around;
            once = λ j. omega (arith, zy.once j);
          };
          keeps = Keeps-refl m;
          nil = refl;
          under = λ m' s. s.r_under;
        })

  module _ (f : Frame) (path : List Frame)
      (zy : Zip m ((f ∷ path) ++ (frame right z c l ∷ ctx)) (node y d leaf rest)) where
    abbrev all : List Frame
    all = f ∷ path

    once_all :
        (j : ℕ) → occ_above j all + one j z + occ j l + occ_above j ctx + one j y + occ j rest ≤ 1
    once_all j = omega (arith, zy.once j, occ_above-append j all (frame right z c l ∷ ctx))

    abbrev m2 : Map K V
    m2 = transplant m y (top rest)

    mv : Moved m m2 (all ++ (frame right z c l ∷ ctx)) rest
    mv = transplant-Moved m (all ++ (frame right z c l ∷ ctx)) left y d rest zy

    Zip-at_z : Zip m2 ctx (node z c l (plug all rest))
    Zip-at_z =
        Zip-up m2 ctx (frame right z c l) (plug all rest)
          (Zip-up_path m2 all (frame right z c l ∷ ctx) rest mv.zip)

    real_r : top (plug all rest) ≢ 0
    real_r =
        let i = top (plug all rest) in
        Holds-real m2 z (plug all rest) Zip-at_z.here.6 i
          (omega (arith, top-plug-above f path rest, occ-plug i all rest))

    abbrev m3 : Map K V
    m3 = hang m2 right y (m2.child right z)

    hung : m3.child right y ≡ top (plug all rest)
    hung = set_child_self m2.child y (m2.child right z) right ∙ Zip-at_z.here.4

    lifted_is : lift_out m z y (m.child right y) ≡ adopt m3 (m3.child right y) y
    unfolding lift_out
    lifted_is =
        let ry = zy.here.4 in
        let ne : f.at ≢ z = λ e. omega (arith, once_all z, one_self z, one_eq z f.at (sym e)) in
        let test : m.parent y == z ≡ false = ap (λ i. i == z) zy.here.2 ∙ ne_test f.at z ne in
        rw (lift_out, test, ry) refl

    -- `y` is further down.
    below-Lifted : Lifted m (lift_out m z y (m.child right y)) ctx z y c l rest all
    below-Lifted =
        let (nz, cz, uz, lz, rz, hl, hr) = Zip-at_z.here in
        subst (λ x. Lifted m x ctx z y c l rest all) (sym lifted_is)
          (record {
            base = m2;
            prep = record {
              keeps = record { key = refl; value = refl; count = refl; fresh = refl };
              color = refl;
              root = refl;
              right_y = hung;
              children = λ t j ne. set_child_ne m2.child y (m2.child right z) right t j ne;
              r_under =
                  subst (λ i. update m2.parent i y (top (plug all rest)) ≡ y) (sym hung)
                    (update_self m2.parent (top (plug all rest)) y);
              parents = λ j ne. update_ne m2.parent (m3.child right y) y j (λ q. ne (q ∙ hung));
            };
            around = record {
              real_y = zy.here.0;
              real_z = nz;
              color_z = cz;
              under_z = uz;
              left_z = lz;
              real_l = real_l;
              holds_l = hl;
              p = z;
              holds_r = hr;
              around = Zip-at_z.around;
              once = λ j. omega (arith, once_all j, occ-plug j all rest);
            };
            keeps = mv.keeps;
            nil = ap (λ k. k 0) mv.color;
            under = λ m' s. elim (ℕ_discrete (top rest) 0) [
              | yes q ↦ ap m'.parent q ∙ s.sentinel real_r ∙ ap m2.parent (sym q) ∙ mv.under
              | no nz ↦
                  let up = frame right y c l ∷ ctx in
                  let below =
                    Zip-down_path m' all up rest
                      (Zip-down_far ctx left y c l (plug all rest) m' s.zip) in
                  under_top m' (above (all ++ up)) rest below.here nz
            ];
          })

  pub lift_out-Lifted :
      (path : List Frame)
      → Zip m (path ++ (frame right z c l ∷ ctx)) (node y d leaf rest)
      → Lifted m (lift_out m z y (m.child right y)) ctx z y c l rest path
  lift_out-Lifted [] zy = child-Lifted zy
  lift_out-Lifted (f ∷ path) zy = below-Lifted f path zy
