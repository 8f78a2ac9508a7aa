-- ===== src/Map/Erase/Both.antt =====
-- A node with two children is taken out of the tree by `erase`.
use cpp_lockfree_core.Base.{
  ℕ, suc, ◌⊎◌, ◌-◌, ◌≡◌, ◌≢◌, ◌≤◌, ◌<◌, refl, sym, ap, ap₂, ◌∙◌, subst, List, [], ◌∷◌, ◌++◌, some,
  arith, length, length-append, append_assoc,
}
use cpp_lockfree_core.Map.{Map, Color, black, Side, left, right}
use cpp_lockfree_core.Map.Erase.{lift_out, put_in, fix_if_black, uncount, erase_node, minimum}
use cpp_lockfree_core.Map.Shape.{Tree, leaf, node, Frame, top, inorder, plug, Zip}
use cpp_lockfree_core.Map.Balance.{Rb, Dark, RbAbove, under_black, under_red, DarkAbove}
use cpp_lockfree_core.Map.Fix.{frame, Zip-down_far}
use cpp_lockfree_core.Map.Rotate.{Keeps-trans}
use cpp_lockfree_core.Map.Find.{Deep-size}
use cpp_lockfree_core.Map.Descend.{before, after, inorder-around, children-Down}
use cpp_lockfree_core.Map.Attach.{length-around}
use cpp_lockfree_core.Map.Loop.{Fixed}
use cpp_lockfree_core.Map.Erase.Transplant.{Zip-down_path}
use cpp_lockfree_core.Map.Erase.Swap.{put_in-Swapped}
use cpp_lockfree_core.Map.Erase.Least.{minimum-Least, plug-append}
use cpp_lockfree_core.Map.Erase.Unlink.{
  Gap, red_gap, black_gap, on-Gap, fix_if_black-Fixed, Removed, Fixed-Removed,
}
use cpp_lockfree_core.Map.Erase.Lift.{lift_out-Lifted, ne_test}

DarkAbove-renamed :
    (path ctx : List Frame) (s : Side) (z y : ℕ) (c : Color) (l : Tree)
    → DarkAbove (path ++ (frame s z c l ∷ ctx))
    → DarkAbove (path ++ (frame s y c l ∷ ctx))
DarkAbove-renamed [] ctx s z y c l h = h
DarkAbove-renamed (f ∷ path) ctx s z y c l h = h

-- The rules do not depend on the address of a node above.
RbAbove-renamed :
    (path ctx : List Frame) (s : Side) (z y : ℕ) (c : Color) (l : Tree) (n : ℕ)
    → RbAbove n (path ++ (frame s z c l ∷ ctx))
    → RbAbove n (path ++ (frame s y c l ∷ ctx))
RbAbove-renamed [] ctx s z y _ l n (under_black _ _ _ h up) = under_black s y l h up
RbAbove-renamed [] ctx s z y _ l n (under_red _ _ _ h d da up) = under_red s y l h d da up
RbAbove-renamed (_ ∷ path) ctx s z y c l n (under_black t i sib h up) =
    under_black t i sib h (RbAbove-renamed path ctx s z y c l (suc n) up)
RbAbove-renamed (_ ∷ path) ctx s z y c l n (under_red t i sib h d da up) =
    under_red t i sib h d (DarkAbove-renamed path ctx s z y c l da)
      (RbAbove-renamed path ctx s z y c l n up)

Gap-renamed :
    (path ctx : List Frame) (s : Side) (z y : ℕ) (c d : Color) (l t : Tree)
    → Gap (path ++ (frame s z c l ∷ ctx)) t d
    → Gap (path ++ (frame s y c l ∷ ctx)) t d
Gap-renamed path ctx s z y c _ l t (red_gap {n} h d up) =
    red_gap h d (RbAbove-renamed path ctx s z y c l n up)
Gap-renamed path ctx s z y c _ l t (black_gap {n} h up) =
    black_gap h (RbAbove-renamed path ctx s z y c l (suc n) up)

length-renamed :
    (path ctx : List Frame) (s : Side) (z y : ℕ) (c : Color) (l : Tree)
    → length (path ++ (frame s z c l ∷ ctx)) ≡ length (path ++ (frame s y c l ∷ ctx))
length-renamed [] ctx s z y c l = refl
length-renamed (f ∷ path) ctx s z y c l = ap suc (length-renamed path ctx s z y c l)

pub regroup : (a l r b : List ℕ) → a ++ ((l ++ r) ++ b) ≡ (a ++ l) ++ (r ++ b)
regroup a l r b = ap (λ x. a ++ x) (append_assoc l r b) ∙ sym (append_assoc a l (r ++ b))

-- No way down has more nodes than the tree.
pub few_above :
    (ctx : List Frame) (t whole : Tree) → plug ctx t ≡ whole → length ctx ≤ length (inorder whole)
few_above ctx t whole e =
    let size =
      ap length (ap inorder (sym e) ∙ inorder-around ctx t)
      ∙ length-append (before ctx) (inorder t ++ after ctx) in
    omega (arith, length-around ctx, size, length-append (inorder t) (after ctx))

module _ {K V : Type 0} (fuel : ℕ) (m : Map K V) (ctx : List Frame) (z : ℕ) (c : Color) (l r : Tree)
    (nil : m.color 0 ≡ black) (zip : Zip m ctx (node z c l r)) (real_l : top l ≢ 0) where
  -- `y` takes the place of `z`, and what is missing is made good.
  swapped :
      (path : List Frame) (y : ℕ) (d : Color) (rest : Tree) (h : ℕ)
      → Zip m (path ++ (frame right z c l ∷ ctx)) (node y d leaf rest)
      → Rb h (node y d leaf rest)
      → RbAbove h (path ++ (frame right z c l ∷ ctx))
      → length (path ++ (frame right z c l ∷ ctx)) < fuel
      → (m' : Map K V) × (uncount (
            fix_if_black fuel
              (m.color y)
              (put_in (lift_out m z y (m.child right y)) z y)
              (m.child right y))
          ≡ some m')
        × Removed m m' (inorder (plug ctx (node y c l (plug path rest))))
  swapped path y d rest h zy rules fits few =
      let r2 = plug path rest in
      let a = lift_out-Lifted m ctx z y c d l r rest zip real_l path zy in
      let m0 = lift_out m z y (m.child right y) in
      let m1 = put_in m0 z y in
      let s = put_in-Swapped a.base m0 ctx z y c l r2 a.prep a.around in
      let up = frame right y c l ∷ ctx in
      let below = Zip-down_path m1 path up rest (Zip-down_far ctx left y c l r2 m1 s.zip) in
      let gap =
        Gap-renamed path ctx right z y c d l rest
          (on-Gap left y d rest h (path ++ (frame right z c l ∷ ctx)) rules fits) in
      let (m', ends, fixed) =
        fix_if_black-Fixed fuel m1 (path ++ up) rest d (s.nil ∙ a.nil ∙ nil) below gap
          (a.under m1 s) (omega (arith, few, length-renamed path ctx right z y c l)) in
      (
        record m' { count = m'.count - 1 },
        ap₂ (λ k x. uncount (fix_if_black fuel k m1 x)) zy.here.1 zy.here.4 ∙ ap uncount ends,
        Fixed-Removed m m1 m' (inorder (plug ctx (node y c l r2))) (Keeps-trans a.keeps s.keeps)
            (subst (λ t. Fixed m1 m' (inorder t)) (plug-append path up rest) fixed),
      )

  both_children :
      (y : ℕ)
      → m.child left z ≢ 0
      → m.child right z ≢ 0
      → minimum fuel m (m.child right z) ≡ some y
      → erase_node fuel m z
        ≡ uncount (
            fix_if_black fuel
              (m.color y)
              (put_in (lift_out m z y (m.child right y)) z y)
              (m.child right y))
  unfolding erase_node
  both_children y hl hr least =
      rw (erase_node, ne_test (m.child left z) 0 hl, ne_test (m.child right z) 0 hr, least) refl

  -- Taking out a node with two children ends, with fuel for more rounds than there are nodes, in a
  -- red-black tree of the other nodes in their order.
  pub erase_both-Removed :
      (n : ℕ)
      → top r ≢ 0
      → Rb n (node z c l r)
      → RbAbove n ctx
      → Dark (node z c l r) ⊎ DarkAbove ctx
      → length (inorder (plug ctx (node z c l r))) < fuel
      → (m' : Map K V) × (erase_node fuel m z ≡ some m')
        × Removed m m' ((before ctx ++ inorder l) ++ (inorder r ++ after ctx))
  erase_both-Removed n real_r rb fits dark few =
      let step = children-Down c n ctx z l r rb fits dark in
      let h = zip.here in
      let up = frame right z c l ∷ ctx in
      let whole = plug ctx (node z c l r) in
      let size : length (inorder r) ≤ length (inorder whole) = below_size in
      let low =
        minimum-Least m fuel (length (inorder r)) step.height z up r real_r (Deep-size r)
          (omega (arith, few, size)) h.6 step.rb_right step.fits_right step.dark_right in
      let least = node low.y low.d leaf low.rest in
      let zy =
        Zip-down_path m low.path up least
          (subst (Zip m up) (sym low.is) (Zip-down_far ctx left z c l r m zip)) in
      let same : plug (low.path ++ up) least ≡ whole =
        plug-append low.path up least ∙ ap (plug up) low.is in
      let (m', ends, removed) =
        swapped low.path low.y low.d low.rest low.height zy low.rules low.fits
          (omega (arith, few, few_above (low.path ++ up) least whole same)) in
      let order =
        inorder-around ctx (node low.y c l (plug low.path low.rest))
        ∙ regroup (before ctx) (inorder l) (low.y ∷ inorder (plug low.path low.rest)) (after ctx)
        ∙ ap (λ x. (before ctx ++ inorder l) ++ (x ++ after ctx)) (sym low.order) in
      (
        m',
        both_children low.y (λ e. real_l (sym h.3 ∙ e)) (λ e. real_r (sym h.4 ∙ e))
              (ap (minimum fuel m) h.4 ∙ low.found)
            ∙ ends,
        subst (Removed m m') order removed,
      )
    where
      below_size : length (inorder r) ≤ length (inorder (plug ctx (node z c l r)))
      below_size = omega (
        arith,
        ap length (inorder-around ctx (node z c l r)),
        length-append (before ctx) (inorder (node z c l r) ++ after ctx),
        length-append (inorder (node z c l r)) (after ctx),
        length-append (inorder l) (z ∷ inorder r),
      )
