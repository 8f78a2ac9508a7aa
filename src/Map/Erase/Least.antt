-- ===== src/Map/Erase/Least.antt =====
-- A node of the tree with what is around it, and the least node of a subtree.
use cpp_lockfree_core.Base.{
  ℕ, zero, suc, ◌≡◌, ◌≢◌, ◌≤◌, ◌<◌, ◌⊎◌, refl, sym, ap, ◌∙◌, subst, true, false, List, [], ◌∷◌,
  ◌++◌, append_assoc, Option, some, arith, ◌==◌, ℕ_discrete,
}
use cpp_lockfree_core.Map.{Map, Color, left, right}
use cpp_lockfree_core.Map.Erase.{minimum}
use cpp_lockfree_core.Map.Shape.{
  Tree, leaf, node, on, Frame, top, one, occ, inorder, plug, Holds, Zip,
}
use cpp_lockfree_core.Map.Keep.{Zip-down}
use cpp_lockfree_core.Map.Fix.{frame, Zip-down_far}
use cpp_lockfree_core.Map.Balance.{Rb, Dark, RbAbove, DarkAbove}
use cpp_lockfree_core.Map.Find.{Deep}
use cpp_lockfree_core.Map.Descend.{children-Down}

-- A node of a tree at a place.
pub record Located {K V : Type 0} (m : Map K V) (i : ℕ) (whole : Tree) : Type 0 where
  pub ctx : List Frame
  pub c : Color
  pub l : Tree
  pub r : Tree
  pub is : plug ctx (node i c l r) ≡ whole
  pub zip : Zip m ctx (node i c l r)
  pub height : ℕ
  pub rules : Rb height (node i c l r)
  pub fits : RbAbove height ctx
  pub dark : Dark (node i c l r) ⊎ DarkAbove ctx

pub locate :
    {K V : Type 0} (m : Map K V) (i h : ℕ) (ctx : List Frame) (t : Tree)
    → 1 ≤ occ i t
    → Zip m ctx t
    → Rb h t
    → RbAbove h ctx
    → Dark t ⊎ DarkAbove ctx
    → Located m i (plug ctx t)
locate m i h ctx leaf q zip rb fits dark = absurd (omega arith)
locate m i h ctx (node j c l r) q zip rb fits dark =
    let step = children-Down c h ctx j l r rb fits dark in
    elim (ℕ_discrete i j) [
      | yes e ↦
          subst (λ x. Located m x (plug ctx (node j c l r))) (sym e)
            (record {
              ctx = ctx;
              c = c;
              l = l;
              r = r;
              is = refl;
              zip = zip;
              height = h;
              rules = rb;
              fits = fits;
              dark = dark;
            })
      | no ne ↦
          let other_node : one i j ≡ 0 = ground (arith, ne) in
          elim (ℕ_discrete (occ i l) 0) [
            | no some_left ↦
                locate m i step.height (frame left j c r ∷ ctx) l (omega (arith, some_left))
                  (Zip-down m ctx left j c l r zip) step.rb_left step.fits_left step.dark_left
            | yes none_left ↦
                locate m i step.height (frame right j c l ∷ ctx) r
                  (omega (arith, q, other_node, none_left)) (Zip-down_far ctx left j c l r m zip)
                  step.rb_right step.fits_right step.dark_right
          ]
    ]

pub plug-append : (a b : List Frame) (t : Tree) → plug (a ++ b) t ≡ plug b (plug a t)
plug-append [] b t = refl
plug-append (f ∷ a) b t = plug-append a b (on f.side f.at f.col t f.sibling)

-- The least node of a subtree, at the end of a way to the left.
pub record Least (ctx : List Frame) (t : Tree) (o : Option ℕ) : Type 0 where
  pub path : List Frame
  pub y : ℕ
  pub d : Color
  pub rest : Tree
  pub found : o ≡ some y
  pub is : plug path (node y d leaf rest) ≡ t
  pub height : ℕ
  pub rules : Rb height (node y d leaf rest)
  pub fits : RbAbove height (path ++ ctx)
  pub order : inorder t ≡ y ∷ inorder (plug path rest)

pub minimum-Least :
    {K V : Type 0} (m : Map K V) (fuel n h p : ℕ) (ctx : List Frame) (t : Tree)
    → top t ≢ 0
    → Deep n t
    → n < fuel
    → Holds m p t
    → Rb h t
    → RbAbove h ctx
    → Dark t ⊎ DarkAbove ctx
    → Least ctx t (minimum fuel m (top t))
unfolding minimum
minimum-Least m zero n h p ctx t nz d few hold rb fits dark = absurd (omega arith)
minimum-Least m (suc fuel) n h p ctx leaf nz d few hold rb fits dark = absurd (nz refl)
minimum-Least m (suc fuel) zero h p ctx (node i c l r) nz d few hold rb fits dark = absurd d
minimum-Least m (suc fuel) (suc n) h p ctx (node i c leaf r) nz d few hold rb fits dark =
    let e : m.child left i == 0 ≡ true = rw (hold.3) (ground arith) in
    record {
      path = [];
      y = i;
      d = c;
      rest = r;
      found = rw (minimum, e) refl;
      is = refl;
      height = h;
      rules = rb;
      fits = fits;
      order = refl;
    }
minimum-Least m (suc fuel) (suc n) h p ctx (node i c (node j b x y) r) nz d few hold rb fits dark =
    let l = node j b x y in
    let step = children-Down c h ctx i l r rb fits dark in
    let e : m.child left i == 0 ≡ false = rw (hold.3) (ground (arith, hold.5.0)) in
    let low =
      minimum-Least m fuel n step.height i (frame left i c r ∷ ctx) l hold.5.0 d.0 (omega arith)
        hold.5 step.rb_left step.fits_left step.dark_left in
    let f = frame left i c r in
    record {
      path = low.path ++ (f ∷ []);
      y = low.y;
      d = low.d;
      rest = low.rest;
      found = rw (minimum, e, hold.3) low.found;
      is =
          plug-append low.path (f ∷ []) (node low.y low.d leaf low.rest)
          ∙ ap (λ t. node i c t r) low.is;
      height = low.height;
      rules = low.rules;
      fits = subst (RbAbove low.height) (sym (append_assoc low.path (f ∷ []) ctx)) low.fits;
      order =
          ap (λ z. z ++ (i ∷ inorder r)) low.order
          ∙ ap (λ t. low.y ∷ inorder t) (sym (plug-append low.path (f ∷ []) low.rest));
    }
