-- ===== src/Map/Erase/Round.antt =====
-- A round of `eraseFixup` makes good the missing black node, or moves up the place where it is missing.
use cpp_lockfree_core.Base.{
  ℕ, suc, ◌≡◌, ◌<◌, ◌⊎◌, inl, inr, refl, sym, ap, ◌∙◌, List, [], ◌∷◌, arith, length,
}
use cpp_lockfree_core.Map.{Map, Color, red, black, Side, left, right, other, paint}
use cpp_lockfree_core.Map.Erase.{finish}
use cpp_lockfree_core.Map.Shape.{
  Tree, leaf, node, on, Frame, above, top, inorder, plug, Zip, top-on, Holds-At,
}
use cpp_lockfree_core.Map.Keep.{Zip-up, paint-Zip}
use cpp_lockfree_core.Map.Fix.{frame, Zip-down_far, Zip-up_far, Zip-real}
use cpp_lockfree_core.Map.Loop.{Zip-plug}
use cpp_lockfree_core.Map.Balance.{
  Rb, Dark, RbAbove, DarkAbove, Roof, Raised, raised, on-Rb_black, on-Rb_red, on-Dark, plug-Rb,
  inorder-on, inorder-plug, inorder-turn,
}
use cpp_lockfree_core.Map.Erase.Colors.{Quiet, paint-Quiet, Deficit, short, red_top}
use cpp_lockfree_core.Map.Erase.Finish.{finish-Lowered}

abbrev pub RedTop : Tree → Type 0
RedTop leaf = ⊥
RedTop (node i red l r) = Unit {0}
RedTop (node i black l r) = ⊥

-- The place where a black node is missing.
pub record Place {K V : Type 0} (m' : Map K V) (x' : ℕ) (old : List ℕ) (room : ℕ) : Type 0 where
  pub n : ℕ
  pub ctx : List Frame
  pub t : Tree
  pub zip : Zip m' ctx t
  pub lacks : Deficit n t
  pub fits : RbAbove (suc n) ctx
  pub under : m'.parent (top t) ≡ above ctx
  pub is : x' ≡ top t
  pub order : inorder (plug ctx t) ≡ old
  pub nearer : (length ctx < room) ⊎ RedTop t

-- No black node is missing.
pub record Whole {K V : Type 0} (m' : Map K V) (x' : ℕ) (old : List ℕ) : Type 0 where
  pub t : Tree
  pub zip : Zip m' [] t
  pub height : ℕ
  pub rules : Rb height t
  pub is : x' ≡ m'.root
  pub order : inorder t ≡ old

pub data After {K V : Type 0} (m : Map K V) (old : List ℕ) (room : ℕ) : Map K V × ℕ → Type 0 where
  still_missing :
      {m' : Map K V} {x' : ℕ} → Quiet m m' → Place m' x' old room → After m old room (m', x')
  made_good : {m' : Map K V} {x' : ℕ} → Quiet m m' → Whole m' x' old → After m old room (m', x')

-- How the parent of a black sibling fits.
pub data Parent (n room : ℕ) : Color → List Frame → Type 0 where
  black_parent :
      {ctx : List Frame}
      → RbAbove (suc (suc n)) ctx
      → length ctx < suc room
      → Parent n room black ctx
  red_parent : {ctx : List Frame} → DarkAbove ctx → RbAbove (suc n) ctx → Parent n room red ctx

DarkAbove-Roof : (ctx : List Frame) → DarkAbove ctx → Roof ctx
DarkAbove-Roof [] h = tt
DarkAbove-Roof (f ∷ ctx) h = h

Parent-plug :
    {n room : ℕ} {cp : Color} {ctx : List Frame} (s : Side) (w : ℕ) (a b : Tree)
    → Parent n room cp ctx
    → Rb (suc n) a
    → Rb (suc n) b
    → Dark a
    → Dark b
    → (k : ℕ) × Rb k (plug ctx (on s w cp a b))
Parent-plug {n} s w a b (black_parent {ctx} fits space) ha hb da db =
    plug-Rb ctx (suc (suc n)) (on s w black a b) fits (on-Rb_black s (suc n) w a b ha hb)
      (inl (on-Dark s w a b))
Parent-plug {n} s w a b (red_parent {ctx} dark fits) ha hb da db =
    plug-Rb ctx (suc n) (on s w red a b) fits (on-Rb_red s (suc n) w a b ha hb da db)
      (inr (DarkAbove-Roof ctx dark))

module _ {K V : Type 0} (m : Map K V) (nil : m.color 0 ≡ black) (ctx : List Frame) (s : Side)
    (p w n : ℕ) (cp : Color) (t : Tree) (under : m.parent (top t) ≡ p) (rb_t : Rb n t)
    (dark_t : Dark t) (room : ℕ) (parent : Parent n room cp ctx) where
  -- Both children of the sibling are black.
  pub both_black :
      (wn wf : Tree)
      → Zip m (frame s p cp (on s w black wn wf) ∷ ctx) t
      → Rb n wn
      → Rb n wf
      → Dark wn
      → Dark wf
      → After m
          (inorder (plug ctx (on s p cp t (on s w black wn wf))))
          (suc room)
          (paint m w red, p)
  both_black wn wf zip hn hf dn df =
      let sib = on s w black wn wf in
      let sib' = on s w red wn wf in
      let m1 = paint m w red in
      let z1 = Zip-down_far ctx s p cp t sib m (Zip-up m ctx (frame s p cp sib) t zip) in
      let around = frame (other s) p cp t ∷ ctx in
      let z2 = paint-Zip m around s w black red wn wf z1 in
      let z3 = Zip-up_far ctx s p cp t sib' m1 z2 in
      let real = Zip-real m around s w black wn wf z1 in
      let up : m1.parent (top (on s p cp t sib')) ≡ above ctx =
        ap m1.parent (top-on s p cp t sib')
        ∙ (Holds-At m1 (above ctx) s p cp t sib' z3.here).under in
      let order =
        inorder-plug ctx (on s p cp t sib') (on s p cp t sib) (
          inorder-on s p cp cp t t sib' sib refl
            (inorder-on s w red black wn wn wf wf refl refl)) in
      still_missing (paint-Quiet m w red real) (by_color cp parent z3 up order)
    where
      rb_sib : Rb n (on s w red wn wf)
      rb_sib = on-Rb_red s n w wn wf hn hf dn df

      by_color :
          (c : Color)
          → Parent n room c ctx
          → Zip (paint m w red) ctx (on s p c t (on s w red wn wf))
          → m.parent (top (on s p c t (on s w red wn wf))) ≡ above ctx
          → inorder (plug ctx (on s p c t (on s w red wn wf)))
            ≡ inorder (plug ctx (on s p cp t (on s w black wn wf)))
          → Place
              (paint m w red)
              p
              (inorder (plug ctx (on s p cp t (on s w black wn wf))))
              (suc room)
      by_color black (black_parent fits space) z up order = record {
        n = suc n;
        ctx = ctx;
        t = on s p black t (on s w red wn wf);
        zip = z;
        lacks =
            short (on s p black t (on s w red wn wf))
              (on-Rb_black s n p t (on s w red wn wf) rb_t rb_sib)
              (on-Dark s p t (on s w red wn wf));
        fits = fits;
        under = up;
        is = sym (top-on s p black t (on s w red wn wf));
        order = order;
        nearer = inl (omega (arith, space));
      }
      by_color red (red_parent dark fits) z up order = record {
        n = n;
        ctx = ctx;
        t = on s p red t (on s w red wn wf);
        zip = z;
        lacks = red_on s;
        fits = fits;
        under = up;
        is = sym (top-on s p red t (on s w red wn wf));
        order = order;
        nearer = inr (red_at s);
      }
        where
          red_at : (s' : Side) → RedTop (on s' p red t (on s w red wn wf))
          red_at left = tt
          red_at right = tt

          red_on : (s' : Side) → Deficit n (on s' p red t (on s w red wn wf))
          red_on left = red_top p t (on s w red wn wf) rb_t rb_sib
          red_on right = red_top p (on s w red wn wf) t rb_sib rb_t

  -- The far child is red.
  pub far_red :
      (wn wf : Tree) (f : ℕ)
      → Zip m (frame s p cp (on s w black wn wf) ∷ ctx) t
      → Rb n wn
      → Raised n wf f
      → Whole
          (finish s m (top t))
          (finish s m (top t)).root
          (inorder (plug ctx (on s p cp t (on s w black wn wf))))
        × Quiet m (finish s m (top t))
  far_red wn _ _ zip hn (raised f fl fr hl hr dl dr) =
      let r = finish-Lowered m ctx s p w cp t under f fl fr wn zip in
      let u = on s w cp (on s p black t wn) (node f black fl fr) in
      let (k, rules) =
        Parent-plug s w (on s p black t wn) (node f black fl fr) parent
          (on-Rb_black s n p t wn rb_t hn) (n, refl, hl, hr) (on-Dark s p t wn) tt in
      (
        record {
          t = plug ctx u;
          zip = Zip-plug (finish s m (top t)) ctx u r.zip;
          height = k;
          rules = rules;
          is = refl;
          order = inorder-plug ctx u (on s p cp t (on s w black wn (node f red fl fr))) (
              inorder-on s w cp cp (on s p black t wn) (on s p black t wn) (node f black fl fr)
                (node f red fl fr) refl refl
              ∙ inorder-turn s p w black cp cp black t wn (node f red fl fr));
        },
        r.quiet,
      )
