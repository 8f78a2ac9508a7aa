-- ===== src/Map/Balance.antt =====
-- The red-black rules, and the order of the nodes, which the moves of the tree keep.
use cpp_lockfree_core.Base.{
  ℕ, suc, ◌≡◌, ◌≢◌, ◌⊎◌, inl, inr, refl, sym, ap₂, List, [], ◌∷◌, ◌++◌, append_assoc,
}
use cpp_lockfree_core.Map.{Color, red, black, Side, left, right}
use cpp_lockfree_core.Map.Shape.{Tree, leaf, node, on, Frame, inorder, plug}

abbrev pub Dark : Tree → Type 0
Dark leaf = Unit {0}
Dark (node i red l r) = ⊥
Dark (node i black l r) = Unit {0}

-- No red node has a red child, and `n` black nodes are on each way down.
abbrev pub Rb : ℕ → Tree → Type 0
Rb n leaf = n ≡ 0
Rb n (node i red l r) = Rb n l × Rb n r × Dark l × Dark r
Rb n (node i black l r) = (k : ℕ) × (n ≡ suc k) × Rb k l × Rb k r

abbrev pub DarkAbove : List Frame → Type 0
DarkAbove [] = ⊥
DarkAbove (f ∷ ctx) = f.col ≡ black

-- A tree with `n` black nodes on each way down may be at the place.
pub data RbAbove : ℕ → List Frame → Type 0 where
  at_root : (n : ℕ) → RbAbove n []
  under_black :
      {n : ℕ} {ctx : List Frame} (s : Side) (i : ℕ) (t : Tree)
      → Rb n t
      → RbAbove (suc n) ctx
      → RbAbove n (record { side = s; at = i; col = black; sibling = t } ∷ ctx)
  under_red :
      {n : ℕ} {ctx : List Frame} (s : Side) (i : ℕ) (t : Tree)
      → Rb n t
      → Dark t
      → DarkAbove ctx
      → RbAbove n ctx
      → RbAbove n (record { side = s; at = i; col = red; sibling = t } ∷ ctx)

pub on-Rb_black :
    (s : Side) (n i : ℕ) (a b : Tree) → Rb n a → Rb n b → Rb (suc n) (on s i black a b)
on-Rb_black left n i a b ha hb = (n, refl, ha, hb)
on-Rb_black right n i a b ha hb = (n, refl, hb, ha)

pub on-Dark : (s : Side) (i : ℕ) (a b : Tree) → Dark (on s i black a b)
on-Dark left i a b = tt
on-Dark right i a b = tt

pub on-Rb_red :
    (s : Side) (n i : ℕ) (a b : Tree) → Rb n a → Rb n b → Dark a → Dark b → Rb n (on s i red a b)
on-Rb_red left n i a b ha hb da db = (ha, hb, da, db)
on-Rb_red right n i a b ha hb da db = (hb, ha, db, da)

-- A red tree may be at the place too.
abbrev pub Roof : List Frame → Type 0
Roof [] = Unit {0}
Roof (f ∷ ctx) = f.col ≡ black

DarkAbove-Roof : (ctx : List Frame) → DarkAbove ctx → Roof ctx
DarkAbove-Roof [] h = tt
DarkAbove-Roof (f ∷ ctx) h = h

red-black : red ≢ black
red-black e = cc

pub plug-Rb :
    (ctx : List Frame) (n : ℕ) (t : Tree)
    → RbAbove n ctx
    → Rb n t
    → Dark t ⊎ Roof ctx
    → (k : ℕ) × Rb k (plug ctx t)
plug-Rb [] n t above h fits = (n, h)
plug-Rb _ n t (under_black {ctx} s i sib hs above) h fits =
    plug-Rb ctx (suc n) (on s i black t sib) above (on-Rb_black s n i t sib h hs)
      (inl (on-Dark s i t sib))
plug-Rb _ n t (under_red {ctx} s i sib hs ds da above) h fits = elim fits [
  | inl dark ↦
      plug-Rb ctx n (on s i red t sib) above (on-Rb_red s n i t sib h hs dark ds)
        (inr (DarkAbove-Roof ctx da))
  | inr roof ↦ absurd (red-black roof)
]

-- A node that `insertFixup` looks at: it is red, and all below it is well.
pub data Raised (n : ℕ) : Tree → ℕ → Type 0 where
  raised : (z : ℕ) (l r : Tree) → Rb n l → Rb n r → Dark l → Dark r → Raised n (node z red l r) z

pub on-Raised :
    (s : Side) (n i : ℕ) (a b : Tree)
    → Rb n a
    → Rb n b
    → Dark a
    → Dark b
    → Raised n (on s i red a b) i
on-Raised left n i a b ha hb da db = raised i a b ha hb da db
on-Raised right n i a b ha hb da db = raised i b a hb ha db da

pub record Halves (n z : ℕ) (s : Side) (t : Tree) : Type 0 where
  pub near : Tree
  pub far : Tree
  pub is : t ≡ on s z red near far
  pub rb_near : Rb n near
  pub rb_far : Rb n far
  pub dark_near : Dark near
  pub dark_far : Dark far

pub Raised-Halves : {n z : ℕ} {t : Tree} (s : Side) → Raised n t z → Halves n z s t
Raised-Halves left (raised z l r hl hr dl dr) = record {
  near = l;
  far = r;
  is = refl;
  rb_near = hl;
  rb_far = hr;
  dark_near = dl;
  dark_far = dr;
}
Raised-Halves right (raised z l r hl hr dl dr) = record {
  near = r;
  far = l;
  is = refl;
  rb_near = hr;
  rb_far = hl;
  dark_near = dr;
  dark_far = dl;
}

pub inorder-on :
    (s : Side) (i : ℕ) (c c' : Color) (a a' b b' : Tree)
    → inorder a ≡ inorder a'
    → inorder b ≡ inorder b'
    → inorder (on s i c a b) ≡ inorder (on s i c' a' b')
inorder-on left i c c' a a' b b' e f = ap₂ (λ x y. x ++ (i ∷ y)) e f
inorder-on right i c c' a a' b b' e f = ap₂ (λ x y. y ++ (i ∷ x)) e f

pub inorder-plug :
    (ctx : List Frame) (t t' : Tree)
    → inorder t ≡ inorder t'
    → inorder (plug ctx t) ≡ inorder (plug ctx t')
inorder-plug [] t t' e = e
inorder-plug (f ∷ ctx) t t' e =
    inorder-plug ctx (on f.side f.at f.col t f.sibling) (on f.side f.at f.col t' f.sibling)
      (inorder-on f.side f.at f.col f.col t t' f.sibling f.sibling e refl)

pub inorder-turn :
    (s : Side) (x y : ℕ) (c c' d d' : Color) (ta tb tc : Tree)
    → inorder (on s y d (on s x c ta tb) tc) ≡ inorder (on s x c' ta (on s y d' tb tc))
inorder-turn left x y c c' d d' ta tb tc =
    append_assoc (inorder ta) (x ∷ inorder tb) (y ∷ inorder tc)
inorder-turn right x y c c' d d' ta tb tc =
    sym (append_assoc (inorder tc) (y ∷ inorder tb) (x ∷ inorder ta))
