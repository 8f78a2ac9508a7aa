-- ===== src/Map/Erase/Unlink.antt =====
-- A node with at most one child is taken out of the tree by `erase`.
use cpp_lockfree_core.Base.{
  ℕ, suc, [], ◌-◌, ◌==◌, arith, true, false, Bool-cases, inr, ◌≡◌, ◌<◌, refl, sym, ap, ◌∙◌, subst,
  List, length, some, inl,
}
use cpp_lockfree_core.Map.{Map, Color, red, black, Side, left, right, other}
use cpp_lockfree_core.Map.Rotate.{Keeps}
use cpp_lockfree_core.Map.Attach.{Zip-Same}
use cpp_lockfree_core.Map.Shape.{
  Tree, leaf, node, on, Frame, above, top, inorder, plug, Zip, Holds-At,
}
use cpp_lockfree_core.Map.Balance.{Rb, Dark, RbAbove, plug-Rb}
use cpp_lockfree_core.Map.Loop.{Fixed, Zip-plug}
use cpp_lockfree_core.Map.Erase.{transplant, fix_if_black, uncount, erase_node}
use cpp_lockfree_core.Map.Erase.Colors.{Deficit, short, red_top, plug-Dark}
use cpp_lockfree_core.Map.Erase.Fixup.{erase_fixup-Fixed}
use cpp_lockfree_core.Map.Erase.Transplant.{transplant-Moved}

-- A node of the colour is missing above the tree.
pub data Gap (ctx : List Frame) (t : Tree) : Color → Type 0 where
  red_gap : {n : ℕ} → Rb n t → Dark t → RbAbove n ctx → Gap ctx t red
  black_gap : {n : ℕ} → Rb n t → RbAbove (suc n) ctx → Gap ctx t black

Rb-Deficit : (n : ℕ) (t : Tree) → Rb n t → Deficit n t
Rb-Deficit n leaf h = short leaf h tt
Rb-Deficit n (node x red l r) (hl, hr, _, _) = red_top x l r hl hr
Rb-Deficit n (node x black l r) h = short (node x black l r) h tt

pub fix_if_black-Fixed :
    {K V : Type 0} (fuel : ℕ) (m : Map K V) (ctx : List Frame) (t : Tree) (c : Color)
    → m.color 0 ≡ black
    → Zip m ctx t
    → Gap ctx t c
    → m.parent (top t) ≡ above ctx
    → length ctx < fuel
    → (m' : Map K V) × (fix_if_black fuel c m (top t) ≡ some m') × Fixed m m' (inorder (plug ctx t))
fix_if_black-Fixed fuel m ctx t _ nil zip (red_gap {n} rb dark fits) under few =
    let (k, rules) = plug-Rb ctx n t fits rb (inl dark) in
    (
      m,
      refl,
      record {
        t = plug ctx t;
        zip = Zip-plug m ctx t zip;
        height = k;
        rules = rules;
        dark = plug-Dark fits t (λ e. dark);
        order = refl;
        keeps = record { key = refl; value = refl; count = refl; fresh = refl };
        nil = nil;
      },
    )
fix_if_black-Fixed fuel m ctx t _ nil zip (black_gap {n} rb fits) under few =
    erase_fixup-Fixed fuel m ctx n t nil zip (Rb-Deficit n t rb) fits under (inl few)

pub on-Gap :
    (s : Side) (z : ℕ) (c : Color) (r : Tree) (n : ℕ) (ctx : List Frame)
    → Rb n (on s z c leaf r)
    → RbAbove n ctx
    → Gap ctx r c
on-Gap left z red r n ctx (_, hr, _, dr) fits = red_gap hr dr fits
on-Gap right z red r n ctx (hr, _, dr, _) fits = red_gap hr dr fits
on-Gap left z black r n ctx (k, e, _, hr) fits = black_gap hr (subst (λ x. RbAbove x ctx) e fits)
on-Gap right z black r n ctx (k, e, hr, _) fits = black_gap hr (subst (λ x. RbAbove x ctx) e fits)

-- The only subtree of `z` takes its place, and what is missing is made good.
pub single-Fixed :
    {K V : Type 0} (fuel : ℕ) (m : Map K V) (ctx : List Frame) (s : Side) (z : ℕ) (c : Color)
    (r : Tree) (n : ℕ)
    → m.color 0 ≡ black
    → Zip m ctx (on s z c leaf r)
    → Rb n (on s z c leaf r)
    → RbAbove n ctx
    → length ctx < fuel
    → (m' : Map K V) × (fix_if_black fuel (m.color z) (transplant m z (top r)) (top r) ≡ some m')
      × Fixed (transplant m z (top r)) m' (inorder (plug ctx r))
single-Fixed fuel m ctx s z c r n nil zip rb fits few =
    let m1 = transplant m z (top r) in
    let moved = transplant-Moved m ctx s z c r zip in
    let colored : m.color z ≡ c = (Holds-At m (above ctx) s z c leaf r zip.here).colored in
    let (m', ends, fixed) =
      fix_if_black-Fixed fuel m1 ctx r c (ap (λ f. f 0) moved.color ∙ nil) moved.zip
        (on-Gap s z c r n ctx rb fits) moved.under few in
    (m', ap (λ x. fix_if_black fuel x m1 (top r)) colored ∙ ends, fixed)

-- A red-black tree whose nodes are those of the list, in its order, with one node fewer counted.
pub record Removed {K V : Type 0} (m m' : Map K V) (rest : List ℕ) : Type 0 where
  pub t : Tree
  pub zip : Zip m' [] t
  pub height : ℕ
  pub rules : Rb height t
  pub dark : Dark t
  pub order : inorder t ≡ rest
  pub key : m'.key ≡ m.key
  pub value : m'.value ≡ m.value
  pub count : m'.count ≡ m.count - 1
  pub fresh : m'.fresh ≡ m.fresh
  pub nil : m'.color 0 ≡ black

pub Fixed-Removed :
    {K V : Type 0} (m m1 m' : Map K V) (rest : List ℕ)
    → Keeps m m1
    → Fixed m1 m' rest
    → Removed m (record m' { count = m'.count - 1 }) rest
Fixed-Removed m m1 m' rest keeps f = record {
  t = f.t;
  zip =
      Zip-Same m' (record m' { count = m'.count - 1 }) [] f.t refl
        (λ j q. record { color = refl; parent = refl; child = λ s. refl }) f.zip;
  height = f.height;
  rules = f.rules;
  dark = f.dark;
  order = f.order;
  key = f.keeps.key ∙ keeps.key;
  value = f.keeps.value ∙ keeps.value;
  count = ap (λ c. c - 1) (f.keeps.count ∙ keeps.count);
  fresh = f.keeps.fresh ∙ keeps.fresh;
  nil = f.nil;
}

-- With no child on one side, the other one takes the place.
one_child :
    {K V : Type 0} (fuel : ℕ) (m : Map K V) (s : Side) (z x : ℕ)
    → m.child s z ≡ 0
    → m.child (other s) z ≡ x
    → erase_node fuel m z ≡ uncount (fix_if_black fuel (m.color z) (transplant m z x) x)
unfolding erase_node
one_child fuel m left z x near far =
    let e : m.child left z == 0 ≡ true = ground (arith, near) in rw (erase_node, e, far) refl
one_child fuel m right z x near far = elim (Bool-cases (x == 0)) [
  | inl none ↦
      let e : m.child left z == 0 ≡ true = rw far none in
      let same : m.child right z ≡ x = near ∙ sym (ground (arith, none)) in
      rw (erase_node, e, same) refl
  | inr some_x ↦
      let e : m.child left z == 0 ≡ false = rw far some_x in
      let free : m.child right z == 0 ≡ true = ground (arith, near) in
      rw (erase_node, e, free, far) refl
]

module _ {K V : Type 0} (fuel : ℕ) (m : Map K V) (ctx : List Frame) (s : Side) (z : ℕ) (c : Color)
    (r : Tree) (n : ℕ) (nil : m.color 0 ≡ black) (zip : Zip m ctx (on s z c leaf r))
    (rb : Rb n (on s z c leaf r)) (fits : RbAbove n ctx) (few : length ctx < fuel) where
  single-Removed :
      (m' : Map K V) × (uncount (fix_if_black fuel (m.color z) (transplant m z (top r)) (top r))
        ≡ some m')
      × Removed m m' (inorder (plug ctx r))
  single-Removed =
      let (m1, ends, fixed) = single-Fixed fuel m ctx s z c r n nil zip rb fits few in
      (
        record m1 { count = m1.count - 1 },
        ap uncount ends,
        Fixed-Removed m (transplant m z (top r)) m1 (inorder (plug ctx r))
            (transplant-Moved m ctx s z c r zip).keeps fixed,
      )

  -- Taking out a node with no child on one side ends, with fuel for more rounds than there are nodes
  -- above it, in a red-black tree of the other nodes in their order.
  pub erase_node-Removed :
      (m' : Map K V) × (erase_node fuel m z ≡ some m') × Removed m m' (inorder (plug ctx r))
  erase_node-Removed =
      let (m1, ends, removed) = single-Removed in
      let h = Holds-At m (above ctx) s z c leaf r zip.here in
      (m1, one_child fuel m s z (top r) h.near h.far ∙ ends, removed)
