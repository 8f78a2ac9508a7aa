-- ===== src/Map/Erase/Colors.antt =====
-- Trees that are dark or red at the top, and the state of `eraseFixup`.
use cpp_lockfree_core.Base.{
  ℕ, suc, ◌≡◌, ◌≢◌, ◌≤◌, ◌⊎◌, inl, inr, refl, sym, ap, ◌∙◌, subst, true, false, List, [], ◌∷◌,
  arith, ◌==◌,
}
use cpp_lockfree_core.Map.{
  Map, Color, red, black, Side, left, right, other, is_red, side_of, paint, rotate,
}
use cpp_lockfree_core.Map.Shape.{
  Tree, leaf, node, on, Frame, top, occ_above, plug, Holds, Zip, top-on, one_self,
}
use cpp_lockfree_core.Map.Rotate.{Keeps}
use cpp_lockfree_core.Family.{update_ne}
use cpp_lockfree_core.Map.Turned.{rotate-Keeps, rotate_color, rotate_sentinel}
use cpp_lockfree_core.Map.Balance.{
  Rb, Dark, RbAbove, at_root, under_black, under_red, DarkAbove, on-Dark, Raised, raised,
}

-- The top of a tree is dark, or red.
pub Dark-or_Raised : {n : ℕ} (t : Tree) → Rb n t → Dark t ⊎ Raised n t (top t)
Dark-or_Raised leaf h = inl tt
Dark-or_Raised (node i red l r) (a, b, c, d) = inr (raised i l r a b c d)
Dark-or_Raised (node i black l r) h = inl tt

module _ {K V : Type 0} (m : Map K V) (nil : m.color 0 ≡ black) where
  pub Dark-color : (p : ℕ) (t : Tree) → Holds m p t → Dark t → is_red (m.color (top t)) ≡ false
  Dark-color p leaf h d = ap is_red nil
  Dark-color p (node i red l r) h d = absurd d
  Dark-color p (node i black l r) h d = ap is_red h.1

  pub Raised-color :
      {n z : ℕ} (p : ℕ) (t : Tree) → Holds m p t → Raised n t z → is_red (m.color (top t)) ≡ true
  Raised-color p _ h (raised z l r a b c d) = ap is_red h.1

-- A black node on every way down to the place makes the root black.
pub plug-Dark :
    {n : ℕ} {ctx : List Frame}
    → RbAbove n ctx
    → (t : Tree) → (ctx ≡ [] → Dark t)
    → Dark (plug ctx t)
plug-Dark (at_root n) t h = h refl
plug-Dark (under_black s i sib hs rest) t h =
    plug-Dark rest (on s i black t sib) (λ e. on-Dark s i t sib)
plug-Dark (under_red s i sib hs ds (da) rest) t h =
    plug-Dark rest (on s i red t sib) (λ e. absurd (subst DarkAbove e da))

-- The tree at the place has one black node too few on each way down, or is red at the top and has
-- only to be painted.
pub data Deficit (n : ℕ) : Tree → Type 0 where
  short : (t : Tree) → Rb n t → Dark t → Deficit n t
  red_top : (x : ℕ) (l r : Tree) → Rb n l → Rb n r → Deficit n (node x red l r)

-- The sibling of a tree that lacks a black node is not empty.
pub Rb-real :
    {K V : Type 0} (m : Map K V) (n p : ℕ) (t : Tree) → Rb (suc n) t → Holds m p t → top t ≢ 0
Rb-real m n p leaf h q = absurd (omega (arith, h))
Rb-real m n p (node i c l r) h q = q.0

-- The node at the place is not the root, when there is one above it.
pub top-plug-above :
    (f : Frame) (ctx : List Frame) (t : Tree) → 1 ≤ occ_above (top (plug (f ∷ ctx) t)) (f ∷ ctx)
top-plug-above f [] t =
    subst (λ i. 1 ≤ occ_above i (f ∷ [])) (sym (top-on f.side f.at f.col t f.sibling))
      (omega (arith, one_self f.at))
top-plug-above f (g ∷ ctx) t =
    omega (arith, top-plug-above g ctx (on f.side f.at f.col t f.sibling))

-- The side on which the place is.
pub place_side :
    {K V : Type 0} (m : Map K V) (s : Side) (p x : ℕ) (q : ℕ)
    → m.parent x ≡ p
    → m.child s p ≡ x
    → m.child (other s) p ≡ q
    → x ≢ q
    → side_of m x ≡ s
unfolding side_of
place_side m left p x q u c o ne =
    let e : x == m.child left (m.parent x) ≡ true = rw (u, c) (ground arith) in rw e refl
place_side m right p x q u c o ne =
    let e : x == m.child left (m.parent x) ≡ false = rw (u, o) (ground (arith, ne)) in rw e refl

-- What an operation of the fixup leaves as it was.
pub record Quiet {K V : Type 0} (m m' : Map K V) : Type 0 where
  pub keeps : Keeps m m'
  pub nil : m'.color 0 ≡ m.color 0
  pub sentinel : m'.parent 0 ≡ m.parent 0

pub Quiet-then : {K V : Type 0} (m m' m'' : Map K V) → Quiet m m' → Quiet m' m'' → Quiet m m''
Quiet-then m m' m'' a b = record {
  keeps = record {
    key = b.keeps.key ∙ a.keeps.key;
    value = b.keeps.value ∙ a.keeps.value;
    count = b.keeps.count ∙ a.keeps.count;
    fresh = b.keeps.fresh ∙ a.keeps.fresh;
  };
  nil = b.nil ∙ a.nil;
  sentinel = b.sentinel ∙ a.sentinel;
}

pub paint-Quiet : {K V : Type 0} (m : Map K V) (i : ℕ) (c : Color) → i ≢ 0 → Quiet m (paint m i c)
paint-Quiet m i c nz = record {
  keeps = record { key = refl; value = refl; count = refl; fresh = refl };
  nil = update_ne m.color i c 0 (λ e. nz (sym e));
  sentinel = refl;
}

pub rotate-Quiet :
    {K V : Type 0} (m : Map K V) (ctx : List Frame) (s : Side) (x y : ℕ) (c d : Color)
    (ta tb tc : Tree)
    → Zip m ctx (on s x c ta (on s y d tb tc))
    → Quiet m (rotate s x m)
rotate-Quiet m ctx s x y c d ta tb tc z = record {
  keeps = rotate-Keeps m ctx s x y c d ta tb tc z;
  nil = ap (λ f. f 0) (rotate_color m ctx s x y c d ta tb tc z);
  sentinel = rotate_sentinel m ctx s x y c d ta tb tc z;
}
