-- ===== src/Map/Descend.antt =====
-- The way down to the place of a new node.
use cpp_lockfree_core.Base.{
  ℕ, zero, suc, ◌+◌, ◌≡◌, ◌<◌, refl, sym, ap, ◌∙◌, subst, false, List, [], ◌∷◌, ◌++◌, append_assoc,
  Option, some, arith, ◌==◌, Bool-cases, inl, inr, ◌⊎◌, append-nil,
}
use cpp_lockfree_core.Map.{Keys, Map, Color, red, black, Side, left, right, descend, toward}
use cpp_lockfree_core.Map.Shape.{
  Tree, leaf, node, on, Frame, above, top, inorder, plug, occ, occ_above, occ-on, Zip,
}
use cpp_lockfree_core.Map.Keep.{Zip-down}
use cpp_lockfree_core.Map.Fix.{frame, Zip-down_far}
use cpp_lockfree_core.Map.Balance.{Rb, RbAbove, under_black, under_red, DarkAbove, Dark}
use cpp_lockfree_core.Map.Order.{
  Sorted, Missing, Missing-split, AllLess, AllMore, AllLess-append, AllMore-append, AllLess-up,
  AllMore-down, Sorted-Around,
}
use cpp_lockfree_core.Map.Find.{Deep}

abbrev before_at : Side → ℕ → List ℕ → List ℕ → List ℕ
before_at left i sib rest = rest
before_at right i sib rest = rest ++ (sib ++ (i ∷ []))

abbrev after_at : Side → ℕ → List ℕ → List ℕ → List ℕ
after_at left i sib rest = i ∷ (sib ++ rest)
after_at right i sib rest = rest

-- The nodes before a place, and those after it.
abbrev pub before : List Frame → List ℕ
before [] = []
before (f ∷ ctx) = before_at f.side f.at (inorder f.sibling) (before ctx)

abbrev pub after : List Frame → List ℕ
after [] = []
after (f ∷ ctx) = after_at f.side f.at (inorder f.sibling) (after ctx)

around_at :
    (s : Side) (i : ℕ) (c : Color) (t sib : Tree) (xs ys : List ℕ)
    → xs ++ (inorder (on s i c t sib) ++ ys)
      ≡ before_at s i (inorder sib) xs ++ (inorder t ++ after_at s i (inorder sib) ys)
around_at left i c t sib xs ys = ap (λ l. xs ++ l) (append_assoc (inorder t) (i ∷ inorder sib) ys)
around_at right i c t sib xs ys =
    ap (λ l. xs ++ l)
      (append_assoc (inorder sib) (i ∷ inorder t) ys
        ∙ sym (append_assoc (inorder sib) (i ∷ []) (inorder t ++ ys)))
    ∙ sym (append_assoc xs (inorder sib ++ (i ∷ [])) (inorder t ++ ys))

pub inorder-around :
    (ctx : List Frame) (t : Tree) → inorder (plug ctx t) ≡ before ctx ++ (inorder t ++ after ctx)
inorder-around [] t = sym (append-nil (inorder t))
inorder-around (f ∷ ctx) t =
    inorder-around ctx (on f.side f.at f.col t f.sibling)
    ∙ around_at f.side f.at f.col t f.sibling (before ctx) (after ctx)

pub occ-plug :
    (i : ℕ) (ctx : List Frame) (t : Tree) → occ i (plug ctx t) ≡ occ_above i ctx + occ i t
occ-plug i [] t = omega arith
occ-plug i (f ∷ ctx) t = omega (
  arith,
  occ-plug i ctx (on f.side f.at f.col t f.sibling),
  occ-on i f.side f.at f.col t f.sibling,
)

-- The place hangs on the side to which the key goes.
abbrev pub Hangs : {K V : Type 0} → Keys K → Map K V → K → List Frame → Type 0
Hangs keys m k [] = Unit {0}
Hangs keys m k (f ∷ ctx) = f.side ≡ toward keys k (m.key f.at)

-- The place of a new node.
pub record Place {K V : Type 0} (keys : Keys K) (m : Map K V) (k : K) (whole : Tree) (o : Option ℕ)
    : Type 0 where
  pub ctx : List Frame
  pub is : o ≡ some (above ctx)
  pub same : plug ctx leaf ≡ whole
  pub zip : Zip m ctx leaf
  pub less : AllLess keys m.key k (before ctx)
  pub more : AllMore keys m.key k (after ctx)
  pub hangs : Hangs keys m k ctx
  pub fits : RbAbove 0 ctx

pub record Down (h : ℕ) (ctx : List Frame) (i : ℕ) (c : Color) (l r : Tree) : Type 0 where
  pub height : ℕ
  pub rb_left : Rb height l
  pub rb_right : Rb height r
  pub fits_left : RbAbove height (frame left i c r ∷ ctx)
  pub fits_right : RbAbove height (frame right i c l ∷ ctx)
  pub dark_left : Dark l ⊎ DarkAbove (frame left i c r ∷ ctx)
  pub dark_right : Dark r ⊎ DarkAbove (frame right i c l ∷ ctx)

-- The rules at the two children.
pub children-Down :
    (c : Color) (h : ℕ) (ctx : List Frame) (i : ℕ) (l r : Tree)
    → Rb h (node i c l r)
    → RbAbove h ctx
    → Dark (node i c l r) ⊎ DarkAbove ctx
    → Down h ctx i c l r
children-Down red h ctx i l r (a, b, dl, dr) fits (inl dark) = absurd dark
children-Down red h ctx i l r (a, b, dl, dr) fits (inr dark) = record {
  height = h;
  rb_left = a;
  rb_right = b;
  fits_left = under_red left i r b dr dark fits;
  fits_right = under_red right i l a dl dark fits;
  dark_left = inl dl;
  dark_right = inl dr;
}
children-Down black h ctx i l r (j, e, a, b) fits dark = record {
  height = j;
  rb_left = a;
  rb_right = b;
  fits_left = under_black left i r b (subst (λ x. RbAbove x ctx) e fits);
  fits_right = under_black right i l a (subst (λ x. RbAbove x ctx) e fits);
  dark_left = inr refl;
  dark_right = inr refl;
}

module _ {K V : Type 0} (keys : Keys K) (m : Map K V) (k : K) where
  pub descend-Place :
      (fuel n h : ℕ) (ctx : List Frame) (t : Tree)
      → Deep n t
      → n < fuel
      → Zip m ctx t
      → Rb h t
      → RbAbove h ctx
      → Dark t ⊎ DarkAbove ctx
      → Sorted keys m.key (inorder t)
      → Missing keys m.key k (inorder t)
      → AllLess keys m.key k (before ctx)
      → AllMore keys m.key k (after ctx)
      → Hangs keys m k ctx
      → Place keys m k (plug ctx t) (descend keys fuel m k (above ctx) (top t))
  unfolding descend
  descend-Place zero n h ctx t d e z rb fits dark s miss less more hangs = absurd (omega arith)
  descend-Place (suc fuel) n h ctx leaf d e z rb fits dark s miss less more hangs = record {
    ctx = ctx;
    is = refl;
    same = refl;
    zip = z;
    less = less;
    more = more;
    hangs = hangs;
    fits = subst (λ x. RbAbove x ctx) rb fits;
  }
  descend-Place (suc fuel) zero h ctx (node i c l r) d e z rb fits dark s miss less more hangs =
      absurd d
  descend-Place (suc fuel) (suc n) h ctx (node i c l r) (dl, dr) e z rb fits dark s miss less more
        hangs =
      let (nz, _, _, cl, cr, _, _) = z.here in
      let real : i == 0 ≡ false = ground (arith, nz) in
      let a = Sorted-Around keys m.key i (inorder l) (inorder r) s in
      let (miss_l, miss_i) = Missing-split keys m.key k (inorder l) (i ∷ inorder r) miss in
      let step = children-Down c h ctx i l r rb fits dark in
      elim (Bool-cases (keys.less k (m.key i))) [
        | inl q ↦
            rw (descend, real, q, cl)
              (descend-Place fuel n step.height (frame left i c r ∷ ctx) l dl (omega arith)
                (Zip-down m ctx left i c l r z) step.rb_left (step.fits_left) step.dark_left
                a.sorted_left miss_l less
                (
                  q,
                  AllMore-append keys m.key k (inorder r) (after ctx)
                      (AllMore-down keys m.key k (m.key i) (inorder r) q a.more) more,
                )
                (rw q refl))
        | inr q ↦
            let up = keys.less_total k (m.key i) miss_i.0 q in
            rw (descend, real, q, cr)
              (descend-Place fuel n step.height (frame right i c l ∷ ctx) r dr (omega arith)
                (Zip-down_far ctx left i c l r m z) step.rb_right (step.fits_right) step.dark_right
                a.sorted_right miss_i.1
                (AllLess-append keys m.key k (before ctx) (inorder l ++ (i ∷ [])) less (
                  AllLess-append keys m.key k (inorder l) (i ∷ [])
                    (AllLess-up keys m.key (m.key i) k (inorder l) up a.less) (up, tt)))
                more (rw q refl))
      ]
