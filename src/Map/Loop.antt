-- ===== src/Map/Loop.antt =====
-- The loop of `insertFixup` ends in a red-black tree with the same nodes in the same order.
use cpp_lockfree_core.Base.{
  ℕ, zero, suc, ◌≡◌, ◌<◌, ◌⊎◌, inl, inr, refl, sym, ap, ◌∙◌, subst, true, false, List, [], ◌∷◌,
  some, arith, length,
}
use cpp_lockfree_core.Family.{update, update_self, update_ne}
use cpp_lockfree_core.Map.{
  Map, Color, red, black, Side, left, paint, fix_round, insert_fixup, is_red,
}
use cpp_lockfree_core.Map.Shape.{Tree, leaf, node, on, Frame, top, above, inorder, plug, Above, Zip}
use cpp_lockfree_core.Map.Keep.{Zip-up, paint-Zip}
use cpp_lockfree_core.Map.Rotate.{Keeps}
use cpp_lockfree_core.Map.Fix.{frame}
use cpp_lockfree_core.Map.Balance.{
  Dark, Rb, RbAbove, at_root, under_black, under_red, Raised, raised, Roof, plug-Rb,
}
use cpp_lockfree_core.Map.Round.{Raised-parent}
use cpp_lockfree_core.Map.Step.{fix_round-After, red-black}

-- The tree is red-black, with its root black, and has the same nodes in the same order.
pub record Fixed {K V : Type 0} (m m' : Map K V) (old : List ℕ) : Type 0 where
  pub t : Tree
  pub zip : Zip m' [] t
  pub height : ℕ
  pub rules : Rb height t
  pub dark : Dark t
  pub order : inorder t ≡ old
  pub keeps : Keeps m m'
  pub nil : m'.color 0 ≡ black

pub Zip-plug :
    {K V : Type 0} (m : Map K V) (ctx : List Frame) (t : Tree) → Zip m ctx t → Zip m [] (plug ctx t)
Zip-plug m [] t z = z
Zip-plug m (f ∷ ctx) t z = Zip-plug m ctx (on f.side f.at f.col t f.sibling) (Zip-up m ctx f t z)

module _ {K V : Type 0} (m : Map K V) (nil : m.color 0 ≡ black) where
  -- The root is painted.
  pub paint_root :
      (t : Tree) (k : ℕ) → Zip m [] t → Rb k t → Fixed m (paint m m.root black) (inorder t)
  paint_root leaf k z h = record {
    t = leaf;
    zip = record { here = tt; around = z.around; once = z.once };
    height = k;
    rules = h;
    dark = tt;
    order = refl;
    keeps = record { key = refl; value = refl; count = refl; fresh = refl };
    nil =
        subst (λ r. update m.color r black 0 ≡ black) (sym z.around) (update_self m.color 0 black);
  }
  paint_root (node i c l r) k z h =
      let (n, rules) = dark_root c h in
      subst (λ x. Fixed m (paint m x black) (inorder (node i c l r))) (sym z.around)
        (record {
          t = node i black l r;
          zip = paint-Zip m [] left i c black l r z;
          height = n;
          rules = rules;
          dark = tt;
          order = refl;
          keeps = record { key = refl; value = refl; count = refl; fresh = refl };
          nil = update_ne m.color i black 0 (λ e. z.here.0 (sym e)) ∙ nil;
        })
    where
      dark_root : (c : Color) → Rb k (node i c l r) → (n : ℕ) × Rb n (node i black l r)
      dark_root black h = (k, h)
      dark_root red h = (suc k, (k, refl, h.0, h.1))

Roof-or_red :
    {n : ℕ} {ctx : List Frame}
    → RbAbove n ctx
    → Roof ctx
      ⊎ ((sp : Side) × (sg : Side) × (p : ℕ) × (g : ℕ) × (sib : Tree) × (unc : Tree) × (more : List
            Frame)
          × (ctx ≡ frame sp p red sib ∷ frame sg g black unc ∷ more)
          × Rb n sib
          × Dark sib
          × Rb n unc
          × RbAbove (suc n) more)
Roof-or_red (at_root n) = inl tt
Roof-or_red (under_black s i t h above) = inl refl
Roof-or_red (under_red s i t h d da (at_root n)) = absurd da
Roof-or_red (under_red s i t h d da (under_black {ctx} s' i' t' h' rest)) =
    inr (s, s', i, i', t, t', ctx, refl, h, d, h', rest)
Roof-or_red (under_red s i t h d da (under_red s' i' t' h' d' da' above)) = absurd (red-black da)

Roof-color :
    {K V : Type 0} (m : Map K V) (ctx : List Frame)
    → m.color 0 ≡ black
    → Roof ctx
    → (a : ℕ) → Above m ctx a
    → m.color (above ctx) ≡ black
Roof-color m [] nil roof a h = nil
Roof-color m (f ∷ ctx) nil roof a h = h.1 ∙ roof

Raised-Rb : {n z : ℕ} {t : Tree} → Raised n t z → Rb n t
Raised-Rb (raised _ l r a b c d) = (a, b, c, d)

-- The loop needs fewer rounds than there are nodes above the red node.
pub insert_fixup-Fixed :
    {K V : Type 0} (fuel : ℕ) (m : Map K V) (ctx : List Frame) (n z : ℕ) (t : Tree)
    → m.color 0 ≡ black
    → Zip m ctx t
    → Raised n t z
    → RbAbove n ctx
    → (length ctx < fuel) ⊎ (Roof ctx × (0 < fuel))
    → (m' : Map K V) × (insert_fixup fuel m z ≡ some m') × Fixed m m' (inorder (plug ctx t))
unfolding insert_fixup
insert_fixup-Fixed zero m ctx n z t nil zip red_node fits (inl few) = absurd (omega (arith, few))
insert_fixup-Fixed zero m ctx n z t nil zip red_node fits (inr few) = absurd (omega (arith, few.1))
insert_fixup-Fixed (suc fuel) m ctx n z t nil zip red_node fits enough = elim (Roof-or_red fits) [
  | inl roof ↦
      let (hz, is, nz) = Raised-parent m ctx n z t red_node zip in
      let e : is_red (m.color (m.parent z)) ≡ false =
        ap (λ p. is_red (m.color p)) hz
        ∙ ap is_red (Roof-color m ctx nil roof (top t) zip.around) in
      let (k, rules) = plug-Rb ctx n t fits (Raised-Rb red_node) (inr roof) in
      rw (insert_fixup, e)
        (paint m m.root black, refl, paint_root m nil (plug ctx t) k (Zip-plug m ctx t zip) rules)
  | inr (sp, sg, p, g, sib, unc, more, e, h, d, h', rest) ↦
      let zip2 = subst (λ c. Zip m c t) e zip in
      let (hz, is, nz) =
        Raised-parent m (frame sp p red sib ∷ frame sg g black unc ∷ more) n z t red_node zip2 in
      let c : is_red (m.color (m.parent z)) ≡ true =
        ap (λ q. is_red (m.color q)) hz ∙ ap is_red zip2.around.1 in
      let next = fix_round-After m nil more sp sg p g n sib unc t h d h' rest z red_node zip2 in
      let long : length ctx ≡ suc (suc (length more)) = ap length e in
      let few : length ctx < suc fuel = elim enough [
        | inl l ↦ l
        | inr (roof, _) ↦ absurd (red-black (subst Roof e roof))
      ] in
      let (m', r, f) =
        insert_fixup-Fixed fuel (fix_round m z).0 next.ctx next.n (fix_round m z).1 next.t
          (next.nil ∙ nil) next.zip next.red_node next.fits
          (elim next.nearer [
            | inl s ↦ inl (omega (arith, s, long, few))
            | inr roof ↦ inr (roof, omega (arith, long, few))
          ]) in
      rw (insert_fixup, c)
        (
          m',
          r,
          record {
            t = f.t;
            zip = f.zip;
            height = f.height;
            rules = f.rules;
            dark = f.dark;
            order = f.order ∙ next.order ∙ ap (λ x. inorder (plug x t)) (sym e);
            keeps = record {
              key = f.keeps.key ∙ next.keeps.key;
              value = f.keeps.value ∙ next.keeps.value;
              count = f.keeps.count ∙ next.keeps.count;
              fresh = f.keeps.fresh ∙ next.keeps.fresh;
            };
            nil = f.nil;
          },
        )
]
