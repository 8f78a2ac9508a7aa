-- ===== src/Map/Round.antt =====
-- A round of `insertFixup` keeps the tree, its order and its rules, but for the red node that is next.
use cpp_lockfree_core.Base.{
  ℕ, suc, ◌+◌, ◌≡◌, ◌≢◌, ◌≤◌, ◌<◌, ◌⊎◌, inl, inr, refl, sym, ap, ◌∙◌, subst, true, false, List, ◌∷◌,
  arith, ◌==◌, length,
}
use cpp_lockfree_core.Map.{
  Map, red, black, Side, left, right, other, rotate, recolor, straighten, raise, side_of,
}
use cpp_lockfree_core.Map.Shape.{
  Tree, node, on, Frame, top, above, one, occ, inorder, plug, Zip, on-other, one_self,
}
use cpp_lockfree_core.Map.Keep.{Zip-up, Zip-down}
use cpp_lockfree_core.Map.Rotate.{Keeps}
use cpp_lockfree_core.Map.Turn.{occ_eq}
use cpp_lockfree_core.Map.Turned.{rotate-Zip, rotate-Keeps, rotate_color}
use cpp_lockfree_core.Map.Fix.{frame, family, Done, recolor-Done, raise-Done}
use cpp_lockfree_core.Map.Balance.{
  Dark, Rb, RbAbove, under_black, on-Rb_black, on-Rb_red, on-Raised, on-Dark, Raised, raised,
  Raised-Halves, Roof, inorder-on, inorder-plug, inorder-turn,
}

module _ {K V : Type 0} (m : Map K V) (ctx : List Frame) (sp sg : Side) (p g : ℕ) (sib unc t : Tree)
    (zip : Zip m (family m ctx sp sg p g sib unc) t) where
  single : (j : ℕ) → one j p + occ j sib + one j g + occ j unc + occ j t ≤ 1
  single j = omega (arith, zip.once j)

  pub under_g : m.parent p ≡ g
  under_g = zip.around.2

  p_child : m.child sg g ≡ p
  p_child = zip.around.6.3

  pub uncle_is : m.child (other sg) g ≡ top unc
  uncle_is = zip.around.6.4

  pub side_is : side_of m p ≡ sg
  unfolding side_of
  side_is = by_side sg uncle_is p_child
    where
      by_side : (s : Side) → m.child (other s) g ≡ top unc → m.child s g ≡ p → side_of m p ≡ s
      by_side left u c =
          let e : p == m.child left (m.parent p) ≡ true = rw (under_g, c) (ground arith) in
          rw e refl
      by_side right u c =
          let ne : p ≢ top unc =
            λ e. omega (arith, single p, one_self p, occ_eq p unc (λ z. zip.around.0 (e ∙ z)) e) in
          let e : p == m.child left (m.parent p) ≡ false = rw (under_g, u) (ground (arith, ne)) in
          rw e refl

  module _ (z : ℕ) (hz : m.parent z ≡ p) (is : z ≡ top t) (nz : z ≢ 0) where
    inner_child : sp ≡ other sg → straighten sg m z ≡ (rotate sg p m, p)
    unfolding straighten
    inner_child e =
        let c : m.child (other sg) p ≡ z = ap (λ s. m.child s p) (sym e) ∙ zip.around.3 ∙ sym is in
        let q : z == m.child (other sg) (m.parent z) ≡ true = rw (hz, c) (ground arith) in
        rw (q, hz) refl

    outer_child : sp ≡ sg → straighten sg m z ≡ (m, z)
    unfolding straighten
    outer_child e =
        let c : m.child (other sg) p ≡ top sib =
          ap (λ s. m.child (other s) p) (sym e) ∙ zip.around.4 in
        let ne : z ≢ top sib = λ h.
          omega
            (arith, single z, occ_eq z sib (λ y. nz (h ∙ y)) h, occ_eq z t (λ y. nz (is ∙ y)) is) in
        let q : z == m.child (other sg) (m.parent z) ≡ false = rw (hz, c) (ground (arith, ne)) in
        rw q refl

pub same_or_other : (s t : Side) → (s ≡ t) ⊎ (s ≡ other t)
same_or_other left left = inl refl
same_or_other right right = inl refl
same_or_other left right = inr refl
same_or_other right left = inr refl

-- What a round leaves: a red node at a place where a red node may have a red parent, or at one where
-- it has not.
pub record Next {K V : Type 0} (m m' : Map K V) (z : ℕ) (old : List ℕ) (room : ℕ) : Type 0 where
  pub n : ℕ
  pub ctx : List Frame
  pub t : Tree
  pub zip : Zip m' ctx t
  pub red_node : Raised n t z
  pub fits : RbAbove n ctx
  pub keeps : Keeps m m'
  pub nil : m'.color 0 ≡ m.color 0
  pub order : inorder (plug ctx t) ≡ old
  pub nearer : (length ctx < room) ⊎ Roof ctx

pub Raised-parent :
    {K V : Type 0} (m : Map K V) (ctx : List Frame) (n z : ℕ) (t : Tree)
    → Raised n t z
    → Zip m ctx t
    → (m.parent z ≡ above ctx) × (z ≡ top t) × (z ≢ 0)
Raised-parent m ctx n z _ (raised _ l r a b c d) zip = (zip.here.2, refl, zip.here.0)

module _ {K V : Type 0} (m : Map K V) (ctx : List Frame) (sp sg : Side) (p g n : ℕ)
    (sib unc t : Tree) (rb_sib : Rb n sib) (dark_sib : Dark sib) (rb_unc : Rb n unc)
    (fits : RbAbove (suc n) ctx) where
  abbrev old : List ℕ
  old = inorder (plug (family m ctx sp sg p g sib unc) t)

  -- The parent is the top of two red nodes, where the grandparent was.
  settled :
      (m' : Map K V) (i z : ℕ) (t2 tr : Tree)
      → Done m m' ctx (on sg i black t2 tr)
      → Raised n t2 z
      → Rb n tr
      → inorder (plug ctx (on sg i black t2 tr)) ≡ old
      → Next m m' z old (suc (suc (length ctx)))
  settled m' i z t2 tr done red_node rb order = record {
    n = n;
    ctx = frame sg i black tr ∷ ctx;
    t = t2;
    zip = Zip-down m' ctx sg i black t2 tr done.zip;
    red_node = red_node;
    fits = under_black sg i tr rb fits;
    keeps = done.keeps;
    nil = done.nil;
    order = order;
    nearer = inr refl;
  }

  module _ (z : ℕ) (red_node : Raised n t z) (zip : Zip m (family m ctx sp sg p g sib unc) t) where
    pub recolored :
        (u : ℕ) (ul ur : Tree)
        → unc ≡ node u red ul ur
        → Next m (recolor m p u g) g old (suc (suc (length ctx)))
    recolored u ul ur e =
        let done = recolor-Done m ctx sp sg p g sib unc u ul ur t e zip in
        let (hl, hr, dl, dr) : Rb n (node u red ul ur) = subst (Rb n) e rb_unc in
        let rb_t : Rb n t = Raised-Rb red_node in
        record {
          n = suc n;
          ctx = ctx;
          t = on sg g red (on sp p black t sib) (node u black ul ur);
          zip = done.zip;
          red_node =
              on-Raised sg (suc n) g (on sp p black t sib) (node u black ul ur)
                (on-Rb_black sp n p t sib rb_t rb_sib) (n, refl, hl, hr) (on-Dark sp p t sib) tt;
          fits = fits;
          keeps = done.keeps;
          nil = done.nil;
          order =
              inorder-plug ctx (on sg g red (on sp p black t sib) (node u black ul ur))
                (on sg g black (on sp p red t sib) unc)
                (inorder-on sg g red black (on sp p black t sib) (on sp p red t sib)
                  (node u black ul ur) unc (inorder-on sp p black red t t sib sib refl refl)
                  (ap inorder (sym e)));
          nearer = inl (omega arith);
        }
      where
        Raised-Rb : {z : ℕ} {t : Tree} → Raised n t z → Rb n t
        Raised-Rb (raised _ l r a b c d) = (a, b, c, d)

    pub outer :
        sp ≡ sg
        → Dark unc
        → Next m
            (raise sg (straighten sg m z).0 (straighten sg m z).1)
            (straighten sg m z).1
            old
            (suc (suc (length ctx)))
    outer e dark_unc =
        let (hz, is, nz) = Raised-parent m (family m ctx sp sg p g sib unc) n z t red_node zip in
        let same = outer_child m ctx sp sg p g sib unc t zip z hz is nz e in
        let zip2 = subst (λ s. Zip m (frame s p red sib ∷ frame sg g black unc ∷ ctx) t) e zip in
        let done =
          raise-Done m ctx sg p g z sib unc t zip2 hz (under_g m ctx sp sg p g sib unc t zip) in
        rw same (
          settled (raise sg m z) p z t (on sg g red sib unc) done red_node
            (on-Rb_red sg n g sib unc rb_sib rb_unc dark_sib dark_unc)
            (inorder-plug ctx (on sg p black t (on sg g red sib unc))
              (on sg g black (on sp p red t sib) unc) (outer_order e)))
      where
        outer_order :
            sp ≡ sg
            → inorder (on sg p black t (on sg g red sib unc))
              ≡ inorder (on sg g black (on sp p red t sib) unc)
        outer_order e =
            sym (inorder-turn sg p g red black black red t sib unc)
            ∙ ap (λ s. inorder (on sg g black (on s p red t sib) unc)) (sym e)

    pub inner :
        sp ≡ other sg
        → Dark unc
        → Next m
            (raise sg (straighten sg m z).0 (straighten sg m z).1)
            (straighten sg m z).1
            old
            (suc (suc (length ctx)))
    inner e dark_unc =
        let (hz, is, nz) = Raised-parent m (family m ctx sp sg p g sib unc) n z t red_node zip in
        let same = inner_child m ctx sp sg p g sib unc t zip z hz is nz e in
        let h = Raised-Halves sg red_node in
        let up = Zip-up m (frame sg g black unc ∷ ctx) (frame sp p red sib) t zip in
        let shape : on sp p red t sib ≡ on sg p red sib (on sg z red h.near h.far) =
          ap (λ s. on s p red t sib) e ∙ on-other sg p red sib t ∙ ap (on sg p red sib) h.is in
        let up2 = subst (Zip m (frame sg g black unc ∷ ctx)) shape up in
        let around = frame sg g black unc ∷ ctx in
        let m2 = rotate sg p m in
        let turned = rotate-Zip m around sg p z red red sib h.near h.far up2 in
        let k = rotate-Keeps m around sg p z red red sib h.near h.far up2 in
        let c = rotate_color m around sg p z red red sib h.near h.far up2 in
        let down = Zip-down m2 around sg z red (on sg p red sib h.near) h.far turned in
        let low = on-Raised sg n p sib h.near rb_sib h.rb_near dark_sib h.dark_near in
        let (hp, _, _) =
          Raised-parent m2 (frame sg z red h.far ∷ around) n p (on sg p red sib h.near) low down in
        let done =
          raise-Done m2 ctx sg z g p h.far unc (on sg p red sib h.near) down hp down.around.2 in
        rw same (
          settled (raise sg m2 p) z p (on sg p red sib h.near) (on sg g red h.far unc)
            (record {
              zip = done.zip;
              keeps = record {
                key = done.keeps.key ∙ k.key;
                value = done.keeps.value ∙ k.value;
                count = done.keeps.count ∙ k.count;
                fresh = done.keeps.fresh ∙ k.fresh;
              };
              nil = done.nil ∙ ap (λ f. f 0) c;
            })
            low (on-Rb_red sg n g h.far unc h.rb_far rb_unc h.dark_far dark_unc)
            (inorder-plug ctx _ (on sg g black (on sp p red t sib) unc) (
              sym (inorder-turn sg z g red black black red (on sg p red sib h.near) h.far unc)
              ∙ inorder-on sg g black black (on sg z red (on sg p red sib h.near) h.far)
                  (on sp p red t sib) unc unc
                  (inorder-turn sg p z red red red red sib h.near h.far ∙ ap inorder (sym shape))
                  refl)))
