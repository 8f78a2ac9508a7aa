-- ===== src/Map/Step.antt =====
-- A round of `insertFixup`, whichever case it is.
use cpp_lockfree_core.Base.{ℕ, suc, ◌≡◌, ◌≢◌, ◌⊎◌, inl, inr, refl, ap, ◌∙◌, subst, List, length}
use cpp_lockfree_core.Map.{Map, red, black, Side, other, straighten, raise, fix_round}
use cpp_lockfree_core.Map.Shape.{Tree, leaf, node, Frame, top, inorder, plug, Holds, Zip}
use cpp_lockfree_core.Map.Fix.{family}
use cpp_lockfree_core.Map.Balance.{Dark, Rb, RbAbove, Raised}
use cpp_lockfree_core.Map.Round.{
  Next, Raised-parent, side_is, under_g, uncle_is, recolored, outer, inner, same_or_other,
}

pub red-black : red ≢ black
red-black e = cc

module _ {K V : Type 0} (m : Map K V) (nil : m.color 0 ≡ black) (ctx : List Frame) (sp sg : Side)
    (p g n : ℕ) (sib unc t : Tree) (rb_sib : Rb n sib) (dark_sib : Dark sib) (rb_unc : Rb n unc)
    (fits : RbAbove (suc n) ctx) (z : ℕ) (red_node : Raised n t z)
    (zip : Zip m (family m ctx sp sg p g sib unc) t) where
  abbrev old : List ℕ
  old = inorder (plug (family m ctx sp sg p g sib unc) t)

  abbrev After : Map K V × ℕ → Type 0
  After out = Next m out.0 out.1 old (suc (suc (length ctx)))

  turned_or_not :
      Dark unc → After (raise sg (straighten sg m z).0 (straighten sg m z).1, (straighten sg m z).1)
  turned_or_not dark = elim (same_or_other sp sg) [
    | inl e ↦ outer m ctx sp sg p g n sib unc t rb_sib dark_sib rb_unc fits z red_node zip e dark
    | inr e ↦ inner m ctx sp sg p g n sib unc t rb_sib dark_sib rb_unc fits z red_node zip e dark
  ]

  uncle_color :
      ((u : ℕ) × (ul : Tree) × (ur : Tree) × (unc ≡ node u red ul ur))
      ⊎ (Dark unc × (m.color (top unc) ≡ black))
  uncle_color = by_shape unc zip.around.6.5
    where
      by_shape :
          (t : Tree)
          → Holds m g t
          → ((u : ℕ) × (ul : Tree) × (ur : Tree) × (t ≡ node u red ul ur))
            ⊎ (Dark t × (m.color (top t) ≡ black))
      by_shape leaf h = inr (tt, nil)
      by_shape (node u red ul ur) h = inl (u, ul, ur, refl)
      by_shape (node u black ul ur) h = inr (tt, h.1)

  pub fix_round-After : After (fix_round m z)
  unfolding fix_round
  fix_round-After =
      let (hz, is, nz) = Raised-parent m (family m ctx sp sg p g sib unc) n z t red_node zip in
      let hp = under_g m ctx sp sg p g sib unc t zip in
      let hs = side_is m ctx sp sg p g sib unc t zip in
      let hu = uncle_is m ctx sp sg p g sib unc t zip in
      elim uncle_color [
        | inr (dark, c) ↦ rw (hz, hs, hp, hu, c) (turned_or_not dark)
        | inl (u, ul, ur, e) ↦
            let hu2 : m.child (other sg) g ≡ u = hu ∙ ap top e in
            let c : m.color u ≡ red = (subst (λ x. Holds m g x) e zip.around.6.5).1 in
            rw (hz, hs, hp, hu2, c)
              (recolored m ctx sp sg p g n sib unc t rb_sib dark_sib rb_unc fits z red_node zip u ul
                ur e)
      ]
