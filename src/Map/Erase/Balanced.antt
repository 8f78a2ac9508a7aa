-- ===== src/Map/Erase/Balanced.antt =====
-- The rounds of `eraseFixup`, case by case.
use cpp_lockfree_core.Base.{
  ℕ, suc, ◌≡◌, inl, inr, refl, sym, ap, ◌∙◌, subst, false, List, ◌∷◌, arith,
}
use cpp_lockfree_core.Map.{Map, Color, red, black, Side, left, right, other, is_red, side_of}
use cpp_lockfree_core.Map.Erase.{turn_near, finish, balance}
use cpp_lockfree_core.Map.Shape.{
  Tree, leaf, node, on, Frame, top, inorder, plug, Zip, top-on, Holds-At, top-occ,
}
use cpp_lockfree_core.Map.Turn.{occ_eq}
use cpp_lockfree_core.Map.Fix.{frame}
use cpp_lockfree_core.Map.Balance.{
  Rb, Dark, Raised, raised, Raised-Halves, on-Raised, inorder-on, inorder-plug, inorder-turn,
}
use cpp_lockfree_core.Map.Erase.Colors.{
  Quiet, Quiet-then, Dark-or_Raised, Dark-color, Raised-color, Rb-real, place_side,
}
use cpp_lockfree_core.Map.Erase.Finish.{turn_near-Lowered, turn_near_stays}
use cpp_lockfree_core.Map.Erase.Round.{
  After, made_good, still_missing, Place, Whole, Parent, both_black, far_red,
}

-- The parent of the place is the same, also when the sentinel is at it.
pub under_kept :
    {K V : Type 0} (m m' : Map K V) (f : Frame) (ctx : List Frame) (t : Tree)
    → Zip m' (f ∷ ctx) t
    → m'.parent 0 ≡ m.parent 0
    → m.parent (top t) ≡ f.at
    → m'.parent (top t) ≡ f.at
under_kept m m' f ctx leaf z s u = s ∙ u
under_kept m m' f ctx (node i c l r) z s u = z.here.2

Raised-top : {n z : ℕ} {t : Tree} → Raised n t z → z ≡ top t
Raised-top (raised z l r a b c d) = refl

module _ {K V : Type 0} (m : Map K V) (nil : m.color 0 ≡ black) (ctx : List Frame) (s : Side)
    (p w n : ℕ) (cp : Color) (t : Tree) (under : m.parent (top t) ≡ p) (rb_t : Rb n t)
    (dark_t : Dark t) (room : ℕ) (parent : Parent n room cp ctx) where
  -- Only the near child is red.
  near_red :
      (wn wf : Tree) (v : ℕ)
      → Zip m (frame s p cp (on s w black wn wf) ∷ ctx) t
      → Raised n wn v
      → Rb n wf
      → Dark wf
      → is_red (m.color (top wf)) ≡ false
      → After m
          (inorder (plug ctx (on s p cp t (on s w black wn wf))))
          (suc room)
          (finish s (turn_near s m w) (top t), (finish s (turn_near s m w) (top t)).root)
  near_red wn wf v zip red_n hf df far_black =
      let h = Raised-Halves s red_n in
      let zip2 = subst (λ x. Zip m (frame s p cp (on s w black x wf) ∷ ctx) t) h.is zip in
      let m1 = turn_near s m w in
      let r = turn_near-Lowered m ctx s p w cp t under v h.near h.far wf zip2 far_black in
      let far' = on s w red h.far wf in
      let under1 =
        under_kept m m1 (frame s p cp (on s v black h.near far')) ctx t r.zip r.quiet.sentinel
          under in
      let (whole, quiet) =
        far_red m1 (r.quiet.nil ∙ nil) ctx s p v n cp t under1 rb_t dark_t room parent h.near far' w
          r.zip h.rb_near (on-Raised s n w h.far wf h.rb_far hf h.dark_far df) in
      let turned : inorder (on s v black h.near far') ≡ inorder (on s w black wn wf) =
        sym (inorder-turn s v w red black black red h.near h.far wf)
        ∙ inorder-on s w black black (on s v red h.near h.far) wn wf wf (ap inorder (sym h.is))
            refl in
      made_good (Quiet-then m m1 (finish s m1 (top t)) r.quiet quiet) (record {
        t = whole.t;
        zip = whole.zip;
        height = whole.height;
        rules = whole.rules;
        is = refl;
        order =
            whole.order
            ∙ inorder-plug ctx (on s p cp t (on s v black h.near far'))
                (on s p cp t (on s w black wn wf))
                (inorder-on s p cp cp t t (on s v black h.near far') (on s w black wn wf) refl
                  turned);
      })

  pub balance-After :
      (wn wf : Tree)
      → Zip m (frame s p cp (on s w black wn wf) ∷ ctx) t
      → Rb n wn
      → Rb n wf
      → After m
          (inorder (plug ctx (on s p cp t (on s w black wn wf))))
          (suc room)
          (balance s m (top t))
  unfolding balance
  balance-After wn wf zip hn hf =
      let hw : m.child (other s) p ≡ w = zip.around.4 ∙ top-on s w black wn wf in
      let h = Holds-At m p s w black wn wf zip.around.5 in
      elim (Dark-or_Raised wf hf) [
        | inr red_f ↦
            let c = Raised-color m nil w wf h.holds_far red_f in
            let stays = turn_near_stays m ctx s p w cp t under wn wf zip c in
            let (whole, quiet) =
              far_red m nil ctx s p w n cp t under rb_t dark_t room parent wn wf (top wf) zip hn
                red_f in
            rw (balance, under, hw, h.near, h.far, c, stays)
              (elim (Dark-or_Raised wn hn) [
                | inl dn ↦ rw (Dark-color m nil w wn h.holds_near dn) (made_good quiet whole)
                | inr rn ↦ rw (Raised-color m nil w wn h.holds_near rn) (made_good quiet whole)
              ])
        | inl df ↦
            let c = Dark-color m nil w wf h.holds_far df in
            elim (Dark-or_Raised wn hn) [
              | inl dn ↦
                  rw (balance, under, hw, h.near, h.far, c, Dark-color m nil w wn h.holds_near dn)
                    (both_black m nil ctx s p w n cp t under rb_t dark_t room parent wn wf zip hn hf
                      dn df)
              | inr rn ↦
                  rw (balance, under, hw, h.near, h.far, c, Raised-color m nil w wn h.holds_near rn)
                    (near_red wn wf (top wn) zip rn hf df c)
            ]
      ]

-- A dark tree that is not empty, by its sides.
pub record Split (n : ℕ) (s : Side) (t : Tree) : Type 0 where
  w : ℕ
  near : Tree
  far : Tree
  is : t ≡ on s w black near far
  rb_near : Rb n near
  rb_far : Rb n far

pub Dark-Split : (n : ℕ) (s : Side) (t : Tree) → Rb (suc n) t → Dark t → Split n s t
Dark-Split n s leaf h d = absurd (omega (arith, h))
Dark-Split n s (node i red l r) h d = absurd d
Dark-Split n left (node i black l r) (k, e, a, b) d =
    let q : k ≡ n = omega (arith, e) in
    record {
      w = i;
      near = l;
      far = r;
      is = refl;
      rb_near = subst (λ x. Rb x l) q a;
      rb_far = subst (λ x. Rb x r) q b;
    }
Dark-Split n right (node i black l r) (k, e, a, b) d =
    let q : k ≡ n = omega (arith, e) in
    record {
      w = i;
      near = r;
      far = l;
      is = refl;
      rb_near = subst (λ x. Rb x r) q b;
      rb_far = subst (λ x. Rb x l) q a;
    }

pub After-then :
    {K V : Type 0} (m m' : Map K V) (old old' : List ℕ) (room : ℕ) {out : Map K V × ℕ}
    → Quiet m m'
    → old ≡ old'
    → After m' old room out
    → After m old' room out
After-then m m' old old' room q e (still_missing {m' = m''} {x'} q' place) =
    still_missing (Quiet-then m m' m'' q q') (subst (λ o. Place m'' x' o room) e place)
After-then m m' old old' room q e (made_good {m' = m''} {x'} q' whole) =
    made_good (Quiet-then m m' m'' q q') (subst (Whole m'' x') e whole)

module _ {K V : Type 0} (m : Map K V) (nil : m.color 0 ≡ black) (ctx : List Frame) (s : Side)
    (p n : ℕ) (t : Tree) (under : m.parent (top t) ≡ p) (rb_t : Rb n t) (dark_t : Dark t) where
  -- The sibling is black.
  pub sibling_black :
      (cp : Color) (sib : Tree) (room : ℕ)
      → Parent n room cp ctx
      → Zip m (frame s p cp sib ∷ ctx) t
      → Rb (suc n) sib
      → Dark sib
      → After m (inorder (plug ctx (on s p cp t sib))) (suc room) (balance s m (top t))
  sibling_black cp sib room parent zip hs ds =
      let h = Dark-Split n s sib hs ds in
      subst (λ x. After m (inorder (plug ctx (on s p cp t x))) (suc room) (balance s m (top t)))
        (sym h.is)
        (balance-After m nil ctx s p h.w n cp t under rb_t dark_t room parent h.near h.far
          (subst (λ x. Zip m (frame s p cp x ∷ ctx) t) h.is zip) h.rb_near h.rb_far)

  -- The place is on the side that the code takes.
  pub side_here :
      (cp : Color) (sib : Tree)
      → Zip m (frame s p cp sib ∷ ctx) t
      → Rb (suc n) sib
      → side_of m (top t) ≡ s
  side_here cp sib zip hs = place_side m s p (top t) (top sib) under zip.around.3 zip.around.4 (λ e.
      let real = Rb-real m n p sib hs zip.around.5 in
      omega (
        arith,
        zip.once (top sib),
        top-occ sib real,
        occ_eq (top sib) t (λ q. real (sym e ∙ q)) (sym e),
      ))
