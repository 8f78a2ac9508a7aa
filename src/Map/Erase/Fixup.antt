-- ===== src/Map/Erase/Fixup.antt =====
-- `eraseFixup` ends in a red-black tree with the same nodes in the same order.
use cpp_lockfree_core.Base.{
  ℕ, zero, suc, ◌≡◌, ◌≢◌, ◌<◌, ◌⊎◌, inl, inr, refl, sym, ap, ◌∙◌, subst, true, false, not, ◌&&◌,
  List, [], ◌∷◌, arith, length, ◌==◌, some,
}
use cpp_lockfree_core.Map.{Map, red, black, left, is_red, paint}
use cpp_lockfree_core.Map.Erase.{lower, erase_round}
use cpp_lockfree_core.Map.Shape.{
  Tree, leaf, node, on, Frame, above, top, inorder, plug, Zip, top-on,
}
use cpp_lockfree_core.Map.Turn.{occ_eq}
use cpp_lockfree_core.Map.Fix.{frame, Zip-real}
use cpp_lockfree_core.Map.Balance.{
  Rb, Dark, RbAbove, under_black, under_red, Raised-Halves, inorder-plug, inorder-turn,
}
use cpp_lockfree_core.Map.Erase.Colors.{Quiet, Dark-or_Raised, Dark-color}
use cpp_lockfree_core.Map.Erase.Lower.{lower-Lowered, lower_stays}
use cpp_lockfree_core.Map.Erase.Round.{
  After, made_good, still_missing, Place, Whole, black_parent, red_parent, RedTop,
}
use cpp_lockfree_core.Map.Keep.{paint-Zip, Zip-up}
use cpp_lockfree_core.Map.Loop.{Fixed, paint_root, Zip-plug}
use cpp_lockfree_core.Map.Balance.{plug-Rb}
use cpp_lockfree_core.Map.Erase.{erase_fixup}
use cpp_lockfree_core.Map.Erase.Colors.{
  Deficit, short, red_top, plug-Dark, top-plug-above, paint-Quiet,
}
use cpp_lockfree_core.Map.Erase.Balanced.{sibling_black, side_here, After-then, under_kept}

module _ {K V : Type 0} (m : Map K V) (nil : m.color 0 ≡ black) where
  erase_round-After :
      (f : Frame) (ctx : List Frame) (n : ℕ) (t : Tree)
      → Zip m (f ∷ ctx) t
      → Rb n t
      → Dark t
      → RbAbove (suc n) (f ∷ ctx)
      → m.parent (top t) ≡ f.at
      → After m (inorder (plug (f ∷ ctx) t)) (suc (length ctx)) (erase_round m (top t))
  unfolding erase_round
  erase_round-After _ _ n t zip rb dark (under_red {ctx} s p sib hs ds da rest) under =
      let side = side_here m nil ctx s p n t under rb dark red sib zip hs in
      let stays =
        lower_stays m ctx s p t under red sib zip (Dark-color m nil p sib zip.around.5 ds) in
      rw (erase_round, side, stays)
        (sibling_black m nil ctx s p n t under rb dark red sib (length ctx) (red_parent da rest) zip
          hs ds)
  erase_round-After _ _ n t zip rb dark (under_black {ctx} s p sib hs rest) under =
      let side = side_here m nil ctx s p n t under rb dark black sib zip hs in
      elim (Dark-or_Raised sib hs) [
        | inl ds ↦
            let stays =
              lower_stays m ctx s p t under black sib zip
                (Dark-color m nil p sib zip.around.5 ds) in
            rw (erase_round, side, stays)
              (sibling_black m nil ctx s p n t under rb dark black sib (length ctx)
                (black_parent rest (omega arith)) zip hs ds)
        | inr red_sib ↦
            let h = Raised-Halves s red_sib in
            let w = top sib in
            let zip2 = subst (λ x. Zip m (frame s p black x ∷ ctx) t) h.is zip in
            let m1 = lower s m (top t) in
            let r = lower-Lowered m ctx s p w h.near h.far t under zip2 in
            let up = frame s w black h.far ∷ ctx in
            let under1 = under_kept m m1 (frame s p red h.near) up t r.zip r.quiet.sentinel under in
            let turned : inorder (on s w black (on s p red t h.near) h.far)
                ≡ inorder (on s p black t sib) =
              inorder-turn s p w red black black red t h.near h.far
              ∙ ap (λ x. inorder (on s p black t x)) (sym h.is) in
            rw (erase_round, side)
              (After-then m m1 _ _ (suc (length ctx)) r.quiet
                (inorder-plug ctx (on s w black (on s p red t h.near) h.far) (on s p black t sib)
                  turned)
                (sibling_black m1 (r.quiet.nil ∙ nil) up s p n t under1 rb dark red h.near
                  (length ctx) (red_parent refl (under_black s w h.far h.rb_far rest)) r.zip
                  h.rb_near h.dark_near))
      ]

  -- A red node at the place is painted.
  painted :
      (ctx : List Frame) (n x : ℕ) (l r : Tree)
      → Zip m ctx (node x red l r)
      → Rb n l
      → Rb n r
      → RbAbove (suc n) ctx
      → Fixed m (paint m x black) (inorder (plug ctx (node x red l r)))
  painted ctx n x l r zip hl hr fits =
      let t = node x black l r in
      let z = paint-Zip m ctx left x red black l r zip in
      let (k, rules) = plug-Rb ctx (suc n) t fits (n, refl, hl, hr) (inl tt) in
      let quiet = paint-Quiet m x black zip.here.0 in
      record {
        t = plug ctx t;
        zip = Zip-plug (paint m x black) ctx t z;
        height = k;
        rules = rules;
        dark = plug-Dark fits t (λ e. tt);
        order = inorder-plug ctx t (node x red l r) refl;
        keeps = quiet.keeps;
        nil = quiet.nil ∙ nil;
      }

  plug-real :
      (f : Frame) (ctx : List Frame) (t : Tree) → Zip m (f ∷ ctx) t → top (plug (f ∷ ctx) t) ≢ 0
  plug-real f [] t zip e =
      Zip-real m [] f.side f.at f.col t f.sibling (Zip-up m [] f t zip)
        (sym (top-on f.side f.at f.col t f.sibling) ∙ e)
  plug-real f (g ∷ ctx) t zip e =
      plug-real g ctx (on f.side f.at f.col t f.sibling) (Zip-up m (g ∷ ctx) f t zip) e

  -- The node at a place below another is not the root.
  not_root : (f : Frame) (ctx : List Frame) (t : Tree) → Zip m (f ∷ ctx) t → top t == m.root ≡ false
  not_root f ctx t zip =
      let whole = Zip-plug m (f ∷ ctx) t zip in
      let r : m.root ≡ top (plug (f ∷ ctx) t) = whole.around in
      let ne : top t ≢ m.root = λ e.
        let q : top (plug (f ∷ ctx) t) ≡ top t = sym (e ∙ r) in
        omega (
          arith,
          zip.once (top (plug (f ∷ ctx) t)),
          top-plug-above f ctx t,
          occ_eq (top (plug (f ∷ ctx) t)) t (λ z. plug-real f ctx t zip (q ∙ z)) q,
        ) in
      ground (arith, ne)

After-cases :
    {K V : Type 0} (m : Map K V) {old : List ℕ} {room : ℕ} {out : Map K V × ℕ}
    → After m old room out
    → (Quiet m out.0 × Place out.0 out.1 old room) ⊎ (Quiet m out.0 × Whole out.0 out.1 old)
After-cases m (still_missing q p) = inl (q, p)
After-cases m (made_good q w) = inr (q, w)

-- At the root the loop ends.
Whole-exit :
    {K V : Type 0} (fuel : ℕ) (m : Map K V) (x : ℕ) {old : List ℕ}
    → m.color 0 ≡ black
    → 0 < fuel
    → Whole m x old
    → (m' : Map K V) × (erase_fixup fuel m x ≡ some m') × Fixed m m' old
unfolding erase_fixup
Whole-exit zero m x nil h w = absurd (omega arith)
Whole-exit (suc fuel) m x {old} nil h w =
    let at : x == m.root ≡ true = rw (w.is) (ground arith) in
    let e : not (x == m.root) && not (is_red (m.color x)) ≡ false = rw at refl in
    rw (erase_fixup, e)
      (
        paint m x black,
        refl,
        subst (λ r. Fixed m (paint m r black) old) (sym w.is)
            (subst (Fixed m (paint m m.root black)) w.order
              (paint_root m nil w.t w.height w.zip w.rules)),
      )

Fixed-after :
    {K V : Type 0} (m m' m'' : Map K V) {old : List ℕ}
    → Quiet m m'
    → Fixed m' m'' old
    → Fixed m m'' old
Fixed-after m m' m'' q f = record {
  t = f.t;
  zip = f.zip;
  height = f.height;
  rules = f.rules;
  dark = f.dark;
  order = f.order;
  keeps = record {
    key = f.keeps.key ∙ q.keeps.key;
    value = f.keeps.value ∙ q.keeps.value;
    count = f.keeps.count ∙ q.keeps.count;
    fresh = f.keeps.fresh ∙ q.keeps.fresh;
  };
  nil = f.nil;
}

-- Let the tree at a place lack one black node on each way down, or be red at its top, in a tree that
-- obeys the red-black rules but for that, where the node at the place, be it the sentinel, has its
-- parent noted. Then `eraseFixup` from that node ends, with fuel for more rounds than there are nodes
-- above the place, in a red-black tree with a black root and the same nodes in the same order, and
-- keeps the keys, the values, the count and the colour of the sentinel.
pub erase_fixup-Fixed :
    {K V : Type 0} (fuel : ℕ) (m : Map K V) (ctx : List Frame) (n : ℕ) (t : Tree)
    → m.color 0 ≡ black
    → Zip m ctx t
    → Deficit n t
    → RbAbove (suc n) ctx
    → m.parent (top t) ≡ above ctx
    → (length ctx < fuel) ⊎ (RedTop t × (0 < fuel))
    → (m' : Map K V) × (erase_fixup fuel m (top t) ≡ some m') × Fixed m m' (inorder (plug ctx t))
unfolding erase_fixup
erase_fixup-Fixed zero m ctx n t nil zip lacks fits under (inl few) = absurd (omega (arith, few))
erase_fixup-Fixed zero m ctx n t nil zip lacks fits under (inr few) = absurd (omega (arith, few.1))
erase_fixup-Fixed (suc fuel) m ctx n _ nil zip (red_top x l r hl hr) fits under enough =
    let c : is_red (m.color x) ≡ true = ap is_red zip.here.1 in
    let e : not (x == m.root) && not (is_red (m.color x)) ≡ false = rw c (ground arith) in
    rw (erase_fixup, e) (paint m x black, refl, painted m nil ctx n x l r zip hl hr fits)
erase_fixup-Fixed (suc fuel) m [] n _ nil zip (short t rb dark) fits under enough =
    let at : top t == m.root ≡ true = rw (zip.around) (ground arith) in
    let e : not (top t == m.root) && not (is_red (m.color (top t))) ≡ false = rw at refl in
    rw (erase_fixup, e)
      (
        paint m (top t) black,
        refl,
        subst (λ r. Fixed m (paint m r black) (inorder t)) zip.around (paint_root m nil t n zip rb),
      )
erase_fixup-Fixed (suc fuel) m (f ∷ ctx) n _ nil zip (short t rb dark) fits under enough =
    let e : not (top t == m.root) && not (is_red (m.color (top t))) ≡ true =
      rw (not_root m nil f ctx t zip, Dark-color m nil f.at t zip.here dark) refl in
    let few : length ctx < fuel = long t dark enough in
    let next = erase_round m (top t) in
    rw (erase_fixup, e)
      (elim (After-cases m (erase_round-After m nil f ctx n t zip rb dark fits under)) [
        | inr (q, w) ↦
            let (m', r, fixed) =
              Whole-exit fuel next.0 next.1 (q.nil ∙ nil) (omega (arith, few)) w in
            (m', r, Fixed-after m next.0 m' q fixed)
        | inl (q, place) ↦
            let (m', r, fixed) =
              erase_fixup-Fixed fuel next.0 place.ctx place.n place.t (q.nil ∙ nil) place.zip
                place.lacks place.fits place.under
                (elim place.nearer [
                  | inl h ↦ inl (omega (arith, h, few))
                  | inr r ↦ inr (r, omega (arith, few))
                ]) in
            (
              m',
              ap (erase_fixup fuel next.0) place.is ∙ r,
              Fixed-after m next.0 m' q (subst (Fixed next.0 m') place.order fixed),
            )
      ])
  where
    long :
        (t : Tree)
        → Dark t
        → (suc (length ctx) < suc fuel) ⊎ (RedTop t × (0 < suc fuel))
        → length ctx < fuel
    long t d (inl h) = omega (arith, h)
    long leaf d (inr h) = absurd h.0
    long (node i red l r) d (inr h) = absurd d
    long (node i black l r) d (inr h) = absurd h.0
