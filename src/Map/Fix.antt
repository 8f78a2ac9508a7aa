-- ===== src/Map/Fix.antt =====
-- The rounds of `insertFixup`.
use cpp_lockfree_core.Base.{ℕ, ◌≡◌, ◌≢◌, refl, sym, ap, ap₂, ◌∙◌, subst, List, ◌∷◌}
use cpp_lockfree_core.Family.{update_ne}
use cpp_lockfree_core.Map.{
  Map, Color, red, black, Side, left, right, other, paint, rotate, recolor, raise,
}
use cpp_lockfree_core.Map.Shape.{Tree, node, on, Frame, Zip, on-other}
use cpp_lockfree_core.Map.Keep.{Zip-up, Zip-down, paint-Zip}
use cpp_lockfree_core.Map.Rotate.{Keeps}
use cpp_lockfree_core.Map.Turned.{rotate-Zip, rotate-Keeps, rotate_color}

abbrev pub frame : Side → ℕ → Color → Tree → Frame
frame s i c t = record { side = s; at = i; col = c; sibling = t }

pub other-other : (s : Side) → other (other s) ≡ s
other-other left = refl
other-other right = refl

module _ {K V : Type 0} (ctx : List Frame) (s : Side) (i : ℕ) (c : Color) (a b : Tree) where
  -- The place moves down to the other child.
  pub Zip-down_far :
      (m : Map K V) → Zip m ctx (on s i c a b) → Zip m (frame (other s) i c a ∷ ctx) b
  Zip-down_far m z =
      Zip-down m ctx (other s) i c b a (subst (Zip m ctx) (sym (on-other s i c a b)) z)

  pub Zip-up_far : (m : Map K V) → Zip m (frame (other s) i c a ∷ ctx) b → Zip m ctx (on s i c a b)
  Zip-up_far m z = subst (Zip m ctx) (on-other s i c a b) (Zip-up m ctx (frame (other s) i c a) b z)

-- A node that a tree has is not the sentinel.
pub Zip-real :
    {K V : Type 0} (m : Map K V) (ctx : List Frame) (s : Side) (i : ℕ) (c : Color) (a b : Tree)
    → Zip m ctx (on s i c a b)
    → i ≢ 0
Zip-real m ctx left i c a b z = z.here.0
Zip-real m ctx right i c a b z = z.here.0

pub record Done {K V : Type 0} (m m' : Map K V) (ctx : List Frame) (t : Tree) : Type 0 where
  pub zip : Zip m' ctx t
  pub keeps : Keeps m m'
  pub nil : m'.color 0 ≡ m.color 0

module _ {K V : Type 0} (m : Map K V) (ctx : List Frame) (sp sg : Side) (p g : ℕ)
    (sib unc : Tree) where
  abbrev pub family : List Frame
  family = frame sp p red sib ∷ frame sg g black unc ∷ ctx

  pub recolor-Done :
      (u : ℕ) (ul ur t : Tree)
      → unc ≡ node u red ul ur
      → Zip m family t
      → Done m (recolor m p u g) ctx (on sg g red (on sp p black t sib) (node u black ul ur))
  unfolding recolor
  recolor-Done u ul ur t e z =
      let m1 = paint m p black in
      let m2 = paint m1 u black in
      let z1 =
        paint-Zip m (frame sg g black unc ∷ ctx) sp p red black t sib
          (Zip-up m (frame sg g black unc ∷ ctx) (frame sp p red sib) t z) in
      let z2 = Zip-up m1 ctx (frame sg g black unc) (on sp p black t sib) z1 in
      let z3 = subst (λ x. Zip m1 ctx (on sg g black (on sp p black t sib) x)) e z2 in
      let z4 = Zip-down_far ctx sg g black (on sp p black t sib) (node u red ul ur) m1 z3 in
      let z5 =
        paint-Zip m1 (frame (other sg) g black (on sp p black t sib) ∷ ctx) left u red black ul ur
          z4 in
      let z6 = Zip-up_far ctx sg g black (on sp p black t sib) (node u black ul ur) m2 z5 in
      let z7 = paint-Zip m2 ctx sg g black red (on sp p black t sib) (node u black ul ur) z6 in
      let real_p = Zip-real m1 (frame sg g black unc ∷ ctx) sp p black t sib z1 in
      let real_g = Zip-real m2 ctx sg g black (on sp p black t sib) (node u black ul ur) z6 in
      let real_u = z5.here.0 in
      record {
        zip = z7;
        keeps = record { key = refl; value = refl; count = refl; fresh = refl };
        nil =
            update_ne m2.color g red 0 (λ q. real_g (sym q))
            ∙ update_ne m1.color u black 0 (λ q. real_u (sym q))
            ∙ update_ne m.color p black 0 (λ q. real_p (sym q));
      }

-- The place is an outer grandchild.
module _ {K V : Type 0} (m : Map K V) (ctx : List Frame) (s : Side) (p g z : ℕ)
    (sib unc t : Tree) where
  pub raise-Done :
      Zip m (frame s p red sib ∷ frame s g black unc ∷ ctx) t
      → m.parent z ≡ p
      → m.parent p ≡ g
      → Done m (raise s m z) ctx (on s p black t (on s g red sib unc))
  unfolding raise
  raise-Done zip hz hp =
      let m1 = paint m p black in
      let m2 = paint m1 g red in
      let z1 =
        paint-Zip m (frame s g black unc ∷ ctx) s p red black t sib
          (Zip-up m (frame s g black unc ∷ ctx) (frame s p red sib) t zip) in
      let z2 = Zip-up m1 ctx (frame s g black unc) (on s p black t sib) z1 in
      let z3 = paint-Zip m1 ctx s g black red (on s p black t sib) unc z2 in
      let turned : on s g red (on s p black t sib) unc
          ≡ on (other s) g red unc (on (other s) p black sib t) =
        sym (on-other s g red (on s p black t sib) unc)
        ∙ ap (on (other s) g red unc) (sym (on-other s p black t sib)) in
      let z4 = subst (Zip m2 ctx) turned z3 in
      let z5 = rotate-Zip m2 ctx (other s) g p red black unc sib t z4 in
      let back : on (other s) p black (on (other s) g red unc sib) t
          ≡ on s p black t (on s g red sib unc) =
        on-other s p black t (on (other s) g red unc sib)
        ∙ ap (on s p black t) (on-other s g red sib unc) in
      let k = rotate-Keeps m2 ctx (other s) g p red black unc sib t z4 in
      let c = rotate_color m2 ctx (other s) g p red black unc sib t z4 in
      let real_p = Zip-real m1 (frame s g black unc ∷ ctx) s p black t sib z1 in
      let real_g = Zip-real m1 ctx s g black (on s p black t sib) unc z2 in
      let same : rotate (other s) g m2 ≡ raise s m z =
        ap₂ (λ a b. rotate (other s) b (paint (paint m a black) b red)) (sym hz)
          (sym (ap m.parent hz ∙ hp)) in
      subst (λ x. Done m x ctx (on s p black t (on s g red sib unc))) same
        (record {
          zip = subst (Zip (rotate (other s) g m2) ctx) back z5;
          keeps = record { key = k.key; value = k.value; count = k.count; fresh = k.fresh };
          nil =
              ap (λ f. f 0) c
              ∙ update_ne m1.color g red 0 (λ q. real_g (sym q))
              ∙ update_ne m.color p black 0 (λ q. real_p (sym q));
        })
