-- ===== src/Map/Erase/Lower.antt =====
-- A red sibling takes the parent's place.
use cpp_lockfree_core.Base.{ℕ, ◌≡◌, refl, ◌∙◌, false, List, ◌∷◌}
use cpp_lockfree_core.Map.{Map, Color, red, black, Side, other, is_red, paint, rotate}
use cpp_lockfree_core.Map.Erase.{lower}
use cpp_lockfree_core.Map.Shape.{Tree, on, Frame, top, Zip, top-on, Holds-At}
use cpp_lockfree_core.Map.Keep.{Zip-up, Zip-down, paint-Zip}
use cpp_lockfree_core.Map.Turned.{rotate-Zip}
use cpp_lockfree_core.Map.Fix.{frame, Zip-down_far, Zip-up_far, Zip-real}
use cpp_lockfree_core.Map.Erase.Colors.{Quiet, Quiet-then, paint-Quiet, rotate-Quiet}

pub record Lowered {K V : Type 0} (m m' : Map K V) (ctx : List Frame) (t : Tree) : Type 0 where
  pub zip : Zip m' ctx t
  pub quiet : Quiet m m'

module _ {K V : Type 0} (m : Map K V) (ctx : List Frame) (s : Side) (p w : ℕ) (wn wf t : Tree)
    (under : m.parent (top t) ≡ p) where
  pub lower-Lowered :
      Zip m (frame s p black (on s w red wn wf) ∷ ctx) t
      → Lowered m (lower s m (top t)) (frame s p red wn ∷ frame s w black wf ∷ ctx) t
  unfolding lower
  lower-Lowered zip =
      let sib = on s w red wn wf in
      let m1 = paint m w black in
      let m2 = paint m1 p red in
      let z1 = Zip-up m ctx (frame s p black sib) t zip in
      let z2 = Zip-down_far ctx s p black t sib m z1 in
      let z3 = paint-Zip m (frame (other s) p black t ∷ ctx) s w red black wn wf z2 in
      let z4 = Zip-up_far ctx s p black t (on s w black wn wf) m1 z3 in
      let z5 = paint-Zip m1 ctx s p black red t (on s w black wn wf) z4 in
      let z6 = rotate-Zip m2 ctx s p w red black t wn wf z5 in
      let z7 = Zip-down (rotate s p m2) ctx s w black (on s p red t wn) wf z6 in
      let z8 = Zip-down (rotate s p m2) (frame s w black wf ∷ ctx) s p red t wn z7 in
      let real_w = Zip-real m1 (frame (other s) p black t ∷ ctx) s w black wn wf z3 in
      let real_p = Zip-real m1 ctx s p black t (on s w black wn wf) z4 in
      let hw : m.child (other s) p ≡ w = zip.around.4 ∙ top-on s w red wn wf in
      let c : m.color w ≡ red = (Holds-At m p s w red wn wf zip.around.5).colored in
      let done : Lowered m (rotate s p m2) (frame s p red wn ∷ frame s w black wf ∷ ctx) t =
        record {
          zip = z8;
          quiet =
              Quiet-then m m2 (rotate s p m2)
                (Quiet-then m m1 m2 (paint-Quiet m w black real_w) (paint-Quiet m1 p red real_p))
                (rotate-Quiet m2 ctx s p w red black t wn wf z5);
        } in
      rw (lower, under, hw, c) done

module _ {K V : Type 0} (m : Map K V) (ctx : List Frame) (s : Side) (p : ℕ) (t : Tree)
    (under : m.parent (top t) ≡ p) where
  -- A black sibling stays.
  pub lower_stays :
      (c : Color) (sib : Tree)
      → Zip m (frame s p c sib ∷ ctx) t
      → is_red (m.color (top sib)) ≡ false
      → lower s m (top t) ≡ m
  unfolding lower
  lower_stays c sib zip e = rw (lower, under, zip.around.4, e) refl
