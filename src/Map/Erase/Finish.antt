-- ===== src/Map/Erase/Finish.antt =====
-- A sibling with a red child: the missing black node is made good.
use cpp_lockfree_core.Base.{ℕ, ◌≡◌, refl, sym, ap, ◌∙◌, subst, true, false, List, ◌∷◌}
use cpp_lockfree_core.Map.{Map, Color, red, black, Side, left, other, is_red, paint, rotate}
use cpp_lockfree_core.Map.Erase.{turn_near, finish}
use cpp_lockfree_core.Map.Shape.{Tree, node, on, Frame, top, Zip, top-on, on-other, Holds-At}
use cpp_lockfree_core.Map.Keep.{Zip-up, Zip-down, paint-Zip}
use cpp_lockfree_core.Map.Turned.{rotate-Zip}
use cpp_lockfree_core.Map.Fix.{frame, Zip-down_far, Zip-up_far, Zip-real}
use cpp_lockfree_core.Map.Erase.Colors.{Quiet-then, paint-Quiet, rotate-Quiet}
use cpp_lockfree_core.Map.Erase.Lower.{Lowered}

module _ {K V : Type 0} (m : Map K V) (ctx : List Frame) (s : Side) (p w : ℕ) (cp : Color)
    (t : Tree) (under : m.parent (top t) ≡ p) where
  -- The near child `v` of the sibling is red, and takes its place.
  pub turn_near-Lowered :
      (v : ℕ) (vn vf wf : Tree)
      → Zip m (frame s p cp (on s w black (on s v red vn vf) wf) ∷ ctx) t
      → is_red (m.color (top wf)) ≡ false
      → Lowered m (turn_near s m w) (frame s p cp (on s v black vn (on s w red vf wf)) ∷ ctx) t
  unfolding turn_near
  turn_near-Lowered v vn vf wf zip far_black =
      let wn = on s v red vn vf in
      let m1 = paint m v black in
      let m2 = paint m1 w red in
      let m3 = rotate (other s) w m2 in
      let wn' = on s v black vn vf in
      let z1 =
        Zip-down_far ctx s p cp t (on s w black wn wf) m
          (Zip-up m ctx (frame s p cp (on s w black wn wf)) t zip) in
      let around = frame (other s) p cp t ∷ ctx in
      let z2 = Zip-down m around s w black wn wf z1 in
      let z3 = paint-Zip m (frame s w black wf ∷ around) s v red black vn vf z2 in
      let z4 = Zip-up m1 around (frame s w black wf) wn' z3 in
      let z5 = paint-Zip m1 around s w black red wn' wf z4 in
      let shape : on s w red wn' wf ≡ on (other s) w red wf (on (other s) v black vf vn) =
        sym (on-other s w red wn' wf)
        ∙ ap (on (other s) w red wf) (sym (on-other s v black vn vf)) in
      let z6 = subst (Zip m2 around) shape z5 in
      let z7 = rotate-Zip m2 around (other s) w v red black wf vf vn z6 in
      let back : on (other s) v black (on (other s) w red wf vf) vn
          ≡ on s v black vn (on s w red vf wf) =
        on-other s v black vn (on (other s) w red wf vf)
        ∙ ap (on s v black vn) (on-other s w red vf wf) in
      let z8 = subst (Zip m3 around) back z7 in
      let z9 =
        Zip-down m3 ctx s p cp t (on s v black vn (on s w red vf wf))
          (Zip-up_far ctx s p cp t (on s v black vn (on s w red vf wf)) m3 z8) in
      let real_v = Zip-real m1 (frame s w black wf ∷ around) s v black vn vf z3 in
      let real_w = Zip-real m1 around s w black wn' wf z4 in
      let h = Holds-At m p s w black wn wf zip.around.5 in
      let near : m.child s w ≡ v = h.near ∙ top-on s v red vn vf in
      let done : Lowered m m3 (frame s p cp (on s v black vn (on s w red vf wf)) ∷ ctx) t = record {
        zip = z9;
        quiet =
            Quiet-then m m2 m3
              (Quiet-then m m1 m2 (paint-Quiet m v black real_v) (paint-Quiet m1 w red real_w))
              (rotate-Quiet m2 around (other s) w v red black wf vf vn z6);
      } in
      rw (turn_near, near, h.far, far_black) done

  -- The far child is red: nothing is turned.
  pub turn_near_stays :
      (wn wf : Tree)
      → Zip m (frame s p cp (on s w black wn wf) ∷ ctx) t
      → is_red (m.color (top wf)) ≡ true
      → turn_near s m w ≡ m
  unfolding turn_near
  turn_near_stays wn wf zip far_red =
      rw (turn_near, (Holds-At m p s w black wn wf zip.around.5).far, far_red) refl

  -- The end of the case.
  pub finish-Lowered :
      (f : ℕ) (fl fr wn : Tree)
      → Zip m (frame s p cp (on s w black wn (node f red fl fr)) ∷ ctx) t
      → Lowered m (finish s m (top t)) ctx (on s w cp (on s p black t wn) (node f black fl fr))
  unfolding finish
  finish-Lowered f fl fr wn zip =
      let wf = node f red fl fr in
      let wf' = node f black fl fr in
      let m1 = paint m w cp in
      let m2 = paint m1 p black in
      let m3 = paint m2 f black in
      let around = frame (other s) p cp t ∷ ctx in
      let z1 =
        Zip-down_far ctx s p cp t (on s w black wn wf) m
          (Zip-up m ctx (frame s p cp (on s w black wn wf)) t zip) in
      let z2 = paint-Zip m around s w black cp wn wf z1 in
      let z3 = Zip-up_far ctx s p cp t (on s w cp wn wf) m1 z2 in
      let z4 = paint-Zip m1 ctx s p cp black t (on s w cp wn wf) z3 in
      let z5 = Zip-down_far ctx s p black t (on s w cp wn wf) m2 z4 in
      let low = frame (other s) p black t ∷ ctx in
      let z6 = Zip-down_far low s w cp wn wf m2 z5 in
      let z7 = paint-Zip m2 (frame (other s) w cp wn ∷ low) left f red black fl fr z6 in
      let z8 =
        Zip-up_far ctx s p black t (on s w cp wn wf') m3 (Zip-up_far low s w cp wn wf' m3 z7) in
      let z9 = rotate-Zip m3 ctx s p w black cp t wn wf' z8 in
      let real_w = Zip-real m around s w black wn wf z1 in
      let real_p = Zip-real m1 ctx s p cp t (on s w cp wn wf) z3 in
      let real_f = z6.here.0 in
      let hw : m.child (other s) p ≡ w = zip.around.4 ∙ top-on s w black wn wf in
      let hf : m.child (other s) w ≡ f = (Holds-At m p s w black wn wf zip.around.5).far in
      let done : Lowered m (rotate s p m3) ctx (on s w cp (on s p black t wn) wf') = record {
        zip = z9;
        quiet =
            Quiet-then m m3 (rotate s p m3)
              (Quiet-then m m2 m3
                (Quiet-then m m1 m2 (paint-Quiet m w cp real_w) (paint-Quiet m1 p black real_p))
                (paint-Quiet m2 f black real_f))
              (rotate-Quiet m3 ctx s p w black cp t wn wf' z8);
      } in
      rw (finish, under, hw, hf, zip.around.1) done
