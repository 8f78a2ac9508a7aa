-- ===== src/Map/Keep.antt =====
-- Nodes that a change does not touch, the moves of the place in a tree, and the painting of a node.
use cpp_lockfree_core.Base.{ℕ, ◌+◌, ◌≡◌, ◌≢◌, ◌≤◌, refl, sym, ap, ◌∙◌, subst, List, [], ◌∷◌, arith}
use cpp_lockfree_core.Family.{update_self, update_ne}
use cpp_lockfree_core.Map.{Map, Color, Side, left, right, other, paint}
use cpp_lockfree_core.Map.Shape.{
  Tree, leaf, node, on, Frame, top, above, one, occ, occ_above, Holds, Above, Zip, Holds-At,
  At-Holds, top-on, occ-on, one_self,
}

module _ {K V : Type 0} (m m' : Map K V) where
  -- A node is the same in both.
  pub record Same (i : ℕ) : Type 0 where
    pub color : m'.color i ≡ m.color i
    pub parent : m'.parent i ≡ m.parent i
    pub child : (s : Side) → m'.child s i ≡ m.child s i

  pub Holds-Same :
      (p : ℕ) (t : Tree) → ((i : ℕ) → 1 ≤ occ i t → Same i) → Holds m p t → Holds m' p t
  Holds-Same p leaf same h = tt
  Holds-Same p (node i c l r) same (a, k, u, x, y, hl, hr) =
      let here = same i (omega (arith, one_self i)) in
      (
        a,
        here.color ∙ k,
        here.parent ∙ u,
        here.child left ∙ x,
        here.child right ∙ y,
        Holds-Same i l (λ j q. same j (omega (arith, q))) hl,
        Holds-Same i r (λ j q. same j (omega (arith, q))) hr,
      )

  -- The tree is the same, but hangs from another node.
  pub Holds-moved :
      (p p' : ℕ) (t : Tree)
      → ((i : ℕ) → 1 ≤ occ i t → i ≢ top t → Same i)
      → (top t ≢ 0 → m'.parent (top t) ≡ p')
      → (top t ≢ 0 → m'.color (top t) ≡ m.color (top t))
      → ((s : Side) → top t ≢ 0 → m'.child s (top t) ≡ m.child s (top t))
      → ((i : ℕ) → occ i t ≤ 1)
      → Holds m p t
      → Holds m' p' t
  Holds-moved p p' leaf same u k c once h = tt
  Holds-moved p p' (node i c l r) same u k ch once (a, e, _, x, y, hl, hr) =
      let apart : (j : ℕ) → 1 ≤ occ j l + occ j r → j ≢ i = λ j q e.
        let twice : occ i l + occ i r ≡ occ j l + occ j r = ap (λ z. occ z l + occ z r) (sym e) in
        omega (arith, once i, one_self i, q, twice) in
      (
        a,
        k a ∙ e,
        u a,
        ch left a ∙ x,
        ch right a ∙ y,
        Holds-Same i l (λ j q. same j (omega (arith, q)) (apart j (omega (arith, q)))) hl,
        Holds-Same i r (λ j q. same j (omega (arith, q)) (apart j (omega (arith, q)))) hr,
      )

  pub Above-Same :
      (ctx : List Frame) (a : ℕ)
      → m'.root ≡ m.root
      → ((i : ℕ) → 1 ≤ occ_above i ctx → Same i)
      → Above m ctx a
      → Above m' ctx a
  Above-Same [] a root same h = root ∙ h
  Above-Same (f ∷ ctx) a root same (r, k, u, n, z, s, rest) =
      let here = same f.at (omega (arith, one_self f.at)) in
      (
        r,
        here.color ∙ k,
        here.parent ∙ u,
        here.child f.side ∙ n,
        here.child (other f.side) ∙ z,
        Holds-Same f.at f.sibling (λ j q. same j (omega (arith, q))) s,
        Above-Same ctx f.at root (λ j q. same j (omega (arith, q))) rest,
      )

module _ {K V : Type 0} (m : Map K V) (ctx : List Frame) where
  -- The place moves up to the parent,
  pub Zip-up :
      (f : Frame) (t : Tree) → Zip m (f ∷ ctx) t → Zip m ctx (on f.side f.at f.col t f.sibling)
  Zip-up f t z =
      let (r, k, u, n, b, s, rest) = z.around in
      record {
        here = At-Holds m (above ctx) f.side f.at f.col t f.sibling (record {
          real = r;
          colored = k;
          under = u;
          near = n;
          far = b;
          holds_near = z.here;
          holds_far = s;
        });
        around = subst (Above m ctx) (sym (top-on f.side f.at f.col t f.sibling)) rest;
        once = λ i. omega (arith, z.once i, occ-on i f.side f.at f.col t f.sibling);
      }

  -- and down to a child.
  pub Zip-down :
      (s : Side) (i : ℕ) (c : Color) (a b : Tree)
      → Zip m ctx (on s i c a b)
      → Zip m (record { side = s; at = i; col = c; sibling = b } ∷ ctx) a
  Zip-down s i c a b z =
      let h = Holds-At m (above ctx) s i c a b z.here in
      record {
        here = h.holds_near;
        around = (
          h.real,
          h.colored,
          h.under,
          h.near,
          h.far,
          h.holds_far,
          subst (Above m ctx) (top-on s i c a b) z.around,
        );
        once = λ j. omega (arith, z.once j, occ-on j s i c a b);
      }

  -- The node at the place is painted.
  pub paint-Zip :
      (s : Side) (i : ℕ) (c c' : Color) (a b : Tree)
      → Zip m ctx (on s i c a b)
      → Zip (paint m i c') ctx (on s i c' a b)
  paint-Zip s i c c' a b z =
      let h = Holds-At m (above ctx) s i c a b z.here in
      let same : (j : ℕ) → j ≢ i → Same m (paint m i c') j =
        λ j ne. record { color = update_ne m.color i c' j ne; parent = refl; child = λ t. refl } in
      let once : (j : ℕ) → occ_above j ctx + (one j i + occ j a + occ j b) ≤ 1 =
        λ j. omega (arith, z.once j, occ-on j s i c a b) in
      let apart : (j : ℕ) → 1 ≤ occ_above j ctx + occ j a + occ j b → j ≢ i = λ j q e.
        let twice : occ_above i ctx + occ i a + occ i b ≡ occ_above j ctx + occ j a + occ j b =
          ap (λ y. occ_above y ctx + occ y a + occ y b) (sym e) in
        omega (arith, once i, one_self i, q, twice) in
      record {
        here = At-Holds (paint m i c') (above ctx) s i c' a b (record {
          real = h.real;
          colored = update_self m.color i c';
          under = h.under;
          near = h.near;
          far = h.far;
          holds_near =
              Holds-Same m (paint m i c') i a (λ j q. same j (apart j (omega (arith, q))))
                h.holds_near;
          holds_far =
              Holds-Same m (paint m i c') i b (λ j q. same j (apart j (omega (arith, q))))
                h.holds_far;
        });
        around = subst (Above (paint m i c') ctx) (sym (top-on s i c' a b)) (
            Above-Same m (paint m i c') ctx i refl (λ j q. same j (apart j (omega (arith, q))))
              (subst (Above m ctx) (top-on s i c a b) z.around));
        once = λ j. omega (arith, once j, occ-on j s i c' a b);
      }
