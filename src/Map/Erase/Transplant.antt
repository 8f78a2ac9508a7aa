-- ===== src/Map/Erase/Transplant.antt =====
-- A node with one subtree at most gives its place to that subtree.
use cpp_lockfree_core.Base.{
  ℕ, ◌+◌, ◌≡◌, ◌≢◌, ◌≤◌, refl, sym, ap, ◌∙◌, subst, List, [], ◌∷◌, ◌++◌, arith, ℕ_discrete,
}
use cpp_lockfree_core.Family.{update_self, update_ne}
use cpp_lockfree_core.Map.{Map, Color, Side, left, other, replace_child}
use cpp_lockfree_core.Map.Erase.{transplant}
use cpp_lockfree_core.Map.Shape.{
  Tree, leaf, node, on, Frame, above, top, one, occ, occ_above, plug, Holds, Above, Zip, top-on,
  occ-on, Holds-At, top-occ,
}
use cpp_lockfree_core.Map.Keep.{Holds-moved, Zip-down, Zip-up}
use cpp_lockfree_core.Map.Rotate.{Keeps, Replaced, replace_child-Replaced}
use cpp_lockfree_core.Map.Turn.{occ_eq, above_eq}
use cpp_lockfree_core.Map.Turned.{Above-turned}

-- What `transplant` does to the fields.
pub record Transplanted {K V : Type 0} (m m' : Map K V) (p u v : ℕ) : Type 0 where
  pub keeps : Keeps m m'
  pub color : m'.color ≡ m.color
  pub under : m'.parent v ≡ p
  pub parents : (j : ℕ) → j ≢ v → m'.parent j ≡ m.parent j
  pub root_none : p ≡ 0 → m'.root ≡ v
  pub root_some : p ≢ 0 → m'.root ≡ m.root
  pub elsewhere : (t : Side) (j : ℕ) → (p ≢ 0 → j ≢ p) → m'.child t j ≡ m.child t j
  pub at :
      p ≢ 0
      → (t : Side) → m.child t p ≡ u
      → m.child (other t) p ≢ u
      → (m'.child t p ≡ v) × (m'.child (other t) p ≡ m.child (other t) p)

pub transplant-Transplanted :
    {K V : Type 0} (m : Map K V) (p u v : ℕ)
    → m.parent u ≡ p
    → Transplanted m (transplant m u v) p u v
unfolding transplant
transplant-Transplanted m p u v e =
    let m1 = replace_child m left (m.parent u) u v in
    let r : Replaced m m1 p u v =
      subst (λ q. Replaced m m1 q u v) e (replace_child-Replaced m (m.parent u) u v left) in
    record {
      keeps = record {
        key = r.keeps.key;
        value = r.keeps.value;
        count = r.keeps.count;
        fresh = r.keeps.fresh;
      };
      color = r.color;
      under = update_self m1.parent v (m1.parent u) ∙ ap (λ f. f u) r.parent ∙ e;
      parents = λ j ne. update_ne m1.parent v (m1.parent u) j ne ∙ ap (λ f. f j) r.parent;
      root_none = r.root_none;
      root_some = r.root_some;
      elsewhere = r.elsewhere;
      at = r.at;
    }

module _ {K V : Type 0} (m : Map K V) where
  -- A node that occurs is not the sentinel.
  pub Holds-real : (p : ℕ) (t : Tree) → Holds m p t → (i : ℕ) → 1 ≤ occ i t → i ≢ 0
  Holds-real p leaf h i q e = absurd (omega arith)
  Holds-real p (node j c l r) (nz, _, _, _, _, hl, hr) i q e = elim (ℕ_discrete i j) [
    | yes same ↦ nz (sym same ∙ e)
    | no ne ↦
        let none : one i j ≡ 0 = ground (arith, ne) in
        elim (ℕ_discrete (occ i l) 0) [
          | no some_left ↦ Holds-real j l hl i (omega (arith, some_left)) e
          | yes none_left ↦ Holds-real j r hr i (omega (arith, q, none, none_left)) e
        ]
  ]

  pub Above-real :
      (ctx : List Frame) (a : ℕ) → Above m ctx a → (i : ℕ) → 1 ≤ occ_above i ctx → i ≢ 0
  Above-real [] a h i q e = absurd (omega arith)
  Above-real (f ∷ ctx) a (nz, _, _, _, _, hs, rest) i q e = elim (ℕ_discrete i f.at) [
    | yes same ↦ nz (sym same ∙ e)
    | no ne ↦
        let none : one i f.at ≡ 0 = ground (arith, ne) in
        elim (ℕ_discrete (occ i f.sibling) 0) [
          | no some_left ↦ Holds-real f.at f.sibling hs i (omega (arith, some_left)) e
          | yes none_left ↦ Above-real ctx f.at rest i (omega (arith, q, none, none_left)) e
        ]
  ]

-- The subtree is at the node's place.
pub record Moved {K V : Type 0} (m m' : Map K V) (ctx : List Frame) (t : Tree) : Type 0 where
  pub zip : Zip m' ctx t
  pub keeps : Keeps m m'
  pub color : m'.color ≡ m.color
  pub under : m'.parent (top t) ≡ above ctx

module _ {K V : Type 0} (m : Map K V) (ctx : List Frame) (s : Side) (z : ℕ) (c : Color) (r : Tree)
    (zip : Zip m ctx (on s z c leaf r)) where
  single : (j : ℕ) → occ_above j ctx + one j z + occ j r ≤ 1
  single j = omega (arith, zip.once j, occ-on j s z c leaf r)

  pub transplant-Moved : Moved m (transplant m z (top r)) ctx r
  transplant-Moved =
      let h = Holds-At m (above ctx) s z c leaf r zip.here in
      let m' = transplant m z (top r) in
      let f = transplant-Transplanted m (above ctx) z (top r) h.under in
      let apart : (j : ℕ) → 1 ≤ occ j r → above ctx ≢ 0 → j ≢ above ctx =
        λ j q nz e. omega (arith, single j, q, above_eq j ctx nz e) in
      record {
        zip = record {
          here =
              Holds-moved m m' z (above ctx) r
                (λ j q ne. record {
                  color = ap (λ k. k j) f.color;
                  parent = f.parents j ne;
                  child = λ t. f.elsewhere t j (apart j q);
                })
                (λ nz. f.under) (λ nz. ap (λ k. k (top r)) f.color)
                (λ t nz. f.elsewhere t (top r) (apart (top r) (top-occ r nz)))
                (λ j. omega (arith, single j)) h.holds_far;
          around =
              Above-turned m m' ctx z (top r) (subst (Above m ctx) (top-on s z c leaf r) zip.around)
                (λ j. omega (arith, single j)) h.real f.root_none f.root_some f.at
                (λ nz. ap (λ k. k (above ctx)) f.color)
                (λ nz. f.parents (above ctx) (λ e. omega (
                  arith,
                  single (above ctx),
                  above_eq (above ctx) ctx nz refl,
                  occ_eq (above ctx) r (λ q. nz (e ∙ q)) e,
                )))
                (λ j q ne. record {
                  color = ap (λ k. k j) f.color;
                  parent = f.parents j (λ e. omega (
                    arith,
                    single j,
                    q,
                    occ_eq j r
                        (λ y.
                          Above-real m ctx z (subst (Above m ctx) (top-on s z c leaf r) zip.around)
                            j q (e ∙ y))
                        e,
                  ));
                  child = λ t. f.elsewhere t j (λ _. ne);
                });
          once = λ j. omega (arith, single j);
        };
        keeps = f.keeps;
        color = f.color;
        under = f.under;
      }

module _ {K V : Type 0} (m : Map K V) where
  pub Zip-down_path :
      (path ctx : List Frame) (t : Tree) → Zip m ctx (plug path t) → Zip m (path ++ ctx) t
  Zip-down_path [] ctx t z = z
  Zip-down_path (f ∷ path) ctx t z =
      Zip-down m (path ++ ctx) f.side f.at f.col t f.sibling
        (Zip-down_path path ctx (on f.side f.at f.col t f.sibling) z)

  pub Zip-up_path :
      (path ctx : List Frame) (t : Tree) → Zip m (path ++ ctx) t → Zip m ctx (plug path t)
  Zip-up_path [] ctx t z = z
  Zip-up_path (f ∷ path) ctx t z =
      Zip-up_path path ctx (on f.side f.at f.col t f.sibling) (Zip-up m (path ++ ctx) f t z)
