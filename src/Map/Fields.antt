-- ===== src/Map/Fields.antt =====
-- What a rotation does to the nodes' fields.
use cpp_lockfree_core.Base.{
  ℕ, ◌≡◌, ◌≢◌, refl, sym, ap, ◌∙◌, subst, true, false, arith, if◌then◌else◌, ◌==◌, ℕ_discrete,
}
use cpp_lockfree_core.Family.{update_self, update_ne}
use cpp_lockfree_core.Map.{Map, Side, other, hang, adopt, replace_child, rotate}
use cpp_lockfree_core.Map.Rotate.{
  set_child_self, set_child_ne, set_child-other, set_child_across, Keeps, Keeps-refl, Replaced,
  replace_child-Replaced,
}

pub record Rotated {K V : Type 0} (m m' : Map K V) (s : Side) (x y b p : ℕ) : Type 0 where
  pub keeps : Keeps m m'
  pub color : m'.color ≡ m.color
  pub x_near : m'.child s x ≡ m.child s x
  pub x_far : m'.child (other s) x ≡ b
  pub y_near : m'.child s y ≡ x
  pub y_far : m'.child (other s) y ≡ m.child (other s) y
  pub x_under : m'.parent x ≡ y
  pub y_under : m'.parent y ≡ p
  pub b_under : b ≢ 0 → m'.parent b ≡ x
  pub parents : (j : ℕ) → j ≢ x → j ≢ y → (b ≢ 0 → j ≢ b) → m'.parent j ≡ m.parent j
  pub children : (t : Side) (j : ℕ) → j ≢ x → j ≢ y → (p ≢ 0 → j ≢ p) → m'.child t j ≡ m.child t j
  pub root_none : p ≡ 0 → m'.root ≡ y
  pub root_some : p ≢ 0 → m'.root ≡ m.root
  pub at_parent :
      p ≢ 0
      → (t : Side) → m.child t p ≡ x
      → m.child (other t) p ≢ x
      → (m'.child t p ≡ y) × (m'.child (other t) p ≡ m.child (other t) p)

-- `if (b != m_nil) b->parent = x;`
record Adopted {K V : Type 0} (m m' : Map K V) (b x : ℕ) : Type 0 where
  keeps : Keeps m m'
  color : m'.color ≡ m.color
  child : m'.child ≡ m.child
  root : m'.root ≡ m.root
  under : b ≢ 0 → m'.parent b ≡ x
  parents : (j : ℕ) → (b ≢ 0 → j ≢ b) → m'.parent j ≡ m.parent j

adopt-Adopted :
    {K V : Type 0} (m : Map K V) (b x : ℕ) → Adopted m (if b == 0 then m else adopt m b x) b x
adopt-Adopted m b x = elim (ℕ_discrete b 0) [
  | yes z ↦
      let e : b == 0 ≡ true = ground arith in
      rw e (record {
        keeps = Keeps-refl m;
        color = refl;
        child = refl;
        root = refl;
        under = λ n. absurd (n z);
        parents = λ j n. refl;
      })
  | no n ↦
      let e : b == 0 ≡ false = ground arith in
      rw e (record {
        keeps = record { key = refl; value = refl; count = refl; fresh = refl };
        color = refl;
        child = refl;
        root = refl;
        under = λ z. update_self m.parent b x;
        parents = λ j ne. update_ne m.parent b x j (ne n);
      })
]

pub rotate-Rotated :
    {K V : Type 0} (m : Map K V) (s : Side) (x p : ℕ)
    → m.parent x ≡ p
    → x ≢ m.child (other s) x
    → m.child s (m.child (other s) x) ≢ x
    → m.child s (m.child (other s) x) ≢ m.child (other s) x
    → p ≢ x
    → p ≢ m.child (other s) x
    → Rotated m (rotate s x m) s x (m.child (other s) x) (m.child s (m.child (other s) x)) p
unfolding rotate
rotate-Rotated m s x p hp xy bx by px py =
    let y = m.child (other s) x in
    let b = m.child s y in
    let m1 = hang m (other s) x b in
    let m2 = (if b == 0 then m1 else adopt m1 b x) in
    let m3 = adopt m2 y (m2.parent x) in
    let m4 = replace_child m3 s (m3.parent x) x y in
    let first = adopt-Adopted m1 b x in
    let old : m2.parent x ≡ p = first.parents x (λ _ z. bx (sym z)) ∙ hp in
    let q : m3.parent x ≡ p = update_ne m2.parent y (m2.parent x) x xy ∙ old in
    let r : Replaced m3 m4 p x y =
      subst (λ z. Replaced m3 m4 z x y) q (replace_child-Replaced m3 (m3.parent x) x y s) in
    let kept : (t : Side) (j : ℕ) → j ≢ x → m3.child t j ≡ m.child t j =
      λ t j ne. ap (λ f. f t j) first.child ∙ set_child_ne m.child x b (other s) t j ne in
    let up : (j : ℕ) → m4.parent j ≡ m3.parent j = λ j. ap (λ f. f j) r.parent in
    record {
      keeps = record {
        key = r.keeps.key ∙ first.keeps.key;
        value = r.keeps.value ∙ first.keeps.value;
        count = r.keeps.count ∙ first.keeps.count;
        fresh = r.keeps.fresh ∙ first.keeps.fresh;
      };
      color = r.color ∙ first.color;
      x_near =
          set_child_ne m4.child y x s s x xy
          ∙ r.elsewhere s x (λ _ z. px (sym z))
          ∙ ap (λ f. f s x) first.child
          ∙ set_child_across m.child x b s x;
      x_far =
          set_child_ne m4.child y x s (other s) x xy
          ∙ r.elsewhere (other s) x (λ _ z. px (sym z))
          ∙ ap (λ f. f (other s) x) first.child
          ∙ set_child_self m.child x b (other s);
      y_near = set_child_self m4.child y x s;
      y_far =
          set_child-other m4.child y x s y
          ∙ r.elsewhere (other s) y (λ _ z. py (sym z))
          ∙ kept (other s) y (λ z. xy (sym z));
      x_under = update_self m4.parent x y;
      y_under =
          update_ne m4.parent x y y (λ z. xy (sym z))
          ∙ up y
          ∙ update_self m2.parent y (m2.parent x)
          ∙ old;
      b_under = λ nz.
          update_ne m4.parent x y b bx
          ∙ up b
          ∙ update_ne m2.parent y (m2.parent x) b by
          ∙ first.under nz;
      parents = λ j jx jy jb.
          update_ne m4.parent x y j jx
          ∙ up j
          ∙ update_ne m2.parent y (m2.parent x) j jy
          ∙ first.parents j jb;
      children =
          λ t j jx jy jp. set_child_ne m4.child y x s t j jy ∙ r.elsewhere t j jp ∙ kept t j jx;
      root_none = r.root_none;
      root_some = λ nz. r.root_some nz ∙ first.root;
      at_parent = λ nz t e n.
          let (here, there) =
            r.at nz t (kept t p px ∙ e) (λ z. n (sym (kept (other t) p px) ∙ z)) in
          (
            set_child_ne m4.child y x s t p py ∙ here,
            set_child_ne m4.child y x s (other t) p py ∙ there ∙ kept (other t) p px,
          );
    }
