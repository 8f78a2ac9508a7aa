-- ===== src/Map/Rotate.antt =====
-- How a child is set, and how a node is put in another's place.
use cpp_lockfree_core.Base.{
  ℕ, ◌≡◌, ◌≢◌, refl, sym, ◌∙◌, subst, true, false, arith, ◌==◌, ℕ_discrete,
}
use cpp_lockfree_core.Family.{update_self, update_ne}
use cpp_lockfree_core.Map.{Map, Side, left, right, other, set_child, hang, replace_child}

module _ (f : Side → ℕ → ℕ) (i a : ℕ) where
  pub set_child_self : (s : Side) → set_child f s i a s i ≡ a
  set_child_self left = update_self (f left) i a
  set_child_self right = update_self (f right) i a

  pub set_child_ne : (s t : Side) (j : ℕ) → j ≢ i → set_child f s i a t j ≡ f t j
  set_child_ne left left j ne = update_ne (f left) i a j ne
  set_child_ne left right j ne = refl
  set_child_ne right left j ne = refl
  set_child_ne right right j ne = update_ne (f right) i a j ne

  pub set_child-other : (s : Side) (j : ℕ) → set_child f s i a (other s) j ≡ f (other s) j
  set_child-other left j = refl
  set_child-other right j = refl

  pub set_child_across : (s : Side) (j : ℕ) → set_child f (other s) i a s j ≡ f s j
  set_child_across left j = refl
  set_child_across right j = refl

-- What belongs to the nodes by themselves is the same.
pub record Keeps {K V : Type 0} (m m' : Map K V) : Type 0 where
  pub key : m'.key ≡ m.key
  pub value : m'.value ≡ m.value
  pub count : m'.count ≡ m.count
  pub fresh : m'.fresh ≡ m.fresh

pub Keeps-refl : {K V : Type 0} (m : Map K V) → Keeps m m
Keeps-refl m = record { key = refl; value = refl; count = refl; fresh = refl }

pub Keeps-trans : {K V : Type 0} {m m' m'' : Map K V} → Keeps m m' → Keeps m' m'' → Keeps m m''
Keeps-trans a b = record {
  key = b.key ∙ a.key;
  value = b.value ∙ a.value;
  count = b.count ∙ a.count;
  fresh = b.fresh ∙ a.fresh;
}

pub record Replaced {K V : Type 0} (m m' : Map K V) (p x y : ℕ) : Type 0 where
  pub keeps : Keeps m m'
  pub color : m'.color ≡ m.color
  pub parent : m'.parent ≡ m.parent
  pub root_none : p ≡ 0 → m'.root ≡ y
  pub root_some : p ≢ 0 → m'.root ≡ m.root
  pub elsewhere : (t : Side) (j : ℕ) → (p ≢ 0 → j ≢ p) → m'.child t j ≡ m.child t j
  pub at :
      p ≢ 0
      → (t : Side) → m.child t p ≡ x
      → m.child (other t) p ≢ x
      → (m'.child t p ≡ y) × (m'.child (other t) p ≡ m.child (other t) p)

module _ {K V : Type 0} (m : Map K V) (p x y : ℕ) where
  hung :
      (s : Side)
      → p ≢ 0
      → ((t : Side) → m.child t p ≡ x → m.child (other t) p ≢ x → t ≡ s)
      → Replaced m (hang m s p y) p x y
  hung s nz which = record {
    keeps = record { key = refl; value = refl; count = refl; fresh = refl };
    color = refl;
    parent = refl;
    root_none = λ z. absurd (nz z);
    root_some = λ z. refl;
    elsewhere = λ t j ne. set_child_ne m.child p y s t j (ne nz);
    at = λ z t e n.
        subst
          (λ r.
            (set_child m.child r p y t p ≡ y)
            × (set_child m.child r p y (other t) p ≡ m.child (other t) p))
          (which t e n) (set_child_self m.child p y t, set_child-other m.child p y t p);
  }

  same_side : (s t : Side) → m.child s p ≡ x → m.child t p ≡ x → m.child (other t) p ≢ x → t ≡ s
  same_side left left e f n = refl
  same_side right right e f n = refl
  same_side left right e f n = absurd (n e)
  same_side right left e f n = absurd (n e)

  other_side : (s t : Side) → m.child s p ≢ x → m.child t p ≡ x → t ≡ other s
  other_side left left n f = absurd (n f)
  other_side right right n f = absurd (n f)
  other_side left right n f = refl
  other_side right left n f = refl

  pub replace_child-Replaced : (s : Side) → Replaced m (replace_child m s p x y) p x y
  unfolding replace_child
  replace_child-Replaced s = elim (ℕ_discrete p 0) [
    | yes z ↦
        let e : p == 0 ≡ true = ground arith in
        rw e (record {
          keeps = record { key = refl; value = refl; count = refl; fresh = refl };
          color = refl;
          parent = refl;
          root_none = λ q. refl;
          root_some = λ n. absurd (n z);
          elsewhere = λ t j n. refl;
          at = λ n. absurd (n z);
        })
    | no n ↦
        let e : p == 0 ≡ false = ground arith in
        elim (ℕ_discrete x (m.child s p)) [
          | yes h ↦
              let q : x == m.child s p ≡ true = ground arith in
              rw (e, q) (hung s n (λ t f g. same_side s t (sym h) f g))
          | no h ↦
              let q : x == m.child s p ≡ false = ground arith in
              rw (e, q) (hung (other s) n (λ t f g. other_side s t (λ z. h (sym z)) f))
        ]
  ]
