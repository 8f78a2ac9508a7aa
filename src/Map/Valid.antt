-- ===== src/Map/Valid.antt =====
-- The trees that the map keeps, and what is found in one.
use cpp_lockfree_core.Base.{
  ℕ, suc, ◌≡◌, ◌≢◌, ◌<◌, refl, sym, ap, ◌∙◌, true, List, [], ◌∷◌, ◌++◌, Option, none, some, arith,
  Bool-cases, inl, inr, length,
}
use cpp_lockfree_core.Map.{Keys, Map, black, find_node, find, value_at, empty}
use cpp_lockfree_core.Map.Shape.{Tree, leaf, node, inorder, Holds, Zip}
use cpp_lockfree_core.Map.Balance.{Rb, Dark}
use cpp_lockfree_core.Map.Order.{Sorted, Missing, look}
use cpp_lockfree_core.Map.Find.{Deep-size, find_node_finds}
use cpp_lockfree_core.Map.Attach.{AllBelow}

-- The nodes are a red-black search tree, and the count is theirs. The sentinel is black, and no node
-- has been given an address that is still to come.
pub record IsValid {K V : Type 0} (keys : Keys K) (m : Map K V) : Type 0 where
  pub t : Tree
  pub zip : Zip m [] t
  pub height : ℕ
  pub rules : Rb height t
  pub dark : Dark t
  pub sorted : Sorted keys m.key (inorder t)
  pub nil : m.color 0 ≡ black
  pub below : AllBelow m.fresh (inorder t)
  pub real_fresh : m.fresh ≢ 0
  pub counted : m.count ≡ length (inorder t)

pub empty-IsValid : {K V : Type 0} (keys : Keys K) (k : K) (v : V) → IsValid keys (empty k v)
unfolding empty
empty-IsValid keys k v = record {
  t = leaf;
  zip = record { here = tt; around = refl; once = λ i. omega arith };
  height = 0;
  rules = refl;
  dark = tt;
  sorted = tt;
  nil = refl;
  below = tt;
  real_fresh = λ e. omega (arith, e);
  counted = refl;
}

-- What the map has for a key, with fuel for as many rounds as it has nodes, and one more.
abbrev pub lookup : {K V : Type 0} → Keys K → Map K V → K → Option (Option V)
lookup keys m k = find keys (suc m.count) m k

abbrev pub added : {V : Type 0} → Option (Option V) → ℕ
added (some none) = 1
added x = 0

module _ {K V : Type 0} (keys : Keys K) {m : Map K V} (valid : IsValid keys m) where
  abbrev pub nodes : List ℕ
  nodes = inorder valid.t

  pub find_node_in :
      (fuel : ℕ) (k : K)
      → m.count < fuel
      → find_node keys fuel m k m.root ≡ some (look keys m.key k nodes 0)
  find_node_in fuel k enough =
      ap (find_node keys fuel m k) valid.zip.around
      ∙ find_node_finds keys m k fuel (length nodes) 0 valid.t valid.zip.here (Deep-size valid.t)
          (omega (arith, enough, valid.counted)) valid.sorted

  pub lookup_is : (k : K) → lookup keys m k ≡ some (value_at m (look keys m.key k nodes 0))
  unfolding find
  lookup_is k = rw (find, find_node_in (suc m.count) k (omega arith)) refl

abbrev pub AllReal : List ℕ → Type 0
AllReal [] = Unit {0}
AllReal (i ∷ l) = (i ≢ 0) × AllReal l

AllReal-append : (xs ys : List ℕ) → AllReal xs → AllReal ys → AllReal (xs ++ ys)
AllReal-append [] ys a b = b
AllReal-append (x ∷ xs) ys (h, a) b = (h, AllReal-append xs ys a b)

pub Holds-AllReal :
    {K V : Type 0} (m : Map K V) (p : ℕ) (t : Tree) → Holds m p t → AllReal (inorder t)
Holds-AllReal m p leaf h = tt
Holds-AllReal m p (node i c l r) (nz, _, _, _, _, hl, hr) =
    AllReal-append (inorder l) (i ∷ inorder r) (Holds-AllReal m i l hl) (nz, Holds-AllReal m i r hr)

module _ {K : Type 0} (keys : Keys K) (key : ℕ → K) where
  -- The node that is found is one of the list, and has the key.
  pub look-below : (n : ℕ) (k : K) (l : List ℕ) → n ≢ 0 → AllBelow n l → look keys key k l 0 < n
  look-below n k [] nz a = omega (arith, nz)
  look-below n k (i ∷ l) nz (h, a) = elim (Bool-cases (keys.same k (key i))) [
    | inl e ↦ rw e h
    | inr e ↦ rw e (look-below n k l nz a)
  ]

  pub look_same :
      (k : K) (l : List ℕ)
      → look keys key k l 0 ≢ 0
      → keys.same k (key (look keys key k l 0)) ≡ true
  look_same k [] nz = absurd (nz refl)
  look_same k (i ∷ l) nz = elim (Bool-cases (keys.same k (key i))) [
    | inl e ↦ rw e e
    | inr e ↦
        let same : look keys key k (i ∷ l) 0 ≡ look keys key k l 0 = rw e refl in
        rw e (look_same k l (λ z. nz (same ∙ z)))
  ]

  pub look_zero-Missing :
      (k : K) (l : List ℕ) → AllReal l → look keys key k l 0 ≡ 0 → Missing keys key k l
  look_zero-Missing k [] r h = tt
  look_zero-Missing k (i ∷ l) (nz, r) h = elim (Bool-cases (keys.same k (key i))) [
    | inl e ↦ let z : i ≡ 0 = sym (rw e refl) ∙ h in absurd (nz z)
    | inr e ↦ (e, look_zero-Missing k l r (sym (rw e refl) ∙ h))
  ]
