-- ===== src/Map/Shape.antt =====
-- What a tree of nodes looks like in memory: a shape with a place in it, and its addresses.
use cpp_lockfree_core.Base.{
  ℕ, ◌+◌, ◌≡◌, ◌≢◌, ◌≤◌, refl, List, [], ◌∷◌, ◌++◌, arith, if◌then◌else◌, ◌==◌,
}
use cpp_lockfree_core.Map.{Map, Color, Side, left, right, other}

pub data Tree : Type 0 where
  leaf : Tree
  node : ℕ → Color → Tree → Tree → Tree

-- The subtree on one side of a node, the node, and its subtree on the other side.
abbrev pub on : Side → ℕ → Color → Tree → Tree → Tree
on left i c a b = node i c a b
on right i c a b = node i c b a

-- A node above a place, with the side on which the place is, and the subtree on the other.
pub record Frame : Type 0 where
  pub side : Side
  pub at : ℕ
  pub col : Color
  pub sibling : Tree

abbrev pub top : Tree → ℕ
top leaf = 0
top (node i c l r) = i

abbrev pub above : List Frame → ℕ
above [] = 0
above (f ∷ ctx) = f.at

abbrev pub one : ℕ → ℕ → ℕ
one i j = if i == j then 1 else 0

-- How often an address occurs.
abbrev pub occ : ℕ → Tree → ℕ
occ i leaf = 0
occ i (node j c l r) = one i j + occ i l + occ i r

abbrev pub occ_above : ℕ → List Frame → ℕ
occ_above i [] = 0
occ_above i (f ∷ ctx) = one i f.at + occ i f.sibling + occ_above i ctx

abbrev pub inorder : Tree → List ℕ
inorder leaf = []
inorder (node i c l r) = inorder l ++ (i ∷ inorder r)

-- The whole tree.
abbrev pub plug : List Frame → Tree → Tree
plug [] t = t
plug (f ∷ ctx) t = plug ctx (on f.side f.at f.col t f.sibling)

module _ {K V : Type 0} (m : Map K V) where
  -- The nodes of a tree have its colours, and point to each other as it says.
  abbrev pub Holds : ℕ → Tree → Type 0
  Holds p leaf = Unit {0}
  Holds p (node i c l r) =
      (i ≢ 0)
      × (m.color i ≡ c)
      × (m.parent i ≡ p)
      × (m.child left i ≡ top l)
      × (m.child right i ≡ top r)
      × Holds i l
      × Holds i r

  -- The nodes above a place at which the address `a` is.
  abbrev pub Above : List Frame → ℕ → Type 0
  Above [] a = m.root ≡ a
  Above (f ∷ ctx) a =
      (f.at ≢ 0)
      × (m.color f.at ≡ f.col)
      × (m.parent f.at ≡ above ctx)
      × (m.child f.side f.at ≡ a)
      × (m.child (other f.side) f.at ≡ top f.sibling)
      × Holds f.at f.sibling
      × Above ctx f.at

  -- The tree with a place in it, and each address in it once.
  pub record Zip (ctx : List Frame) (t : Tree) : Type 0 where
    pub here : Holds (above ctx) t
    pub around : Above ctx (top t)
    pub once : (i : ℕ) → occ_above i ctx + occ i t ≤ 1

  -- A node, by its sides.
  pub record At (p : ℕ) (s : Side) (i : ℕ) (c : Color) (a b : Tree) : Type 0 where
    pub real : i ≢ 0
    pub colored : m.color i ≡ c
    pub under : m.parent i ≡ p
    pub near : m.child s i ≡ top a
    pub far : m.child (other s) i ≡ top b
    pub holds_near : Holds i a
    pub holds_far : Holds i b

  pub Holds-At :
      (p : ℕ) (s : Side) (i : ℕ) (c : Color) (a b : Tree) → Holds p (on s i c a b) → At p s i c a b
  Holds-At p left i c a b (r, k, u, n, f, x, y) = record {
    real = r;
    colored = k;
    under = u;
    near = n;
    far = f;
    holds_near = x;
    holds_far = y;
  }
  Holds-At p right i c a b (r, k, u, f, n, y, x) = record {
    real = r;
    colored = k;
    under = u;
    near = n;
    far = f;
    holds_near = x;
    holds_far = y;
  }

  pub At-Holds :
      (p : ℕ) (s : Side) (i : ℕ) (c : Color) (a b : Tree) → At p s i c a b → Holds p (on s i c a b)
  At-Holds p left i c a b h = (h.real, h.colored, h.under, h.near, h.far, h.holds_near, h.holds_far)
  At-Holds p right i c a b h =
      (h.real, h.colored, h.under, h.far, h.near, h.holds_far, h.holds_near)

pub top-on : (s : Side) (i : ℕ) (c : Color) (a b : Tree) → top (on s i c a b) ≡ i
top-on left i c a b = refl
top-on right i c a b = refl

pub occ-on :
    (j : ℕ) (s : Side) (i : ℕ) (c : Color) (a b : Tree)
    → occ j (on s i c a b) ≡ one j i + occ j a + occ j b
occ-on j left i c a b = refl
occ-on j right i c a b = omega arith

pub on-other : (s : Side) (i : ℕ) (c : Color) (a b : Tree) → on (other s) i c b a ≡ on s i c a b
on-other left i c a b = refl
on-other right i c a b = refl

pub one_self : (i : ℕ) → one i i ≡ 1
one_self i = ground arith

pub top-occ : (t : Tree) → top t ≢ 0 → 1 ≤ occ (top t) t
top-occ leaf h = absurd (h refl)
top-occ (node i c l r) h = omega (arith, one_self i)

pub above-occ : (ctx : List Frame) → above ctx ≢ 0 → 1 ≤ occ_above (above ctx) ctx
above-occ [] h = absurd (h refl)
above-occ (f ∷ ctx) h = omega (arith, one_self f.at)
