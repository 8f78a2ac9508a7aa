-- ===== src/Map.antt =====
-- The red-black tree of CppLockFreeCore/Map.h. A node is an address, and address 0 is the sentinel.
pub mod Shape
pub mod Keep
pub mod Rotate
pub mod Fields
pub mod Turn
pub mod Turned
pub mod Balance
pub mod Fix
pub mod Round
pub mod Step
pub mod Loop
pub mod Order
pub mod Find
pub mod Descend
pub mod Attach
pub mod Valid
pub mod Agree
pub mod Insert
pub mod Add
pub mod Height
pub mod Erase
use cpp_lockfree_core.Base.{
  ℕ, zero, suc, ◌+◌, ◌-◌, ◌≡◌, Bool, true, false, not, ◌&&◌, Option, none, some, if◌then◌else◌,
  ◌==◌,
}
use cpp_lockfree_core.Family.{update}

-- What the tree asks of a key's `==` and `<`.
pub record Keys (K : Type 0) : Type 0 where
  pub same : K → K → Bool
  pub less : K → K → Bool
  pub same_eq : (a b : K) → same a b ≡ true → a ≡ b
  pub same_refl : (a : K) → same a a ≡ true
  pub less_irrefl : (a : K) → less a a ≡ false
  pub less_trans : (a b c : K) → less a b ≡ true → less b c ≡ true → less a c ≡ true
  pub less_total : (a b : K) → same a b ≡ false → less a b ≡ false → less b a ≡ true

pub data Color : Type 0 where
  red black : Color

-- `left` and `right`. The code writes each case for both sides.
pub data Side : Type 0 where
  left right : Side

abbrev pub other : Side → Side
other left = right
other right = left

abbrev pub is_red : Color → Bool
is_red red = true
is_red black = false

-- The nodes' fields by address. `fresh` is the address of the next `new`.
pub record Map (K V : Type 0) : Type 0 where
  pub child : Side → ℕ → ℕ
  pub parent : ℕ → ℕ
  pub color : ℕ → Color
  pub key : ℕ → K
  pub value : ℕ → V
  pub root : ℕ
  pub count : ℕ
  pub fresh : ℕ

abbrev pub set_child : (Side → ℕ → ℕ) → Side → ℕ → ℕ → Side → ℕ → ℕ
set_child f left i a left j = update (f left) i a j
set_child f left i a right j = f right j
set_child f right i a left j = f left j
set_child f right i a right j = update (f right) i a j

module _ {K V : Type 0} where
  abbrev pub hang : Map K V → Side → ℕ → ℕ → Map K V
  hang m s i a = record m { child = set_child m.child s i a }

  abbrev pub adopt : Map K V → ℕ → ℕ → Map K V
  adopt m i p = record m { parent = update m.parent i p }

  abbrev pub paint : Map K V → ℕ → Color → Map K V
  paint m i c = record m { color = update m.color i c }

  -- Puts `y` where `x` is a child of `p`, or at the root; the side `s` is looked at first.
  unfoldable pub replace_child : Map K V → Side → ℕ → ℕ → ℕ → Map K V
  replace_child m s p x y =
      if p == 0
      then record m { root = y }
      else if x == m.child s p
      then hang m s p y
      else hang m (other s) p y

  -- `rotateLeft` for `left`, `rotateRight` for `right`.
  unfoldable pub rotate : Side → ℕ → Map K V → Map K V
  rotate s x m =
      let y = m.child (other s) x in
      let b = m.child s y in
      let m1 = hang m (other s) x b in
      let m2 = (if b == 0 then m1 else adopt m1 b x) in
      let m3 = adopt m2 y (m2.parent x) in
      let m4 = replace_child m3 s (m3.parent x) x y in adopt (hang m4 s y x) x y

  -- The side of its parent on which a node is taken to be: left if it is the left child.
  unfoldable pub side_of : Map K V → ℕ → Side
  side_of m z = if z == m.child left (m.parent z) then left else right

  -- The uncle is red: parent and uncle become black, the grandparent red.
  unfoldable pub recolor : Map K V → ℕ → ℕ → ℕ → Map K V
  recolor m p uncle g = paint (paint (paint m p black) uncle black) g red

  -- `z` is an inner grandchild: it is made an outer one, and the code goes on at its old parent.
  unfoldable pub straighten : Side → Map K V → ℕ → Map K V × ℕ
  straighten s m z =
      if z == m.child (other s) (m.parent z) then (rotate s (m.parent z) m, m.parent z) else (m, z)

  -- The parent becomes black, the grandparent red, and the parent takes the grandparent's place.
  unfoldable pub raise : Side → Map K V → ℕ → Map K V
  raise s m z =
      let m2 = paint m (m.parent z) black in
      let m3 = paint m2 (m2.parent (m2.parent z)) red in
      rotate (other s) (m3.parent (m3.parent z)) m3

  -- A round of `insertFixup` at `z`, whose parent is red, with the node that is next.
  unfoldable pub fix_round : Map K V → ℕ → Map K V × ℕ
  fix_round m z =
      let p = m.parent z in
      let g = m.parent p in
      let s = side_of m p in
      let uncle = m.child (other s) g in
      let turned = straighten s m z in
      if is_red (m.color uncle)
      then (recolor m p uncle g, g)
      else (raise s turned.0 turned.1, turned.1)

  -- The loop, on fuel for its rounds, and the root painted at its end.
  unfoldable pub insert_fixup : ℕ → Map K V → ℕ → Option (Map K V)
  insert_fixup zero m z = none
  insert_fixup (suc fuel) m z = elim (is_red (m.color (m.parent z))) [
    | false ↦ some (paint m m.root black)
    | true ↦ insert_fixup fuel (fix_round m z).0 (fix_round m z).1
  ]

  abbrev pub value_at : Map K V → ℕ → Option V
  value_at m i = if i == 0 then none else some (m.value i)

  -- `new Node(key, value, m_nil)`
  unfoldable pub new_node : Map K V → K → V → Map K V
  new_node m k v = record m {
    child = set_child (set_child m.child left m.fresh 0) right m.fresh 0;
    parent = update m.parent m.fresh 0;
    color = update m.color m.fresh red;
    key = update m.key m.fresh k;
    value = update m.value m.fresh v;
    fresh = m.fresh + 1;
  }

abbrev pub toward : {K : Type 0} → Keys K → K → K → Side
toward keys k a = if keys.less k a then left else right

module _ {K V : Type 0} (keys : Keys K) where
  -- The loop of `findNode`, on fuel, from `cur`.
  unfoldable pub find_node : ℕ → Map K V → K → ℕ → Option ℕ
  find_node zero m k cur = none
  find_node (suc fuel) m k cur = elim (cur == 0) [
    | true ↦ some 0
    | false ↦ elim (keys.same k (m.key cur)) [
      | true ↦ some cur
      | false ↦ find_node fuel m k (m.child (toward keys k (m.key cur)) cur)
    ]
  ]

  -- The loop of `insert` that looks for the parent of a new node.
  unfoldable pub descend : ℕ → Map K V → K → ℕ → ℕ → Option ℕ
  descend zero m k y x = none
  descend (suc fuel) m k y x = elim (x == 0) [
    | true ↦ some y
    | false ↦ descend fuel m k x (m.child (toward keys k (m.key x)) x)
  ]

  -- `find`: the outer `none` is the end of fuel, the inner one the code's `false`.
  unfoldable pub find : ℕ → Map K V → K → Option (Option V)
  find fuel m k = elim (find_node fuel m k m.root) [ none ↦ none | some i ↦ some (value_at m i) ]

  -- The new node `z` is hung under `y`.
  unfoldable pub attach : Map K V → K → ℕ → ℕ → Map K V
  attach m k y z =
      let m2 = adopt m z y in
      let m3 =
        (if y == 0 then record m2 { root = z } else hang m2 (toward keys k (m2.key y)) y z) in
      record m3 { count = m3.count + 1 }

  unfoldable pub insert_new : ℕ → Map K V → K → V → Option (Map K V)
  insert_new fuel m k v =
      let z = m.fresh in
      let m2 = new_node m k v in
      elim (descend fuel m2 k 0 m2.root) [
        | none ↦ none
        | some y ↦ insert_fixup fuel (attach m2 k y z) z
      ]

  unfoldable pub insert : ℕ → Map K V → K → V → Option (Map K V)
  insert fuel m k v = elim (find_node fuel m k m.root) [
    | none ↦ none
    | some i ↦ elim (i == 0) [
      | false ↦ some (record m { value = update m.value i v })
      | true ↦ insert_new fuel m k v
    ]
  ]

-- `Map()`. The sentinel is its own parent and children; its key and value are never read.
unfoldable pub empty : {K V : Type 0} → K → V → Map K V
empty k v = record {
  child = λ s i. 0;
  parent = λ i. 0;
  color = λ i. black;
  key = λ i. k;
  value = λ i. v;
  root = 0;
  count = 0;
  fresh = 1;
}
