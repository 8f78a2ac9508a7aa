-- ===== src/Map/Erase.antt =====
-- `erase` and `eraseFixup` of CppLockFreeCore/Map.h.
pub mod Colors
pub mod Lower
pub mod Finish
pub mod Round
pub mod Balanced
pub mod Fixup
pub mod Transplant
pub mod Swap
pub mod Least
pub mod Unlink
pub mod Lift
pub mod Both
pub mod Taken
pub mod Removal
use cpp_lockfree_core.Base.{
  ℕ, zero, suc, ◌-◌, Bool, true, false, not, ◌&&◌, Option, none, some, if◌then◌else◌, ◌==◌,
}
use cpp_lockfree_core.Map.{
  Keys, Map, Color, red, black, Side, left, right, other, is_red, hang, adopt, paint, replace_child,
  rotate, side_of, find_node,
}

module _ {K V : Type 0} where
  -- `v`, which may be the sentinel, takes the place of `u`; the sentinel gets a parent by this.
  unfoldable pub transplant : Map K V → ℕ → ℕ → Map K V
  transplant m u v = let m2 = replace_child m left (m.parent u) u v in adopt m2 v (m2.parent u)

  -- The loop of `minimum`, on fuel.
  unfoldable pub minimum : ℕ → Map K V → ℕ → Option ℕ
  minimum zero m x = none
  minimum (suc fuel) m x = elim (m.child left x == 0) [
    | true ↦ some x
    | false ↦ minimum fuel m (m.child left x)
  ]

  -- The sibling is red: it takes the parent's place.
  unfoldable pub lower : Side → Map K V → ℕ → Map K V
  lower s m x =
      let w = m.child (other s) (m.parent x) in
      let m2 = paint (paint m w black) (m.parent x) red in
      if is_red (m.color w) then rotate s (m2.parent x) m2 else m

  -- The child of `w` on the far side is black: the near one takes the place of `w`.
  unfoldable pub turn_near : Side → Map K V → ℕ → Map K V
  turn_near s m w =
      let m2 = paint (paint m (m.child s w) black) w red in
      if not (is_red (m.color (m.child (other s) w))) then rotate (other s) w m2 else m

  -- The end of the case in which `w` has a red child.
  unfoldable pub finish : Side → Map K V → ℕ → Map K V
  finish s m x =
      let p = m.parent x in
      let w = m.child (other s) p in
      let m2 = paint (paint m w (m.color p)) p black in
      let m3 = paint m2 (m2.child (other s) w) black in rotate s (m3.parent x) m3

  -- The cases of a sibling that is black, with the node that is next.
  unfoldable pub balance : Side → Map K V → ℕ → Map K V × ℕ
  balance s m x =
      let w = m.child (other s) (m.parent x) in
      let done = finish s (turn_near s m w) x in
      if not (is_red (m.color (m.child s w))) && not (is_red (m.color (m.child (other s) w)))
      then (paint m w red, m.parent x)
      else (done, done.root)

  -- A round of `eraseFixup` at `x`, which is black and not the root.
  unfoldable pub erase_round : Map K V → ℕ → Map K V × ℕ
  erase_round m x = let s = side_of m x in balance s (lower s m x) x

  -- The loop, on fuel, and the node painted at its end.
  unfoldable pub erase_fixup : ℕ → Map K V → ℕ → Option (Map K V)
  erase_fixup zero m x = none
  erase_fixup (suc fuel) m x = elim (not (x == m.root) && not (is_red (m.color x))) [
    | false ↦ some (paint m x black)
    | true ↦ erase_fixup fuel (erase_round m x).0 (erase_round m x).1
  ]

  -- `y`, which is the least node to the right of `z`, is taken out of its place, and `x`, its right
  -- child, takes it.
  unfoldable pub lift_out : Map K V → ℕ → ℕ → ℕ → Map K V
  lift_out m z y x =
      let m2 = transplant m y (m.child right y) in
      let m3 = hang m2 right y (m2.child right z) in
      if m.parent y == z then adopt m x y else adopt m3 (m3.child right y) y

  -- `y` takes the place of `z`, its left subtree and its colour.
  unfoldable pub put_in : Map K V → ℕ → ℕ → Map K V
  put_in m z y =
      let m2 = transplant m z y in
      let m3 = hang m2 left y (m2.child left z) in
      let m4 = adopt m3 (m3.child left y) y in paint m4 y (m4.color z)

  -- `delete z;` and `m_count--;`
  abbrev pub uncount : Option (Map K V) → Option (Map K V)
  uncount none = none
  uncount (some m) = some (record m { count = m.count - 1 })

  -- The fixup, if the colour that went missing is black.
  abbrev pub fix_if_black : ℕ → Color → Map K V → ℕ → Option (Map K V)
  fix_if_black fuel red m x = some m
  fix_if_black fuel black m x = erase_fixup fuel m x

  unfoldable pub erase_node : ℕ → Map K V → ℕ → Option (Map K V)
  erase_node fuel m z = elim (m.child left z == 0) [
    | true ↦
        uncount (fix_if_black fuel (m.color z) (transplant m z (m.child right z)) (m.child right z))
    | false ↦ elim (m.child right z == 0) [
      | true ↦
          uncount (fix_if_black fuel (m.color z) (transplant m z (m.child left z)) (m.child left z))
      | false ↦ elim (minimum fuel m (m.child right z)) [
        | none ↦ none
        | some y ↦ uncount (
            fix_if_black fuel (m.color y) (put_in (lift_out m z y (m.child right y)) z y)
              (m.child right y))
      ]
    ]
  ]

  abbrev pub erased : Map K V → Option (Map K V) → Option (Map K V × Bool)
  erased m none = none
  erased m (some m2) = some (m2, true)

-- `erase`, with what it returns.
unfoldable pub erase : {K V : Type 0} → Keys K → ℕ → Map K V → K → Option (Map K V × Bool)
erase keys fuel m k = elim (find_node keys fuel m k m.root) [
  | none ↦ none
  | some z ↦ elim (z == 0) [ true ↦ some (m, false) | false ↦ erased m (erase_node fuel m z) ]
]
