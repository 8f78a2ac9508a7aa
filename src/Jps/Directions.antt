-- ===== src/Jps/Directions.antt =====
-- The directions that are tried are of the eight, and at most eight.
use cpp_lockfree_core.Base.{
  ℕ, zero, suc, ◌≡◌, ◌≤◌, inl, inr, refl, sym, Bool, true, false, ◌||◌, List, [], ◌∷◌, Option, none,
  some, arith, length, Bool-cases,
}
use cpp_lockfree_core.Grid.{ℤ, pos, negsuc, Grid}
use cpp_lockfree_core.Grid.Cells.{true-false}
use cpp_lockfree_core.AStar.{Point, directions, nonzero}
use cpp_lockfree_core.AStar.Route.{OneOf}
use cpp_lockfree_core.Jps.{negate, sign, pushed, pruned_directions, ◌-ℤ◌}

-- A component of a direction.
pub data IsUnit : ℤ → Type 0 where
  still : IsUnit (pos 0)
  up : IsUnit (pos 1)
  down : IsUnit (negsuc 0)

pub sign-IsUnit : (a : ℤ) → IsUnit (sign a)
sign-IsUnit (pos zero) = still
sign-IsUnit (pos (suc a)) = up
sign-IsUnit (negsuc a) = down

negate-IsUnit : {a : ℤ} → IsUnit a → IsUnit (negate a)
negate-IsUnit still = still
negate-IsUnit up = down
negate-IsUnit down = up

nonzero-negate : {a : ℤ} → IsUnit a → nonzero a ≡ true → nonzero (negate a) ≡ true
nonzero-negate still h = h
nonzero-negate up h = refl
nonzero-negate down h = refl

-- A direction, which is not to stand still.
pub record IsDirection (d : ℤ × ℤ) : Type 0 where
  pub unit_x : IsUnit d.0
  pub unit_y : IsUnit d.1
  pub goes : nonzero d.0 || nonzero d.1 ≡ true

pub direction : {a b : ℤ} → IsUnit a → IsUnit b → nonzero a || nonzero b ≡ true → IsDirection (a, b)
direction u v h = record { unit_x = u; unit_y = v; goes = h }

pub IsDirection-OneOf : (a b : ℤ) → IsDirection (a, b) → OneOf (a, b) directions
IsDirection-OneOf a b d = one a b d.unit_x d.unit_y d.goes
  where
    one : (a b : ℤ) → IsUnit a → IsUnit b → nonzero a || nonzero b ≡ true → OneOf (a, b) directions
    one _ _ still still h = absurd (true-false (sym h))
    one _ _ up still h = inl refl
    one _ _ down still h = inr (inl refl)
    one _ _ still up h = inr (inr (inl refl))
    one _ _ still down h = inr (inr (inr (inl refl)))
    one _ _ up up h = inr (inr (inr (inr (inl refl))))
    one _ _ up down h = inr (inr (inr (inr (inr (inl refl)))))
    one _ _ down up h = inr (inr (inr (inr (inr (inr (inl refl))))))
    one _ _ down down h = inr (inr (inr (inr (inr (inr (inr (inl refl)))))))

-- At most `k` directions.
pub data Directions : ℕ → List (ℤ × ℤ) → Type 0 where
  nothing : (k : ℕ) → Directions k []
  one_more :
      {k : ℕ} {d : ℤ × ℤ} {ds : List (ℤ × ℤ)}
      → IsDirection d
      → Directions k ds
      → Directions (suc k) (d ∷ ds)

Directions-more : {k : ℕ} (ds : List (ℤ × ℤ)) → Directions k ds → Directions (suc k) ds
Directions-more _ (nothing k) = nothing (suc k)
Directions-more _ (one_more d h) = one_more d (Directions-more _ h)

all_eight : Directions 8 directions
all_eight = one_more (direction up still refl) (
    one_more (direction down still refl) (
      one_more (direction still up refl) (
        one_more (direction still down refl) (
          one_more (direction up up refl) (
            one_more (direction up down refl) (
              one_more (direction down up refl)
                (one_more (direction down down refl) (nothing 0))))))))

abbrev AllDirections : List (Bool × ℤ × ℤ) → Type 0
AllDirections [] = Unit {0}
AllDirections ((t, dx, dy) ∷ more) = IsDirection (dx, dy) × AllDirections more

pushed-Directions :
    (k : ℕ) (tests : List (Bool × ℤ × ℤ))
    → AllDirections tests
    → length tests ≤ k
    → Directions k (pushed tests)
unfolding pushed
pushed-Directions k [] a le = nothing k
pushed-Directions zero (x ∷ more) a le = absurd (omega arith)
pushed-Directions (suc k) ((true, dx, dy) ∷ more) (i, a) le =
    one_more i (pushed-Directions k more a (omega arith))
pushed-Directions (suc k) ((false, dx, dy) ∷ more) (i, a) le =
    Directions-more _ (pushed-Directions k more a (omega arith))

module _ (g : Grid) (x y : ℤ) where
  with_parent : (p : Point) → Directions 8 (pruned_directions g x y (some p))
  unfolding pruned_directions
  with_parent p =
      let dx = sign (x -ℤ p.x) in
      let dy = sign (y -ℤ p.y) in
      let ux = sign-IsUnit (x -ℤ p.x) in
      let uy = sign-IsUnit (y -ℤ p.y) in
      elim (Bool-cases (nonzero dx)) [
        | inl a ↦ elim (Bool-cases (nonzero dy)) [
          | inl b ↦
              rw (a, b)
                (pushed-Directions 8 _
                  (
                    direction still uy b,
                    (
                      direction ux still (ground (arith, a)),
                      (
                        direction ux uy (ground (arith, a)),
                        (
                          direction (negate-IsUnit ux) uy (ground (arith, nonzero-negate ux a)),
                          (direction ux (negate-IsUnit uy) (ground (arith, a)), tt),
                        ),
                      ),
                    ),
                  )
                  (omega arith))
          | inr b ↦
              rw (a, b)
                (pushed-Directions 8 _
                  (
                    direction ux still (ground (arith, a)),
                    (
                      direction ux up (ground (arith, a)),
                      (direction ux down (ground (arith, a)), tt),
                    ),
                  )
                  (omega arith))
        ]
        | inr a ↦ elim (Bool-cases (nonzero dy)) [
          | inl b ↦
              rw (a, b)
                (pushed-Directions 8 _
                  (direction still uy b, (direction up uy refl, (direction down uy refl, tt)))
                  (omega arith))
          | inr b ↦ rw (a, b) (pushed-Directions 8 [] tt (omega arith))
        ]
      ]

  pub pruned_directions-Directions : (p : Option Point) → Directions 8 (pruned_directions g x y p)
  unfolding pruned_directions
  pruned_directions-Directions none = all_eight
  pruned_directions-Directions (some p) = with_parent p
