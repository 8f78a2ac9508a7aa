-- ===== src/LockFreeQueue/Claim.antt =====
-- What a thread knows of a cell whose sequence number it has found right.
use cpp_lockfree_core.Base.{ℕ, ◌+◌, ◌%◌, ◌≤◌, ◌<◌, ◌≡◌, sym, ap, length, arith, ℕ_discrete, dec_lt}
use cpp_lockfree_core.Base.Masks.{mod-apart}
use native.Mathlib.Nat.{mod-lt}
use cpp_lockfree_core.LockFreeQueue.{Queue}
use cpp_lockfree_core.LockFreeQueue.Invariant.{
  Fifo, Stage, vacant, filled, filling, draining, Fits, Cells,
}

-- Two tickets of one cell, less than a turn apart, are one.
pub same_ticket : (c p q : ℕ) → p % c ≡ q % c → p < q + c → q < p + c → p ≡ q
same_ticket c p q e h l = elim (ℕ_discrete p q) [
  | yes r ↦ r
  | no ne ↦ elim (dec_lt p q) [
    | yes a ↦ let z = mod-apart c p q e a in absurd (omega arith)
    | no b ↦ let z = mod-apart c q p (sym e) (omega (arith, ne, b)) in absurd (omega arith)
  ]
]

module _ {V : Type 0} {c : ℕ} {q : Queue V} {f : Fifo V} {stage : ℕ → Stage}
    (cells : Cells c q f stage) where
  pub cell_of : (pos : ℕ) → pos % c < c
  cell_of pos = mod-lt pos (omega (arith, cells.two_cells))

  -- The cell of the next ticket is vacant if its sequence number has come up to the ticket.
  pub vacant_here :
      (n : ℕ) → n ≡ length f.pushes → n ≤ q.sequence (n % c) → stage (n % c) ≡ vacant n
  vacant_here n e reached = go (stage (n % c)) (cells.fits (n % c) (cell_of n))
    where
      go :
          (st : Stage)
          → Fits c
              (length f.pushes)
              f.taken
              f.pushes
              (n % c)
              (q.sequence (n % c))
              (q.value (n % c))
              st
          → st ≡ vacant n
      go (vacant p) (s, m, low, high) =
          ap vacant
            (same_ticket c p n m (omega (arith, cells.taken_few)) (omega (arith, cells.two_cells)))
      go (filling j p) (s, m, low, high) = absurd (omega arith)
      go (filled p) (s, m, low, high, g) =
          let z = mod-apart c p n m (omega arith) in absurd (omega (arith, cells.two_cells))
      go (draining j p) (s, m, low, high, g) =
          let z = mod-apart c p n m (omega (arith, cells.taken_few)) in
          absurd (omega (arith, cells.two_cells))

  -- The cell of the next pop is filled if its sequence number has gone past the ticket.
  pub filled_here : (d : ℕ) → d ≡ f.taken → d + 1 ≤ q.sequence (d % c) → stage (d % c) ≡ filled d
  filled_here d e reached = go (stage (d % c)) (cells.fits (d % c) (cell_of d))
    where
      go :
          (st : Stage)
          → Fits c
              (length f.pushes)
              f.taken
              f.pushes
              (d % c)
              (q.sequence (d % c))
              (q.value (d % c))
              st
          → st ≡ filled d
      go (vacant p) (s, m, low, high) =
          let z = mod-apart c d p (sym m) (omega arith) in absurd (omega arith)
      go (filling j p) (s, m, low, high) =
          let z = mod-apart c d p (sym m) (omega arith) in absurd (omega (arith, cells.room))
      go (filled p) (s, m, low, high, g) =
          ap filled
            (same_ticket c p d m (omega (arith, cells.room)) (omega (arith, cells.two_cells)))
      go (draining j p) (s, m, low, high, g) = absurd (omega arith)
