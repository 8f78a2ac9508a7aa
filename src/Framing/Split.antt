-- ===== src/Framing/Split.antt =====
-- The protocol by itself: how a stream of bytes is cut into packets.
use cpp_lockfree_core.Base.{
  ℕ, zero, suc, ◌+◌, ◌≤◌, ◌<◌, ◌≡◌, ap, ◌∙◌, sym, List, [], ◌∷◌, Bool, true, false, arith, ltb,
  if◌then◌else◌, length, take, drop, dec_lt, Bool-cases, inl, inr, lt→ltb, le→ltb, length-drop,
}
use cpp_lockfree_core.Bytes.{le_value}
use cpp_lockfree_core.Packet.{header_size, max_packet_size}
use cpp_lockfree_core.Framing.{Verdict, waits, protocol_error}

pub record Cut : Type 0 where
  pub packets : List (List ℕ)
  pub rest : List ℕ
  pub verdict : Verdict

abbrev pub header_of : List ℕ → ℕ
header_of s = le_value (take header_size s)

abbrev pub after : List ℕ → Cut → Cut
after p c = record c { packets = p ∷ c.packets }

-- The protocol's one rule: no payload is longer than the limit.
unfoldable pub refused : ℕ → Bool
refused h = ltb max_packet_size h

-- The packets at the front of `s`, and the bytes behind them.
unfoldable pub split : ℕ → List ℕ → Cut
split zero s = record { packets = []; rest = s; verdict = waits }
split (suc fuel) s =
    let size = header_size + header_of s in
    let body = after (take size s) (split fuel (drop size s)) in
    if ltb (length s) header_size
    then record { packets = []; rest = s; verdict = waits }
    else if refused (header_of s)
    then record { packets = []; rest = s; verdict = protocol_error }
    else if ltb (length s) size
    then record { packets = []; rest = s; verdict = waits }
    else body

abbrev pub stop : List ℕ → Verdict → Cut
stop s v = record { packets = []; rest = s; verdict = v }

-- Whether the loop ends at `s`, and how.
pub data Case (s : List ℕ) : Type 0 where
  short : length s < header_size → Case s
  bad : header_size ≤ length s → refused (header_of s) ≡ true → Case s
  partial :
      header_size ≤ length s
      → refused (header_of s) ≡ false
      → length s < header_size + header_of s
      → Case s
  whole :
      header_size ≤ length s
      → refused (header_of s) ≡ false
      → header_size + header_of s ≤ length s
      → Case s

pub Case-of : (s : List ℕ) → Case s
Case-of s = elim (dec_lt (length s) header_size) [
  | yes h ↦ short h
  | no h ↦ elim (Bool-cases (refused (header_of s))) [
    | inl b ↦ bad (omega arith) b
    | inr b ↦ elim (dec_lt (length s) (header_size + header_of s)) [
      | yes l ↦ partial (omega arith) b l
      | no l ↦ whole (omega arith) b (omega arith)
    ]
  ]
]

module _ (fuel : ℕ) (s : List ℕ) where
  pub split-short : length s < header_size → split (suc fuel) s ≡ stop s waits
  unfolding split
  split-short h = rw (lt→ltb _ _ h)

  module _ (long : header_size ≤ length s) where
    pub split-bad : refused (header_of s) ≡ true → split (suc fuel) s ≡ stop s protocol_error
    unfolding split
    split-bad b = rw (le→ltb _ _ long, b)

    module _ (good : refused (header_of s) ≡ false) where
      pub split-partial : length s < header_size + header_of s → split (suc fuel) s ≡ stop s waits
      unfolding split
      split-partial h = rw (le→ltb _ _ long, good, lt→ltb _ _ h)

      pub split-whole :
          header_size + header_of s ≤ length s
          → split (suc fuel) s
            ≡ after
                (take (header_size + header_of s) s)
                (split fuel (drop (header_size + header_of s) s))
      unfolding split
      split-whole h = rw (le→ltb _ _ long, good, le→ltb _ _ h)

-- Fuel beyond the number of bytes makes no difference.
pub split-fuel : (f g : ℕ) (s : List ℕ) → length s < f → length s < g → split f s ≡ split g s
split-fuel zero g s hf hg = absurd (omega arith)
split-fuel (suc f) zero s hf hg = absurd (omega arith)
split-fuel (suc f) (suc g) s hf hg = elim (Case-of s) [
  | short h ↦ split-short f s h ∙ sym (split-short g s h)
  | bad l b ↦ split-bad f s l b ∙ sym (split-bad g s l b)
  | partial l b h ↦ split-partial f s l b h ∙ sym (split-partial g s l b h)
  | whole l b h ↦
      split-whole f s l b h
      ∙ ap (after (take (header_size + header_of s) s)) (
          split-fuel f g (drop (header_size + header_of s) s)
            (omega (arith, length-drop (header_size + header_of s) s))
            (omega (arith, length-drop (header_size + header_of s) s)))
      ∙ sym (split-whole g s l b h)
]

-- What is left over is no longer than the stream.
pub split-rest : (f : ℕ) (s : List ℕ) → length (split f s).rest ≤ length s
unfolding split
split-rest zero s = omega arith
split-rest (suc f) s = elim (Case-of s) [
  | short h ↦ rw (split-short f s h) (omega arith)
  | bad l b ↦ rw (split-bad f s l b) (omega arith)
  | partial l b h ↦ rw (split-partial f s l b h) (omega arith)
  | whole l b h ↦ rw (split-whole f s l b h) (
      omega (
        arith,
        split-rest f (drop (header_size + header_of s) s),
        length-drop (header_size + header_of s) s,
      ))
]
