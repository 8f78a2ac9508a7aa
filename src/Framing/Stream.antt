-- ===== src/Framing/Stream.antt =====
-- The protocol on a stream that arrives in pieces, and on the packets of a well-behaved sender.
use cpp_lockfree_core.Base.{
  ℕ, zero, suc, ◌+◌, ◌≤◌, ◌<◌, ◌≡◌, refl, ap, ◌∙◌, sym, List, [], ◌∷◌, ◌++◌, false, arith, length,
  take, drop, length-drop, map, length-append, append_assoc, take-append_left, drop-append_left,
  take-append, drop-append,
}
use cpp_lockfree_core.Bytes.{le_bytes, le_value, length-le_bytes, le_value-le_bytes}
use cpp_lockfree_core.Packet.{header_size, max_packet_size}
use cpp_lockfree_core.Framing.{waits, protocol_error}
use cpp_lockfree_core.Framing.Split.{
  refused, Cut, split, header_of, after, short, bad, partial, whole, Case-of, split-short,
  split-bad, split-partial, split-whole, split-fuel, split-rest,
}

-- With fuel for every packet that the bytes can hold.
unfoldable pub cut : List ℕ → Cut
cut s = split (suc (length s)) s

abbrev pub prepend : List (List ℕ) → Cut → Cut
prepend ps c = record c { packets = ps ++ c.packets }

-- What becomes of `c` when the bytes `t` arrive: a stream that was refused stays refused.
abbrev pub resume_by : (List ℕ → Cut) → Cut → List ℕ → Cut
resume_by go c t = elim c.verdict [
  | waits ↦ prepend c.packets (go (c.rest ++ t))
  | protocol_error ↦ record c { rest = c.rest ++ t }
]

abbrev pub resume : Cut → List ℕ → Cut
unfolding cut
resume = resume_by cut

header_of-append : (s t : List ℕ) → header_size ≤ length s → header_of (s ++ t) ≡ header_of s
header_of-append s t h = ap le_value (take-append_left header_size s t h)

resume_by-after :
    (go : List ℕ → Cut) (c : Cut) (p t : List ℕ)
    → resume_by go (after p c) t ≡ after p (resume_by go c t)
resume_by-after go c p t = ground arith

resume_by-cong :
    (go go' : List ℕ → Cut) (c : Cut) (t : List ℕ)
    → go (c.rest ++ t) ≡ go' (c.rest ++ t)
    → resume_by go c t ≡ resume_by go' c t
resume_by-cong go go' c t e = ground arith

split-append :
    (f : ℕ) (s t : List ℕ)
    → length (s ++ t) < f
    → split f (s ++ t) ≡ resume_by (split f) (split f s) t
split-append zero s t h = absurd (omega arith)
split-append (suc f) s t h = elim (Case-of s) [
  | short l ↦ rw (split-short f s l)
  | bad l b ↦ rw (split-bad f s l b) (
      split-bad f (s ++ t) (omega (arith, length-append s t))
        (ap refused (header_of-append s t l) ∙ b))
  | partial l b p ↦ rw (split-partial f s l b p)
  | whole l b w ↦
      let size = header_size + header_of s in
      let e : header_of (s ++ t) ≡ header_of s = header_of-append s t l in
      let c = split f (drop size s) in
      let first : split (suc f) (s ++ t) ≡ after (take size s) (split f (drop size s ++ t)) =
        split-whole f (s ++ t) (omega (arith, length-append s t)) (ap refused e ∙ b)
          (omega (arith, e, length-append s t))
        ∙ rw (e, take-append_left size s t w, drop-append_left size s t w) refl in
      let small : length (drop size s ++ t) < f =
        omega (arith, length-append s t, length-append (drop size s) t, length-drop size s) in
      let room : length (c.rest ++ t) < f = omega (
        arith,
        small,
        length-append (drop size s) t,
        length-append c.rest t,
        split-rest f (drop size s),
      ) in
      first
      ∙ ap (after (take size s)) (
          split-append f (drop size s) t small
          ∙ resume_by-cong (split f) (split (suc f)) c t
              (split-fuel f (suc f) (c.rest ++ t) room (omega arith)))
      ∙ sym (resume_by-after (split (suc f)) c (take size s) t)
      ∙ ap (λ k. resume_by (split (suc f)) k t) (sym (split-whole f s l b w))
]

-- Bytes may arrive in pieces of any sizes: cutting `s` and going on with `t` when it arrives gives
-- the packets, the rest and the verdict of cutting `s ++ t` at once.
pub cut-append : (s t : List ℕ) → cut (s ++ t) ≡ resume (cut s) t
unfolding cut
cut-append s t =
    let full = suc (length (s ++ t)) in
    let c = split full s in
    split-append full s t (omega arith)
    ∙ resume_by-cong (split full) cut c t (
        split-fuel full (suc (length (c.rest ++ t))) (c.rest ++ t)
          (omega (arith, length-append s t, length-append c.rest t, split-rest full s))
          (omega arith))
    ∙ ap (λ k. resume_by cut k t)
        (split-fuel full (suc (length s)) s (omega (arith, length-append s t)) (omega arith))

-- A packet as a sender frames it: the length of the payload, and the payload.
unfoldable pub encode : List ℕ → List ℕ
encode payload = le_bytes 2 (length payload) ++ payload

unfoldable pub encode_all : List (List ℕ) → List ℕ
unfolding encode
encode_all [] = []
encode_all (p ∷ ps) = encode p ++ encode_all ps

abbrev pub AllShort : List (List ℕ) → Type 0
AllShort [] = Unit {0}
AllShort (p ∷ ps) = (length p ≤ max_packet_size) × AllShort ps

length-encode : (p : List ℕ) → length (encode p) ≡ header_size + length p
unfolding encode
length-encode p =
    omega (arith, length-append (le_bytes 2 (length p)) p, length-le_bytes 2 (length p))

header_of-encode :
    (p t : List ℕ) → length p ≤ max_packet_size → header_of (encode p ++ t) ≡ length p
unfolding encode
header_of-encode p t h = rw (append_assoc (le_bytes 2 (length p)) p t) (
    ap le_value (
      ap (λ k. take k (le_bytes 2 (length p) ++ (p ++ t))) (sym (length-le_bytes 2 (length p)))
      ∙ take-append (le_bytes 2 (length p)) (p ++ t))
    ∙ le_value-le_bytes 2 (length p) (omega arith))

good_length : (n : ℕ) → n ≤ max_packet_size → refused n ≡ false
unfolding refused
good_length n h = ground arith

cut-encode :
    (p t : List ℕ) → length p ≤ max_packet_size → cut (encode p ++ t) ≡ after (encode p) (cut t)
unfolding cut
cut-encode p t h =
    let s = encode p ++ t in
    let e : header_of s ≡ length p = header_of-encode p t h in
    let total : length s ≡ header_size + length p + length t =
      omega (arith, length-append (encode p) t, length-encode p) in
    let size : header_size + header_of s ≡ length (encode p) = omega (arith, e, length-encode p) in
    split-whole (length s) s (omega arith) (ap refused e ∙ good_length (length p) h)
      (omega (arith, e))
    ∙ rw (size, take-append (encode p) t, drop-append (encode p) t)
        (ap (after (encode p))
          (split-fuel (length s) (suc (length t)) t (omega arith) (omega arith)))

-- Packets framed by a sender whose payloads keep the limit come out one by one, whole, in order,
-- and what follows them is cut as if they had not been there.
pub cut-encode_all :
    (ps : List (List ℕ)) (t : List ℕ)
    → AllShort ps
    → cut (encode_all ps ++ t) ≡ prepend (map encode ps) (cut t)
unfolding encode_all
cut-encode_all [] t h = refl
cut-encode_all (p ∷ ps) t h =
    ap cut (append_assoc (encode p) (encode_all ps) t)
    ∙ cut-encode p (encode_all ps ++ t) h.0
    ∙ ap (after (encode p)) (cut-encode_all ps t h.1)
