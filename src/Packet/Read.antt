-- ===== src/Packet/Read.antt =====
-- What `operator>>` and `getData` take off a packet. The copy with which they close the gap takes
-- its source from the header's side of where the payload goes on, so that as a rule the two overlap.
use cpp_lockfree_core.Base.{
  ℕ, ◌+◌, ◌-◌, ◌≤◌, ◌<◌, ◌≡◌, ap, ◌∙◌, sym, none, some, List, [], ◌∷◌, ◌++◌, true, false, leb,
  if◌then◌else◌, arith, length,
}
use cpp_lockfree_core.Memory.{slice, splice, memcpy, memcpy_lem, length-splice, length-slice}
use cpp_lockfree_core.Memory.Slices.{slice-add, slice-splice_before, splice-all}
use cpp_lockfree_core.Packet.{Packet, header_size, overlap, pull, take_out, get_data, put}
use cpp_lockfree_core.Packet.Valid.{IsValid, payload, header}
use cpp_lockfree_core.Packet.Write.{
  appended, appended-IsValid, appended-payload, appended-header, put-runs,
}

pull-overlap : (p : Packet) (si n : ℕ) → overlap header_size si n ≡ true → pull p si n ≡ none
unfolding pull
pull-overlap p si n h = ground arith

pull_lem :
    (p : Packet) (si n : ℕ)
    → header_size + n ≤ length p.buffer
    → si + n ≤ length p.buffer
    → overlap header_size si n ≡ false
    → pull p si n ≡ some (record p { buffer = splice p.buffer header_size (slice p.buffer si n) })
unfolding pull
pull_lem p si n fits owned apart =
    ground (arith, memcpy_lem p.buffer header_size p.buffer si n fits owned)

-- A packet's payload holds a value of `w` bytes, and is not just one byte.
module _ {p : Packet} (w : ℕ) (dst : List ℕ) (v : IsValid p) (some_bytes : 0 < w)
    (held : w + header_size ≤ p.cur_size) (more : header_size + 1 < p.cur_size) where
  overlaps : overlap header_size w (p.cur_size - header_size) ≡ true
  unfolding overlap
  overlaps = ground arith

  pull_fails : pull p w (p.cur_size - header_size) ≡ none
  pull_fails = pull-overlap p w (p.cur_size - header_size) overlaps

  -- `operator>>` and `getData` have no behaviour in their ordinary use: on a valid packet whose
  -- payload holds the value of one byte or more that is asked for, and is itself longer than one byte,
  -- the copy that closes the gap has overlapping source and destination. Only `getData` may do nothing
  -- instead, where the value would not fit behind the payload, since its guard is that of `setData`.
  pub take_out_overlaps :
      (take_out w p dst ≡ none)
      × (get_data p dst w ≡ (if leb (p.cur_size + w) p.size then none else some (dst, p)))
  unfolding take_out get_data memcpy
  take_out_overlaps = (ground (arith, pull_fails), ground (arith, pull_fails))

-- Where the copy stays inside the block and its two ends do not overlap, `operator>>` hands out the
-- bytes behind the header, and moves the others in.
module _ {p : Packet} (w : ℕ) (dst : List ℕ) (v : IsValid p) (slot : length dst ≡ w)
    (asked : w ≤ p.cur_size) (first : header_size + w ≤ length p.buffer)
    (owned : w + (p.cur_size - header_size) ≤ length p.buffer)
    (apart : overlap header_size w (p.cur_size - header_size) ≡ false) where
  abbrev left : Packet
  left = record p {
    buffer = splice p.buffer header_size (slice p.buffer w (p.cur_size - header_size));
    cur_size = p.cur_size - w;
  }

  value : memcpy dst 0 p.buffer header_size w ≡ some (slice p.buffer header_size w)
  value =
      memcpy_lem dst 0 p.buffer header_size w (omega arith) first
      ∙ ap some (
          splice-all dst (slice p.buffer header_size w)
            (slot ∙ sym (length-slice p.buffer header_size w first)))

  take_out-runs : take_out w p dst ≡ some (slice p.buffer header_size w, left)
  unfolding take_out
  take_out-runs = ground (
    arith,
    value,
    pull_lem p w (p.cur_size - header_size) (omega (arith, v.sized, v.within, v.has_header)) owned
        apart,
    v.has_header,
  )

-- The guard of `operator>>` compares the value with the header and the payload together. On a valid
-- packet whose header and payload are together as long as the value, and whose block has at least two
-- bytes more and at least twice the value's length less two, the value is the payload and the two
-- bytes of the block behind it, and the packet is left without its header, which is not a valid
-- packet.
pub take_out_short :
    {p : Packet} (w : ℕ) (dst : List ℕ)
    → IsValid p
    → length dst ≡ w
    → p.cur_size ≡ w
    → w + w ≤ p.size + header_size
    → header_size + w ≤ p.size
    → (q : Packet) × (take_out w p dst ≡ some (payload p ++ slice p.buffer w header_size, q))
      × (q.cur_size ≡ 0)
      × ¬ IsValid q
unfolding overlap
take_out_short {p} w dst v slot all owned far = (
  left w dst v slot asked first moved apart,
  take_out-runs w dst v slot asked first moved apart
      ∙ ap (λ t. some (t, left w dst v slot asked first moved apart)) parts,
  omega arith,
  λ u. omega (arith, u.has_header),
)
  where
    first : header_size + w ≤ length p.buffer
    first = omega (arith, v.sized)

    asked : w ≤ p.cur_size
    asked = omega arith

    moved : w + (p.cur_size - header_size) ≤ length p.buffer
    moved = omega (arith, v.has_header, v.sized)

    apart : overlap header_size w (p.cur_size - header_size) ≡ false
    apart = ground (arith, v.has_header)

    parts : slice p.buffer header_size w ≡ payload p ++ slice p.buffer w header_size
    parts =
        ap (slice p.buffer header_size) (omega (arith, v.has_header))
        ∙ slice-add p.buffer header_size (p.cur_size - header_size) header_size
        ∙ ap (λ k. payload p ++ slice p.buffer k header_size) (omega (arith, v.has_header))

-- One byte on an empty packet.
module _ {p : Packet} (b : ℕ) (dst : List ℕ) (v : IsValid p) (empty : p.cur_size ≡ header_size)
    (room : header_size < p.size) (slot : length dst ≡ 1) where
  fits : p.cur_size + length (b ∷ []) ≤ p.size
  fits = omega arith

  abbrev one : Packet
  one = appended v (b ∷ []) fits

  one-IsValid : IsValid one
  one-IsValid = appended-IsValid v (b ∷ []) fits

  nothing : p.cur_size - header_size ≡ 0
  nothing = omega arith

  one_byte : 1 ≡ one.cur_size - header_size
  one_byte = omega arith

  in_block : header_size + 1 ≤ length one.buffer
  in_block = omega (arith, one-IsValid.sized)

  moved : 1 + (one.cur_size - header_size) ≤ length one.buffer
  moved = omega (arith, in_block)

  apart : overlap header_size 1 (one.cur_size - header_size) ≡ false
  unfolding overlap
  apart = ground arith

  into : header_size + length (slice one.buffer 1 (one.cur_size - header_size)) ≤ length one.buffer
  into = omega (arith, in_block, length-slice one.buffer 1 (one.cur_size - header_size) moved)

  byte_is : slice one.buffer header_size 1 ≡ b ∷ []
  byte_is =
      ap (slice one.buffer header_size) one_byte
      ∙ appended-payload v (b ∷ []) fits
      ∙ ap (λ n. slice p.buffer header_size n ++ (b ∷ [])) nothing

  abbrev after : Packet
  after = left 1 dst one-IsValid slot (omega arith) in_block moved apart

  -- A single byte written to a valid packet that is empty and has room for it is read back by
  -- `operator>>`, which leaves the packet empty, with its header, and valid.
  pub put-take_out :
      (q q' : Packet) × (put 1 p (b ∷ []) ≡ some q)
      × (take_out 1 q dst ≡ some (b ∷ [], q'))
      × (payload q' ≡ [])
      × (header q' ≡ header p)
      × IsValid q'
  put-take_out = (
    one,
    after,
    put-runs v (b ∷ []) fits,
    take_out-runs 1 dst one-IsValid slot (omega arith) in_block moved apart
        ∙ ap (λ t. some (t, after)) byte_is,
    ap (slice after.buffer header_size) {y = 0} (omega arith),
    slice-splice_before one.buffer header_size (slice one.buffer 1 (one.cur_size - header_size))
          into 0 header_size (omega arith)
        ∙ appended-header v (b ∷ []) fits,
    record {
      sized =
          length-splice one.buffer header_size (slice one.buffer 1 (one.cur_size - header_size))
            into
          ∙ one-IsValid.sized;
      has_header = omega arith;
      within = omega arith;
    },
  )
