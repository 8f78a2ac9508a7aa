-- ===== src/Packet/Write.antt =====
-- What `operator<<`, `setData` and `setHeader` do to a packet.
use cpp_lockfree_core.Base.{
  ℕ, ◌+◌, ◌-◌, ◌≤◌, ◌<◌, ◌≡◌, ap, ap₂, ◌∙◌, sym, some, List, ◌++◌, arith, length, take-all,
}
use cpp_lockfree_core.Memory.{slice, splice, memcpy_lem, length-splice}
use cpp_lockfree_core.Memory.Slices.{
  slice-add, slice-splice_before, slice-splice_self, slice-splice_after,
}
use cpp_lockfree_core.Packet.{Packet, header_size, put, set_header}
use cpp_lockfree_core.Packet.Valid.{IsValid, payload, header}

module _ {p : Packet} (v : IsValid p) (bs : List ℕ) (room : p.cur_size + length bs ≤ p.size) where
  abbrev pub appended : Packet
  appended = record p { buffer = splice p.buffer p.cur_size bs; cur_size = p.cur_size + length bs }

  fits : p.cur_size + length bs ≤ length p.buffer
  fits = omega (arith, v.sized)

  pub put-runs : put (length bs) p bs ≡ some appended
  unfolding put
  put-runs =
      ground
        (arith, memcpy_lem p.buffer p.cur_size bs 0 (length bs), v.sized, take-all (length bs) bs)

  pub appended-IsValid : IsValid appended
  appended-IsValid = record {
    sized = length-splice p.buffer p.cur_size bs fits ∙ v.sized;
    has_header = omega (arith, v.has_header);
    within = omega arith;
  }

  pub appended-payload : payload appended ≡ payload p ++ bs
  appended-payload =
      ap (slice appended.buffer header_size) (omega (arith, v.has_header))
      ∙ slice-add appended.buffer header_size (p.cur_size - header_size) (length bs)
      ∙ ap₂ ◌++◌
          (slice-splice_before p.buffer p.cur_size bs fits header_size (p.cur_size - header_size)
            (omega (arith, v.has_header)))
          (ap (λ k. slice appended.buffer k (length bs)) (omega (arith, v.has_header))
            ∙ slice-splice_self p.buffer p.cur_size bs fits)

  pub appended-header : header appended ≡ header p
  appended-header =
      slice-splice_before p.buffer p.cur_size bs fits 0 header_size (omega (arith, v.has_header))

-- `operator<<` and `setData` put a value's bytes behind the payload if they fit, leave the header
-- alone, and keep the packet valid.
pub put_appends :
    {p : Packet} (bs : List ℕ)
    → IsValid p
    → p.cur_size + length bs ≤ p.size
    → (q : Packet) × (put (length bs) p bs ≡ some q)
      × (payload q ≡ payload p ++ bs)
      × (header q ≡ header p)
      × IsValid q
put_appends bs v room = (
  appended v bs room,
  put-runs v bs room,
  appended-payload v bs room,
  appended-header v bs room,
  appended-IsValid v bs room,
)

-- What does not fit is left out, and the caller is not told.
pub put_full : (w : ℕ) (p : Packet) (bs : List ℕ) → p.size < p.cur_size + w → put w p bs ≡ some p
unfolding put
put_full w p bs h = ground arith

-- `setHeader` writes the two header bytes, leaves the payload alone and keeps the packet valid.
pub set_header_lem :
    {p : Packet} (hd : List ℕ)
    → IsValid p
    → length hd ≡ header_size
    → (q : Packet) × (set_header p hd ≡ some q)
      × (header q ≡ hd)
      × (payload q ≡ payload p)
      × IsValid q
unfolding set_header
set_header_lem {p} hd v h = (
  record p { buffer = splice p.buffer 0 hd },
  ground (
    arith,
    memcpy_lem p.buffer 0 hd 0 header_size,
    take-all header_size hd,
    v.sized,
    v.has_header,
    v.within,
  ),
  ap (slice (splice p.buffer 0 hd) 0) (sym h) ∙ slice-splice_self p.buffer 0 hd fits,
  slice-splice_after p.buffer 0 hd fits header_size (p.cur_size - header_size) (omega arith)
      (omega (arith, v.sized, v.has_header, v.within)),
  record {
    sized = length-splice p.buffer 0 hd fits ∙ v.sized;
    has_header = v.has_header;
    within = v.within;
  },
)
  where
    fits : 0 + length hd ≤ length p.buffer
    fits = omega (arith, v.sized, v.has_header, v.within)
