-- ===== src/Framing/Refine.antt =====
-- The receive loop over the ring does what the protocol says of the bytes that the ring holds.
use cpp_lockfree_core.Base.{
  ℕ, zero, suc, ◌+◌, ◌≤◌, ◌<◌, ◌≡◌, refl, ap, ◌∙◌, sym, [], ◌∷◌, true, false, arith, length, take,
  drop, length-drop, some, lt→ltb, le→ltb, replicate, length-replicate,
}
use cpp_lockfree_core.RingBuff.{RingBuff, get_use_size, peek}
use cpp_lockfree_core.RingBuff.Valid.{IsValid}
use cpp_lockfree_core.RingBuff.Contents.{contents, length-contents}
use cpp_lockfree_core.RingBuff.Dequeue.{peek_all, dequeue_all}
use cpp_lockfree_core.Packet.{header_size}
use cpp_lockfree_core.Framing.{Verdict, waits, protocol_error, bad_header, frames, Outcome}
use cpp_lockfree_core.Framing.Split.{
  refused, Cut, split, header_of, after, stop, short, bad, partial, whole, Case-of, split-short,
  split-bad, split-partial, split-whole,
}

-- The loop ends with the packets and the verdict of `c`, and its ring holds what `c` leaves over.
pub record Yields (c : Cut) (o : Outcome) : Type 0 where
  pub same_packets : o.packets ≡ c.packets
  pub same_verdict : o.verdict ≡ c.verdict
  pub same_rest : contents o.ring ≡ c.rest
  pub valid : IsValid o.ring

-- The code's test of the header is the protocol's: its sign bit is above the limit.
bad_header-refused : (h : ℕ) → bad_header h ≡ refused h
unfolding bad_header refused
bad_header-refused h = ground arith

module _ (fuel : ℕ) {r : RingBuff} (v : IsValid r) where
  abbrev Runs : Cut → Type 0
  Runs c = (o : Outcome) × (frames (suc fuel) r ≡ some o) × Yields c o

  stopped : Verdict → Outcome
  stopped d = record { packets = []; ring = r; verdict = d }

  use_size : get_use_size r ≡ length (contents r)
  use_size = sym (length-contents r)

  Runs-short : length (contents r) < header_size → Runs (stop (contents r) waits)
  unfolding frames stopped
  Runs-short h = (
    stopped waits,
    ground (arith, use_size),
    record { same_packets = refl; same_verdict = refl; same_rest = refl; valid = v },
  )

  module _ (long : header_size ≤ length (contents r)) where
    peeked :
        peek r (some (0 ∷ 0 ∷ [])) header_size
        ≡ some (header_size, some (take header_size (contents r)))
    peeked = peek_all (0 ∷ 0 ∷ []) header_size v refl (omega (arith, use_size))

    Runs-bad : refused (header_of (contents r)) ≡ true → Runs (stop (contents r) protocol_error)
    unfolding frames stopped
    Runs-bad b = (
      stopped protocol_error,
      rw (
        le→ltb (get_use_size r) header_size (omega (arith, use_size)),
        peeked,
        bad_header-refused (header_of (contents r)),
        b,
      ),
      record { same_packets = refl; same_verdict = refl; same_rest = refl; valid = v },
    )

    module _ (good : refused (header_of (contents r)) ≡ false) where
      Runs-partial :
          length (contents r) < header_size + header_of (contents r)
          → Runs (stop (contents r) waits)
      unfolding frames stopped
      Runs-partial h = (
        stopped waits,
        rw (
          le→ltb (get_use_size r) header_size (omega (arith, use_size)),
          peeked,
          bad_header-refused (header_of (contents r)),
          good,
          lt→ltb (get_use_size r) (header_of (contents r) + header_size) (omega (arith, use_size)),
        ),
        record { same_packets = refl; same_verdict = refl; same_rest = refl; valid = v },
      )

      Runs-whole :
          header_size + header_of (contents r) ≤ length (contents r)
          → ((r' : RingBuff)
              → IsValid r'
              → contents r' ≡ drop (header_size + header_of (contents r)) (contents r)
              → (o : Outcome) × (frames fuel r' ≡ some o) × Yields (split fuel (contents r')) o)
          → Runs (
              after
                (take (header_size + header_of (contents r)) (contents r))
                (split fuel (drop (header_size + header_of (contents r)) (contents r))))
      unfolding frames
      Runs-whole h next =
          let size = header_size + header_of (contents r) in
          let (r', taken, c, v') =
            dequeue_all (replicate size 0) size v (sym (length-replicate size 0))
              (omega (arith, use_size)) in
          let (o, e, y) = next r' v' c in
          (
            record o { packets = take size (contents r) ∷ o.packets },
            rw (
              le→ltb (get_use_size r) header_size (omega (arith, use_size)),
              peeked,
              bad_header-refused (header_of (contents r)),
              good,
              le→ltb (get_use_size r) (header_of (contents r) + header_size)
                  (omega (arith, use_size)),
              taken,
              e,
            ),
            record {
              same_packets =
                  ap (◌∷◌ (take size (contents r)))
                    (y.same_packets ∙ ap (λ k. (split fuel k).packets) c);
              same_verdict = y.same_verdict ∙ ap (λ k. (split fuel k).verdict) c;
              same_rest = y.same_rest ∙ ap (λ k. (split fuel k).rest) c;
              valid = y.valid;
            },
          )

-- With fuel for its bytes the loop ends, without a fault, as the protocol says.
pub frames-Yields :
    (fuel : ℕ) {r : RingBuff}
    → IsValid r
    → length (contents r) < fuel
    → (o : Outcome) × (frames fuel r ≡ some o) × Yields (split fuel (contents r)) o
frames-Yields zero v h = absurd (omega arith)
frames-Yields (suc fuel) {r} v h = elim (Case-of (contents r)) [
  | short l ↦ rw (split-short fuel (contents r) l) (Runs-short fuel v l)
  | bad l b ↦ rw (split-bad fuel (contents r) l b) (Runs-bad fuel v l b)
  | partial l b p ↦ rw (split-partial fuel (contents r) l b p) (Runs-partial fuel v l b p)
  | whole l b w ↦ rw (split-whole fuel (contents r) l b w) (
      Runs-whole fuel v l b w λ r' v' c. frames-Yields fuel v' (
        omega
          (arith, ap length c, length-drop (header_size + header_of (contents r)) (contents r))))
]
