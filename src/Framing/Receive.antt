-- ===== src/Framing/Receive.antt =====
-- A session's received bytes, over any number of completed receives, against the protocol.
use cpp_lockfree_core.Base.{
  ℕ, suc, ◌+◌, ◌≤◌, ◌<◌, ◌≡◌, refl, ap, ap₂, ◌∙◌, sym, List, [], ◌++◌, arith, length, length-append,
  subst, some, take-all, mod_small, map,
}
use cpp_lockfree_core.RingBuff.{
  RingBuff, get_use_size, get_direct_write_size, get_use_write_index, move_rear_pos,
}
use cpp_lockfree_core.RingBuff.Valid.{IsValid, used, get_use_size_lem, sizes}
use cpp_lockfree_core.RingBuff.Contents.{
  contents, length-contents, Wrote, Wrote-IsValid, Wrote-contents,
}
use cpp_lockfree_core.RingBuff.Copy.{once, once-Wrote}
use cpp_lockfree_core.RingBuff.Enqueue.{AtOrigin, direct_room}
use cpp_lockfree_core.Framing.{waits, Outcome, on_recv_completed, received}
use cpp_lockfree_core.Framing.Split.{Cut, split, stop, split-fuel}
use cpp_lockfree_core.Framing.Stream.{
  cut, prepend, resume, cut-append, encode, encode_all, AllShort, cut-encode_all,
}
use cpp_lockfree_core.Framing.Refine.{Yields, frames-Yields}

-- What a receive may bring: no more than the buffer that was posted for it, and less than the
-- whole ring where that buffer is the whole ring.
pub record Arrives (r : RingBuff) (bs : List ℕ) : Type 0 where
  pub posted : length bs ≤ get_direct_write_size r
  pub not_whole : AtOrigin r → length bs < r.size

module _ {r : RingBuff} (v : IsValid r) (bs : List ℕ) (a : Arrives r bs) where
  abbrev moved : RingBuff
  moved = move_rear_pos (received r bs) (length bs)

  is_once : moved ≡ once v bs (length bs)
  unfolding move_rear_pos received get_use_write_index
  is_once = rw (mod_small r.size r.rear v.rear_in, take-all (length bs) bs (omega arith))

  wrote : Wrote r (once v bs (length bs)) bs (length bs)
  wrote = once-Wrote v bs (length bs) (omega (arith, (sizes v).write_fits, a.posted)) (omega arith)

  room : used r + length bs < r.size
  room = direct_room v (length bs) a.posted a.not_whole

  moved-IsValid : IsValid moved
  moved-IsValid = rw is_once (Wrote-IsValid v wrote room)

  moved-contents : contents moved ≡ contents r ++ bs
  moved-contents = rw is_once (
      Wrote-contents v wrote room (omega arith)
      ∙ ap (◌++◌ (contents r)) (take-all (length bs) bs (omega arith)))

  -- A completed receive, with fuel for all the bytes at hand, ends without a fault, and does what
  -- the protocol says of the bytes that were left over followed by those that came.
  pub on_recv_completed_lem :
      (fuel : ℕ)
      → get_use_size r + length bs < fuel
      → (o : Outcome) × (on_recv_completed fuel (received r bs) (length bs) ≡ some o)
        × Yields (cut (contents r ++ bs)) o
  unfolding on_recv_completed cut
  on_recv_completed_lem fuel h =
      let enough : length (contents moved) < fuel =
        omega (arith, ap length moved-contents, length-append (contents r) bs, length-contents r) in
      let (o, e, y) = frames-Yields fuel moved-IsValid enough in
      let same : split fuel (contents moved) ≡ cut (contents r ++ bs) =
        split-fuel fuel (suc (length (contents moved))) (contents moved) enough (omega arith)
        ∙ ap cut moved-contents in
      (o, e, subst (λ c. Yields c o) same y)

-- A completed receive of bytes that fit the posted buffer, and are fewer than the whole ring where
-- that buffer is the whole ring, is handled without a fault and with the ring's size for fuel: its
-- packets, the bytes left in the ring and the verdict are those of the protocol on the bytes that
-- were left over before, followed by the new ones, and the ring stays valid.
pub on_recv_completed_total :
    {r : RingBuff} (bs : List ℕ)
    → IsValid r
    → Arrives r bs
    → (o : Outcome) × (on_recv_completed r.size (received r bs) (length bs) ≡ some o)
      × Yields (cut (contents r ++ bs)) o
on_recv_completed_total {r} bs v a =
    on_recv_completed_lem v bs a r.size (omega (arith, room v bs a, get_use_size_lem v))

-- All the receives of a session up to some point: `s` is what has come in all, and the outcome has
-- the packets of all receives.
pub data Serves (r : RingBuff) : List ℕ → Outcome → Type 0 where
  opened : Serves r [] (record { packets = []; ring = r; verdict = waits })
  next :
      {s : List ℕ} {o : Outcome} (bs : List ℕ) (o' : Outcome) (ps : List (List ℕ)) (s' : List ℕ)
      → Serves r s o
      → o.verdict ≡ waits
      → Arrives o.ring bs
      → on_recv_completed o.ring.size (received o.ring bs) (length bs) ≡ some o'
      → ps ≡ o.packets ++ o'.packets
      → s' ≡ s ++ bs
      → Serves r s' (record o' { packets = ps })

resume-waits :
    (c : Cut) (t : List ℕ) → c.verdict ≡ waits → resume c t ≡ prepend c.packets (cut (c.rest ++ t))
unfolding cut
resume-waits c t h = ground arith

next-Yields :
    (s : List ℕ) {o o' : Outcome} (bs : List ℕ) (ps : List (List ℕ))
    → Yields (cut s) o
    → o.verdict ≡ waits
    → Arrives o.ring bs
    → on_recv_completed o.ring.size (received o.ring bs) (length bs) ≡ some o'
    → ps ≡ o.packets ++ o'.packets
    → Yields (cut (s ++ bs)) (record o' { packets = ps })
next-Yields s {o} {o'} bs ps y w a runs eq_ps =
    let (o₁, e₁, y₁) = on_recv_completed_total bs y.valid a in
    let same : o₁ ≡ o' = cc (e₁, runs) in
    let y' : Yields (cut (contents o.ring ++ bs)) o' =
      subst (Yields (cut (contents o.ring ++ bs))) same y₁ in
    let whole : cut (s ++ bs) ≡ prepend (cut s).packets (cut (contents o.ring ++ bs)) =
      cut-append s bs
      ∙ resume-waits (cut s) bs (sym y.same_verdict ∙ w)
      ∙ ap (λ k. prepend (cut s).packets (cut (k ++ bs))) (sym y.same_rest) in
    record {
      same_packets =
          eq_ps ∙ ap₂ ◌++◌ y.same_packets y'.same_packets ∙ sym (ap (λ c. c.packets) whole);
      same_verdict = y'.same_verdict ∙ sym (ap (λ c. c.verdict) whole);
      same_rest = y'.same_rest ∙ sym (ap (λ c. c.rest) whole);
      valid = y'.valid;
    }

cut-nil : cut [] ≡ stop [] waits
unfolding cut split
cut-nil = refl

-- A session starts with an empty valid ring. Each of its receives brings no more bytes than the
-- buffer posted for it, and fewer than the whole ring where that buffer is the whole ring (the ring is
-- empty and its two indices are 0). Then the packets that the session has delivered, what its ring
-- holds, and the verdict are those of the protocol on all the bytes received so far, in whatever
-- pieces they came.
pub Serves-Yields :
    {r : RingBuff} {s : List ℕ} {o : Outcome}
    → IsValid r
    → contents r ≡ []
    → Serves r s o
    → Yields (cut s) o
Serves-Yields v e opened =
    rw cut-nil (record { same_packets = refl; same_verdict = refl; same_rest = e; valid = v })
Serves-Yields v e (next {s} bs o' ps s' before w a runs eq_ps eq_s) =
    rw eq_s (next-Yields s bs ps (Serves-Yields v e before) w a runs eq_ps)

-- What a sender frames, a session delivers. A session starts with an empty valid ring, and
-- each of its receives fits the buffer posted for it, and is less than the whole ring where that is
-- posted. If the bytes received so far are packets whose payloads keep the limit, framed by their
-- lengths, followed by other bytes, then the session has delivered these packets first, whole and in
-- order, and after them what the protocol cuts from the other bytes, of which it keeps the rest and
-- has the verdict.
pub Serves-encode_all :
    {r : RingBuff} {s : List ℕ} {o : Outcome} (ps : List (List ℕ)) (t : List ℕ)
    → IsValid r
    → contents r ≡ []
    → AllShort ps
    → Serves r s o
    → s ≡ encode_all ps ++ t
    → (o.packets ≡ map encode ps ++ (cut t).packets)
      × (contents o.ring ≡ (cut t).rest)
      × (o.verdict ≡ (cut t).verdict)
Serves-encode_all {o} ps t v e short served eq =
    let y =
      subst (λ c. Yields c o) (ap cut eq ∙ cut-encode_all ps t short) (Serves-Yields v e served) in
    (y.same_packets, y.same_rest, y.same_verdict)
