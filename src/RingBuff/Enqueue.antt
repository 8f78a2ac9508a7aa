-- ===== src/RingBuff/Enqueue.antt =====
-- `CRingBuff::enqueue` against the byte queue that the ring stands for.
use cpp_lockfree_core.Base.{
  subst, ◌⊎◌, inl, inr, ℕ, ◌+◌, ◌-◌, ◌%◌, ◌≤◌, ◌<◌, ◌≡◌, ◌≢◌, refl, ◌∙◌, sym, List, ◌++◌, arith,
  leb, if◌then◌else◌, length, take, min, dec_le, ℕ_discrete, some, mod_small, mod_wrap, ne→==, Bool,
  true, false, Bool-cases, ◌==◌, ◌||◌, ◌&&◌,
}
use cpp_lockfree_core.Memory.{slice, splice, memcpy, memcpy_lem, length-slice, length-splice}
use cpp_lockfree_core.RingBuff.{
  RingBuff, is_full, get_free_size, get_direct_write_size, move_rear_pos, enqueue, enqueue_rest,
}
use cpp_lockfree_core.RingBuff.Valid.{IsValid, used, get_use_size_lem, sizes}
use cpp_lockfree_core.RingBuff.Contents.{contents, Wrote, Wrote-IsValid, Wrote-contents}
use cpp_lockfree_core.RingBuff.Copy.{once, once-Wrote, twice, twice-Wrote}

-- The one state where the free space is misjudged: empty, with both positions at 0.
abbrev pub AtOrigin : RingBuff → Type 0
AtOrigin r = (r.front ≡ 0) × (r.rear ≡ 0)

module _ {r : RingBuff} (v : IsValid r) (src : List ℕ) (n : ℕ) (enough : n ≤ length src) where
  -- The outcome of an `enqueue` that accepts `m` bytes.
  abbrev Accepts : ℕ → Type 0
  Accepts m = (r' : RingBuff) × (enqueue r (some src) n ≡ some (m, r')) × Wrote r r' src m

  nothing-Wrote : Wrote r r src 0
  nothing-Wrote = record {
    same_size = refl;
    same_front = refl;
    same_length = refl;
    rear_moved = ground (arith, v.rear_in);
    inside = λ k p. absurd (omega arith);
    outside = λ k p q. refl;
  }

  refused : (n ≡ 0) ⊎ (is_full r ≡ true) → Accepts 0
  unfolding enqueue
  refused h = (r, ground arith, nothing-Wrote)

  pub whole :
      n ≢ 0 → is_full r ≡ false → n ≤ get_direct_write_size r → r.rear + n ≤ r.size → Accepts n
  unfolding enqueue move_rear_pos
  whole nz nf h fits = (
    once v src n,
    ground (
      arith,
      memcpy_lem r.buffer (r.rear % r.size) src 0 n,
      mod_small r.size r.rear,
      v.rear_in,
      v.sized,
    ),
    once-Wrote v src n fits enough,
  )

  -- The test between the two copies: whether the first one filled the ring.
  abbrev filled : ℕ → Bool
  filled w =
      (r.front == (r.rear + w) % r.size + 1)
      || (r.front == 0 && (r.rear + w) % r.size + 1 == r.size)

  abbrev more : ℕ → ℕ
  more w = if leb (n - w) (r.front - 1) then n - w else r.front - 1

  module _ (w : ℕ) (is_w : get_direct_write_size r ≡ w) (nf : is_full r ≡ false) (h : w < n)
      (fits : r.rear + w ≤ r.size) where
    first_copy :
        memcpy r.buffer (r.rear % r.size) src 0 w ≡ some (splice r.buffer r.rear (slice src 0 w))
    first_copy = ground (
      arith,
      memcpy_lem r.buffer (r.rear % r.size) src 0 w,
      mod_small r.size r.rear,
      v.rear_in,
      v.sized,
    )

    pub goes_on :
        enqueue r (some src) n
        ≡ enqueue_rest (record r { buffer = splice r.buffer r.rear (slice src 0 w) }) src n w
    unfolding enqueue
    goes_on = ground (arith, first_copy)

    stops : filled w ≡ true → Accepts w
    unfolding enqueue_rest
    stops e = (once v src w, goes_on ∙ ground arith, once-Wrote v src w fits (omega arith))

    module _ (e : filled w ≡ false) (nz : r.front ≢ 0) (end : r.rear + w ≡ r.size)
        (small : more w < r.rear) where
      tmp_rear : (r.rear + w) % r.size ≡ 0
      tmp_rear =
          rw (end, mod_wrap r.size r.size (omega arith) (omega (arith, v.rear_in))) (omega arith)

      len_once : length (splice r.buffer r.rear (slice src 0 w)) ≡ r.size
      len_once =
          length-splice r.buffer r.rear (slice src 0 w)
            (omega (arith, v.sized, length-slice src 0 w (omega arith)))
          ∙ v.sized

      second_copy :
          memcpy
            (splice r.buffer r.rear (slice src 0 w))
            ((r.rear + w) % r.size % r.size)
            src
            w
            (more w)
          ≡ some (twice v src w (more w)).buffer
      second_copy =
          rw (tmp_rear, mod_small r.size 0 (omega (arith, v.rear_in)))
            (memcpy_lem (splice r.buffer r.rear (slice src 0 w)) 0 src w (more w)
              (omega (arith, len_once)) (ground arith))

      rest_runs :
          enqueue_rest (record r { buffer = splice r.buffer r.rear (slice src 0 w) }) src n w
          ≡ some (w + more w, twice v src w (more w))
      unfolding enqueue_rest move_rear_pos
      rest_runs = rw (e, ne→== r.front 0 nz, second_copy)

      continues : Accepts (w + more w)
      continues = (
        twice v src w (more w),
        goes_on ∙ rest_runs,
        twice-Wrote v src w (more w) end small (ground arith),
      )

  module _ (safe : AtOrigin r → n < r.size) (nf : is_full r ≡ false) where
    abbrev direct : ℕ
    direct = get_direct_write_size r

    all_fit : n ≤ direct → min n (get_free_size r) ≡ n
    unfolding get_direct_write_size get_free_size
    all_fit h = ground (arith, mod_small r.size (r.rear + 1), v.rear_in, v.front_in)

    once_fills : direct < n → filled direct ≡ true → min n (get_free_size r) ≡ direct
    unfolding get_direct_write_size get_free_size
    once_fills h e = ground (
      arith,
      mod_small r.size (r.rear + direct),
      mod_wrap r.size (r.rear + direct),
      mod_small r.size (r.rear + 1),
      v.rear_in,
      v.front_in,
    )

    record Splits : Type 0 where
      front_pos : r.front ≢ 0
      to_end : r.rear + direct ≡ r.size
      behind : more direct < r.rear
      total : min n (get_free_size r) ≡ direct + more direct

    twice_fills : direct < n → filled direct ≡ false → Splits
    unfolding get_direct_write_size get_free_size
    twice_fills h e = record {
      front_pos = ground (
        arith,
        mod_small r.size (r.rear + direct),
        mod_wrap r.size (r.rear + direct),
        mod_small r.size (r.rear + 1),
        v.rear_in,
        v.front_in,
      );
      to_end = ground (
        arith,
        mod_small r.size (r.rear + direct),
        mod_wrap r.size (r.rear + direct),
        mod_small r.size (r.rear + 1),
        v.rear_in,
        v.front_in,
      );
      behind = ground (
        arith,
        mod_small r.size (r.rear + direct),
        mod_wrap r.size (r.rear + direct),
        mod_small r.size (r.rear + 1),
        v.rear_in,
        v.front_in,
      );
      total = ground (
        arith,
        mod_small r.size (r.rear + direct),
        mod_wrap r.size (r.rear + direct),
        mod_small r.size (r.rear + 1),
        v.rear_in,
        v.front_in,
      );
    }

  -- `enqueue` accepts as many bytes as fit.
  enqueue-Accepts : (AtOrigin r → n < r.size) → Accepts (min n (get_free_size r))
  unfolding get_free_size
  enqueue-Accepts safe = elim (ℕ_discrete n 0) [
    | yes z ↦ subst Accepts (omega arith) (refused (inl z))
    | no nz ↦ elim (Bool-cases (is_full r)) [
      | inl full ↦ subst Accepts (full_min full) (refused (inr full))
      | inr nf ↦ elim (dec_le n (get_direct_write_size r)) [
        | yes h ↦
            subst Accepts (sym (all_fit safe nf h))
              (whole nz nf h (omega (arith, (sizes v).write_fits)))
        | no h ↦ elim (Bool-cases (filled (get_direct_write_size r))) [
          | inl e ↦
              subst Accepts (sym (once_fills safe nf (omega arith) e))
                (stops (get_direct_write_size r) refl nf (omega arith) (sizes v).write_fits e)
          | inr e ↦
              let s = twice_fills safe nf (omega arith) e in
              subst Accepts (sym s.total) (
                continues (get_direct_write_size r) refl nf (omega arith) (sizes v).write_fits e
                  s.front_pos s.to_end s.behind)
        ]
      ]
    ]
  ]
    where
      full_min : is_full r ≡ true → 0 ≡ min n (get_free_size r)
      full_min full = ground arith

-- `enqueue` never faults on a valid ring, accepts as many bytes as there is room for, appends
-- exactly those to the contents, in order, and keeps the ring valid, except that `n` bytes for an
-- empty ring with both positions at 0 must be fewer than its size.
pub enqueue_refines :
    {r : RingBuff} (src : List ℕ) (n : ℕ)
    → IsValid r
    → n ≤ length src
    → (AtOrigin r → n < r.size)
    → (r' : RingBuff) × (enqueue r (some src) n ≡ some (min n (get_free_size r), r'))
      × (contents r' ≡ contents r ++ take (min n (get_free_size r)) src)
      × IsValid r'
unfolding get_free_size
enqueue_refines {r} src n v enough safe =
    let (r', e, w) = enqueue-Accepts v src n enough safe in
    let room : used r + min n (get_free_size r) < r.size =
      ground (arith, get_use_size_lem v, v.front_in, v.rear_in) in
    (r', e, Wrote-contents v w room (omega arith), Wrote-IsValid v w room)

-- What `getDirectWriteSize` offers fits beside the contents, but for the whole of a ring that is
-- empty with both positions at 0.
pub direct_room :
    {r : RingBuff}
    → IsValid r
    → (n : ℕ) → n ≤ get_direct_write_size r
    → (AtOrigin r → n < r.size)
    → used r + n < r.size
unfolding get_direct_write_size
direct_room {r} v n h safe = ground (arith, mod_small r.size (r.rear + 1), v.rear_in, v.front_in)
