-- ===== src/RingBuff/Copy.antt =====
-- The one or two `memcpy_s` calls of `CRingBuff::enqueue`: what they leave in the ring.
use cpp_lockfree_core.Base.{
  ℕ, ◌+◌, ◌-◌, ◌%◌, ◌≤◌, ◌<◌, ◌≡◌, refl, ap, ◌∙◌, List, arith, length, get_or, dec_lt, mod_small,
  mod_wrap,
}
use cpp_lockfree_core.Memory.{
  slice, splice, length-slice, length-splice, get_or-splice_before, get_or-splice_inside,
  get_or-splice_after, get_or-slice,
}
use cpp_lockfree_core.RingBuff.{RingBuff}
use cpp_lockfree_core.RingBuff.Valid.{IsValid}
use cpp_lockfree_core.RingBuff.Contents.{Wrote, wrap}

module _ {r : RingBuff} (v : IsValid r) (src : List ℕ) where
  -- One copy that ends before the end of the buffer, or at it.
  abbrev pub once : ℕ → RingBuff
  once m = record r {
    buffer = splice r.buffer r.rear (slice src 0 m);
    rear = (r.rear + m) % r.size;
  }

  pub once-Wrote : (m : ℕ) → r.rear + m ≤ r.size → m ≤ length src → Wrote r (once m) src m
  once-Wrote m h enough = record {
    same_size = refl;
    same_front = refl;
    same_length = length-splice r.buffer r.rear (slice src 0 m) fits;
    rear_moved =
        ground (arith, mod_small r.size (r.rear + m), mod_wrap r.size (r.rear + m), v.rear_in);
    inside = λ k p.
        ap (λ j. get_or (once m).buffer j 0) (ground arith)
        ∙ get_or-splice_inside r.buffer r.rear (slice src 0 m) fits (r.rear + k) (omega arith)
            (omega (arith, len))
        ∙ ap (λ j. get_or (slice src 0 m) j 0) (omega arith)
        ∙ get_or-slice src 0 m k p
        ∙ ap (λ j. get_or src j 0) (omega arith);
    outside = λ k p q. elim (dec_lt (r.rear + k) r.size) [
      | yes lo ↦
          get_or-splice_after r.buffer r.rear (slice src 0 m) fits (wrap r.size (r.rear + k))
            (ground (arith, len))
      | no hi ↦
          get_or-splice_before r.buffer r.rear (slice src 0 m) fits (wrap r.size (r.rear + k))
            (ground arith)
    ];
  }
    where
      len : length (slice src 0 m) ≡ m
      len = length-slice src 0 m (omega arith)

      fits : r.rear + length (slice src 0 m) ≤ length r.buffer
      fits = omega (arith, len, v.sized)

  -- A copy up to the end of the buffer, and one from its start.
  abbrev pub twice : ℕ → ℕ → RingBuff
  twice w c = record r {
    buffer = splice (splice r.buffer r.rear (slice src 0 w)) 0 (slice src w c);
    rear = (r.rear + (c + w)) % r.size;
  }

  pub twice-Wrote :
      (w c : ℕ)
      → r.rear + w ≡ r.size
      → c < r.rear
      → w + c ≤ length src
      → Wrote r (twice w c) src (w + c)
  twice-Wrote w c h small enough = record {
    same_size = refl;
    same_front = refl;
    same_length = length-splice b₁ 0 (slice src w c) fits₂ ∙ len_b₁;
    rear_moved = ground (arith, mod_wrap r.size (r.rear + (c + w)), v.rear_in);
    inside = λ k p. elim (dec_lt k w) [
      | yes lo ↦
          get_or-splice_after b₁ 0 (slice src w c) fits₂ (wrap r.size (r.rear + k))
            (ground (arith, len₂))
          ∙ first.inside k lo
      | no hi ↦
          get_or-splice_inside b₁ 0 (slice src w c) fits₂ (wrap r.size (r.rear + k)) (omega arith)
            (ground (arith, len₂))
          ∙ get_or-slice src w c (wrap r.size (r.rear + k) - 0) (ground arith)
          ∙ ap (λ j. get_or src j 0) (ground arith)
    ];
    outside = λ k p q.
        get_or-splice_after b₁ 0 (slice src w c) fits₂ (wrap r.size (r.rear + k))
          (ground (arith, len₂))
        ∙ first.outside k (omega arith) q;
  }
    where
      first : Wrote r (once w) src w
      first = once-Wrote w (omega arith) (omega arith)

      b₁ : List ℕ
      b₁ = splice r.buffer r.rear (slice src 0 w)

      len_b₁ : length b₁ ≡ length r.buffer
      len_b₁ = first.same_length

      len₂ : length (slice src w c) ≡ c
      len₂ = length-slice src w c (omega arith)

      fits₂ : 0 + length (slice src w c) ≤ length b₁
      fits₂ = omega (arith, len₂, len_b₁, v.sized)
