-- ===== src/RingBuff/Peek.antt =====
-- `CRingBuff::peek` and `dequeue` against the byte queue that the ring stands for.
use cpp_lockfree_core.Base.{
  ℕ, ◌+◌, ◌-◌, ◌%◌, ◌≤◌, ◌<◌, ◌≡◌, ◌≢◌, refl, ap, ◌∙◌, List, arith, length, get_or, dec_lt, dec_le,
  ℕ_discrete, Option, some, mod_small, mod_wrap, false,
}
use cpp_lockfree_core.Memory.{
  slice, splice, memcpy, memcpy_lem, length-slice, length-splice, get_or-splice_before,
  get_or-splice_inside, get_or-splice_after, get_or-slice,
}
use cpp_lockfree_core.RingBuff.{RingBuff, is_empty, get_use_size, get_direct_read_size, peek}
use cpp_lockfree_core.RingBuff.Valid.{IsValid, get_use_size_lem, sizes}
use cpp_lockfree_core.RingBuff.Contents.{byte_at}

module _ {r : RingBuff} (v : IsValid r) (dst : List ℕ) (n : ℕ) (room : n ≤ length dst)
    (held : n ≤ get_use_size r) where
  -- The caller's array after the call: its first `n` bytes are the oldest of the ring.
  pub record Filled (out : List ℕ) : Type 0 where
    pub same_length : length out ≡ length dst
    pub front_bytes : (k : ℕ) → k < n → get_or out k 0 ≡ byte_at r (r.front + k)
    pub rest : (k : ℕ) → n ≤ k → get_or out k 0 ≡ get_or dst k 0

  abbrev one : List ℕ
  one = splice dst 0 (slice r.buffer r.front n)

  one-Filled : r.front + n ≤ r.size → Filled one
  one-Filled h = record {
    same_length = length-splice dst 0 bs fits;
    front_bytes = λ k p.
        get_or-splice_inside dst 0 bs fits k (omega arith) (omega (arith, len))
        ∙ ap (λ j. get_or bs j 0) (omega arith)
        ∙ get_or-slice r.buffer r.front n k p
        ∙ ap (λ j. get_or r.buffer j 0) (ground arith);
    rest = λ k p. get_or-splice_after dst 0 bs fits k (omega (arith, len));
  }
    where
      bs : List ℕ
      bs = slice r.buffer r.front n

      len : length bs ≡ n
      len = length-slice r.buffer r.front n (omega (arith, v.sized))

      fits : 0 + length bs ≤ length dst
      fits = omega (arith, len)

  abbrev two : ℕ → List ℕ
  two w = splice (splice dst 0 (slice r.buffer r.front w)) w (slice r.buffer 0 (n - w))

  two-Filled : (w : ℕ) → r.front + w ≡ r.size → w < n → n - w ≤ r.size → Filled (two w)
  two-Filled w h l small = record {
    same_length = length-splice out₁ w bs₂ fits₂ ∙ len_out₁;
    front_bytes = λ k p. elim (dec_lt k w) [
      | yes lo ↦
          get_or-splice_before out₁ w bs₂ fits₂ k lo
          ∙ get_or-splice_inside dst 0 bs₁ fits₁ k (omega arith) (omega (arith, len₁))
          ∙ ap (λ j. get_or bs₁ j 0) (omega arith)
          ∙ get_or-slice r.buffer r.front w k lo
          ∙ ap (λ j. get_or r.buffer j 0) (ground arith)
      | no hi ↦
          get_or-splice_inside out₁ w bs₂ fits₂ k (omega arith) (omega (arith, len₂))
          ∙ get_or-slice r.buffer 0 (n - w) (k - w) (omega arith)
          ∙ ap (λ j. get_or r.buffer j 0) (ground arith)
    ];
    rest = λ k p.
        get_or-splice_after out₁ w bs₂ fits₂ k (omega (arith, len₂))
        ∙ get_or-splice_after dst 0 bs₁ fits₁ k (omega (arith, len₁));
  }
    where
      bs₁ : List ℕ
      bs₁ = slice r.buffer r.front w

      len₁ : length bs₁ ≡ w
      len₁ = length-slice r.buffer r.front w (omega (arith, v.sized))

      fits₁ : 0 + length bs₁ ≤ length dst
      fits₁ = omega (arith, len₁)

      out₁ : List ℕ
      out₁ = splice dst 0 bs₁

      len_out₁ : length out₁ ≡ length dst
      len_out₁ = length-splice dst 0 bs₁ fits₁

      bs₂ : List ℕ
      bs₂ = slice r.buffer 0 (n - w)

      len₂ : length bs₂ ≡ n - w
      len₂ = length-slice r.buffer 0 (n - w) (omega (arith, v.sized))

      fits₂ : w + length bs₂ ≤ length out₁
      fits₂ = omega (arith, len₂, len_out₁)

  abbrev pub Peeks : Type 0
  Peeks = (out : List ℕ) × (peek r (some dst) n ≡ some (n, some out)) × Filled out

  peek_nothing : n ≡ 0 → Peeks
  unfolding peek
  peek_nothing z = (
    dst,
    ground arith,
    record { same_length = refl; front_bytes = λ k p. absurd (omega arith); rest = λ k p. refl },
  )

  peek_one : n ≢ 0 → is_empty r ≡ false → n ≤ get_direct_read_size r → r.front + n ≤ r.size → Peeks
  unfolding peek
  peek_one nz ne h fits = (
    one,
    ground (
      arith,
      memcpy_lem dst 0 r.buffer (r.front % r.size) n,
      mod_small r.size r.front,
      v.front_in,
      v.sized,
    ),
    one-Filled fits,
  )

  module _ (w : ℕ) (is_w : get_direct_read_size r ≡ w) (nz : n ≢ 0) (ne : is_empty r ≡ false)
      (l : w < n) (h : r.front + w ≡ r.size) (small : n - w ≤ r.size) where
    first_read :
        memcpy dst 0 r.buffer (r.front % r.size) w ≡ some (splice dst 0 (slice r.buffer r.front w))
    first_read = ground (
      arith,
      memcpy_lem dst 0 r.buffer (r.front % r.size) w,
      mod_small r.size r.front,
      v.front_in,
      v.sized,
    )

    second_read :
        memcpy (splice dst 0 (slice r.buffer r.front w)) w r.buffer ((r.front + w) % r.size) (n - w)
        ≡ some (two w)
    second_read =
        rw (h, mod_wrap r.size r.size (omega arith) (omega (arith, v.front_in)))
          (ground (
            arith,
            memcpy_lem (splice dst 0 (slice r.buffer r.front w)) w r.buffer 0 (n - w),
            v.sized,
            len,
          ))
      where
        len : length (splice dst 0 (slice r.buffer r.front w)) ≡ length dst
        len =
            length-splice dst 0 (slice r.buffer r.front w)
              (omega (arith, v.sized, length-slice r.buffer r.front w (omega (arith, v.sized))))

    peek_two : Peeks
    unfolding peek
    peek_two = (two w, ground (arith, first_read, second_read), two-Filled w h l small)

  pub peek_lem : Peeks
  unfolding get_direct_read_size
  peek_lem = elim (ℕ_discrete n 0) [
    | yes z ↦ peek_nothing z
    | no nz ↦ elim (dec_le n (get_direct_read_size r)) [
      | yes h ↦
          peek_one nz (ground (arith, get_use_size_lem v)) h (omega (arith, (sizes v).read_fits))
      | no h ↦
          peek_two (get_direct_read_size r) refl nz (ground (arith, get_use_size_lem v))
            (omega arith) (ground (arith, get_use_size_lem v, v.front_in, v.rear_in))
            (ground (arith, get_use_size_lem v, v.front_in, v.rear_in))
    ]
  ]

-- Asked for more bytes than a ring that is not empty holds, `peek` returns a count greater than the
-- bytes it holds, unless it faults.
pub peek_overreads :
    {r : RingBuff} (dst : List ℕ) (n k : ℕ) {out : Option (List ℕ)}
    → IsValid r
    → get_use_size r ≢ 0
    → get_use_size r < n
    → peek r (some dst) n ≡ some (k, out)
    → get_use_size r < k
unfolding peek
peek_overreads {r} dst n k v ne more e = ground arith
