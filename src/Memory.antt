-- ===== src/Memory.antt =====
-- The C library's `memcpy_s` on byte arrays, with an access out of an array as a fault.
pub mod Slices
use cpp_lockfree_core.Base.{
  ℕ, ◌+◌, ◌-◌, ◌≤◌, ◌<◌, ◌≡◌, ap, ◌&&◌, Option, none, some, List, ◌++◌, arith, leb, if◌then◌else◌,
  length, take, drop, get_or, length-append, length-take, length-drop, get_or-append_left,
  get_or-append_right, get_or-take, get_or-drop,
}

-- `n` bytes of `src` from `i` on.
abbrev pub slice : List ℕ → ℕ → ℕ → List ℕ
slice src i n = take n (drop i src)

-- `dst` with `bs` written over it from `i` on.
unfoldable pub splice : List ℕ → ℕ → List ℕ → List ℕ
splice dst i bs = take i dst ++ (bs ++ drop (i + length bs) dst)

-- `memcpy_s(&dst[di], n, &src[si], n)`: `none` if it leaves an array.
unfoldable pub memcpy : List ℕ → ℕ → List ℕ → ℕ → ℕ → Option (List ℕ)
memcpy dst di src si n =
    if leb (di + n) (length dst) && leb (si + n) (length src)
    then some (splice dst di (slice src si n))
    else none

pub length-slice : (src : List ℕ) (i n : ℕ) → i + n ≤ length src → length (slice src i n) ≡ n
length-slice src i n h = omega (arith, length-take n (drop i src), length-drop i src)

pub memcpy_lem :
    (dst : List ℕ) (di : ℕ) (src : List ℕ) (si n : ℕ)
    → di + n ≤ length dst
    → si + n ≤ length src
    → memcpy dst di src si n ≡ some (splice dst di (slice src si n))
unfolding memcpy
memcpy_lem dst di src si n h k = ground arith

pub length-splice :
    (dst : List ℕ) (i : ℕ) (bs : List ℕ)
    → i + length bs ≤ length dst
    → length (splice dst i bs) ≡ length dst
unfolding splice
length-splice dst i bs h = omega (
  arith,
  length-append (take i dst) (bs ++ drop (i + length bs) dst),
  length-append bs (drop (i + length bs) dst),
  length-take i dst,
  length-drop (i + length bs) dst,
)

module _ (dst : List ℕ) (i : ℕ) (bs : List ℕ) (h : i + length bs ≤ length dst) where
  prefix_length : length (take i dst) ≡ i
  prefix_length = omega (arith, length-take i dst)

  pub get_or-splice_before : (j : ℕ) → j < i → get_or (splice dst i bs) j 0 ≡ get_or dst j 0
  unfolding splice
  get_or-splice_before j p =
      rw
        (get_or-append_left 0 (take i dst) (bs ++ drop (i + length bs) dst) j
          (omega (arith, prefix_length)))
        (get_or-take 0 i dst j p)

  pub get_or-splice_inside :
      (j : ℕ) → i ≤ j → j < i + length bs → get_or (splice dst i bs) j 0 ≡ get_or bs (j - i) 0
  unfolding splice
  get_or-splice_inside j p q =
      rw
        (
          get_or-append_right 0 (take i dst) (bs ++ drop (i + length bs) dst) j
              (omega (arith, prefix_length)),
          prefix_length,
        )
        (get_or-append_left 0 bs (drop (i + length bs) dst) (j - i) (omega arith))

  pub get_or-splice_after :
      (j : ℕ) → i + length bs ≤ j → get_or (splice dst i bs) j 0 ≡ get_or dst j 0
  unfolding splice
  get_or-splice_after j p =
      rw
        (
          get_or-append_right 0 (take i dst) (bs ++ drop (i + length bs) dst) j
              (omega (arith, prefix_length)),
          prefix_length,
          get_or-append_right 0 bs (drop (i + length bs) dst) (j - i) (omega arith),
          get_or-drop 0 (i + length bs) dst (j - i - length bs),
        )
        (ap (λ k. get_or dst k 0) (omega arith))

pub get_or-slice :
    (src : List ℕ) (i n k : ℕ) → k < n → get_or (slice src i n) k 0 ≡ get_or src (i + k) 0
get_or-slice src i n k h = rw (get_or-take 0 n (drop i src) k h) (get_or-drop 0 i src k)
