-- ===== src/Memory/Slices.antt =====
-- Slices of arrays, and of arrays that a copy has changed.
use cpp_lockfree_core.Base.{
  ℕ, zero, suc, ◌+◌, ◌≤◌, ◌<◌, ◌≡◌, refl, ap, ◌∙◌, sym, List, [], ◌∷◌, ◌++◌, arith, length, take,
  drop, get_or, list_ext, take-all, drop-all, append-nil, get_or-append_left, length-append,
}
use cpp_lockfree_core.Memory.{
  slice, splice, length-slice, length-splice, get_or-splice_before, get_or-splice_inside,
  get_or-splice_after, get_or-slice,
}

-- Slices with the same bytes are equal.
pub slice_ext :
    (xs ys : List ℕ) (i j n : ℕ)
    → i + n ≤ length xs
    → j + n ≤ length ys
    → ((k : ℕ) → k < n → get_or xs (i + k) 0 ≡ get_or ys (j + k) 0)
    → slice xs i n ≡ slice ys j n
slice_ext xs ys i j n hx hy h =
    list_ext 0 (slice xs i n) (slice ys j n)
      (omega (arith, length-slice xs i n hx, length-slice ys j n hy))
      λ k p.
        let q : k < n = omega (arith, length-slice xs i n hx) in
        get_or-slice xs i n k q ∙ h k q ∙ sym (get_or-slice ys j n k q)

take-add : {A : Type 0} (m n : ℕ) (xs : List A) → take (m + n) xs ≡ take m xs ++ take n (drop m xs)
take-add zero n xs = ap (λ k. take k xs) (omega arith)
take-add (suc m) n [] = let e : suc m + n ≡ suc (m + n) = omega arith in rw e (nil n)
  where
    nil : {A : Type 0} (k : ℕ) → [] ≡ take {A = A} k []
    nil zero = refl
    nil (suc k) = refl
take-add (suc m) n (x ∷ xs) =
    let e : suc m + n ≡ suc (m + n) = omega arith in rw e (ap (◌∷◌ x) (take-add m n xs))

pub drop-drop : {A : Type 0} (m n : ℕ) (xs : List A) → drop n (drop m xs) ≡ drop (m + n) xs
drop-drop zero n xs = ap (λ k. drop k xs) (omega arith)
drop-drop (suc m) n [] = let e : suc m + n ≡ suc (m + n) = omega arith in rw e (nil n)
  where
    nil : {A : Type 0} (k : ℕ) → drop {A = A} k [] ≡ []
    nil zero = refl
    nil (suc k) = refl
drop-drop (suc m) n (x ∷ xs) =
    let e : suc m + n ≡ suc (m + n) = omega arith in rw e (drop-drop m n xs)

pub slice-add : (xs : List ℕ) (i m n : ℕ) → slice xs i (m + n) ≡ slice xs i m ++ slice xs (i + m) n
slice-add xs i m n = rw (take-add m n (drop i xs), drop-drop i m xs)

module _ (dst : List ℕ) (i : ℕ) (bs : List ℕ) (h : i + length bs ≤ length dst) where
  len : length (splice dst i bs) ≡ length dst
  len = length-splice dst i bs h

  pub slice-splice_before : (j n : ℕ) → j + n ≤ i → slice (splice dst i bs) j n ≡ slice dst j n
  slice-splice_before j n p =
      slice_ext (splice dst i bs) dst j j n (omega (arith, len)) (omega arith)
        λ k q. get_or-splice_before dst i bs h (j + k) (omega arith)

  pub slice-splice_after :
      (j n : ℕ)
      → i + length bs ≤ j
      → j + n ≤ length dst
      → slice (splice dst i bs) j n ≡ slice dst j n
  slice-splice_after j n p q =
      slice_ext (splice dst i bs) dst j j n (omega (arith, len)) q
        λ k l. get_or-splice_after dst i bs h (j + k) (omega arith)

  pub slice-splice_start : (n : ℕ) → n ≤ length bs → slice (splice dst i bs) i n ≡ slice bs 0 n
  slice-splice_start n p =
      slice_ext (splice dst i bs) bs i 0 n (omega (arith, len)) (omega arith) λ k q.
        get_or-splice_inside dst i bs h (i + k) (omega arith) (omega arith)
        ∙ ap (λ j. get_or bs j 0) (omega arith)

  pub slice-splice_self : slice (splice dst i bs) i (length bs) ≡ bs
  slice-splice_self =
      slice_ext (splice dst i bs) bs i 0 (length bs) (omega (arith, len)) (omega arith) (λ k q.
        get_or-splice_inside dst i bs h (i + k) (omega arith) (omega arith)
        ∙ ap (λ j. get_or bs j 0) (omega arith))
      ∙ take-all (length bs) bs (omega arith)

pub slice-append_left :
    (xs ys : List ℕ) (i n : ℕ) → i + n ≤ length xs → slice (xs ++ ys) i n ≡ slice xs i n
slice-append_left xs ys i n h =
    slice_ext (xs ++ ys) xs i i n (omega (arith, length-append xs ys)) h
      λ k q. get_or-append_left 0 xs ys (i + k) (omega arith)

pub slice-slice :
    (xs : List ℕ) (i m j n : ℕ)
    → j + n ≤ m
    → i + m ≤ length xs
    → slice (slice xs i m) j n ≡ slice xs (i + j) n
slice-slice xs i m j n h k =
    slice_ext (slice xs i m) xs j (i + j) n (omega (arith, length-slice xs i m k)) (omega arith)
      λ l q. get_or-slice xs i m (j + l) (omega arith) ∙ ap (λ t. get_or xs t 0) (omega arith)

-- A copy over a whole array.
pub splice-all : (dst bs : List ℕ) → length dst ≡ length bs → splice dst 0 bs ≡ bs
unfolding splice
splice-all dst bs h = rw (drop-all (0 + length bs) dst (omega arith), append-nil)
