-- ===== src/RingBuff/Contents.antt =====
-- The bytes that a `CRingBuff` holds, oldest first, and what a write at its rear does to them.
use cpp_lockfree_core.Base.{
  [], eq→==, ℕ, ◌+◌, ◌-◌, ◌≤◌, ◌<◌, ◌≡◌, ap, ◌∙◌, sym, List, ◌++◌, arith, ltb, if◌then◌else◌,
  length, tabulate, take, get_or, length-append, length-take, length-tabulate, get_or-append_left,
  get_or-append_right, get_or-take, get_or-tabulate, list_ext, dec_lt,
}
use cpp_lockfree_core.RingBuff.{RingBuff, get_use_size}
use cpp_lockfree_core.RingBuff.Valid.{IsValid, used, get_use_size_lem}

-- The place `k` steps behind the start, on a ring of `size` places.
abbrev pub wrap : ℕ → ℕ → ℕ
wrap size k = if ltb k size then k else k - size

abbrev pub byte_at : RingBuff → ℕ → ℕ
byte_at r k = get_or r.buffer (wrap r.size k) 0

unfoldable pub contents : RingBuff → List ℕ
contents r = tabulate (λ i. byte_at r (r.front + i)) 0 (get_use_size r)

pub length-contents : (r : RingBuff) → length (contents r) ≡ get_use_size r
unfolding contents
length-contents r = length-tabulate _ 0 (get_use_size r)

pub contents-empty : (r : RingBuff) → r.front ≡ r.rear → contents r ≡ []
unfolding contents get_use_size
contents-empty r e = rw (eq→== r.front r.rear e)

pub get_or-contents :
    (r : RingBuff) (i : ℕ) → i < get_use_size r → get_or (contents r) i 0 ≡ byte_at r (r.front + i)
unfolding contents
get_or-contents r i h =
    get_or-tabulate 0 (λ k. byte_at r (r.front + k)) 0 (get_use_size r) i h
    ∙ ap (λ k. byte_at r (r.front + k)) (omega arith)

-- `r'` is `r` with the first `m` bytes of `src` written behind its rear, and nothing else changed
-- in the ring.
pub record Wrote (r r' : RingBuff) (src : List ℕ) (m : ℕ) : Type 0 where
  pub same_size : r'.size ≡ r.size
  pub same_front : r'.front ≡ r.front
  pub same_length : length r'.buffer ≡ length r.buffer
  pub rear_moved : r'.rear ≡ wrap r.size (r.rear + m)
  pub inside : (k : ℕ) → k < m → byte_at r' (r.rear + k) ≡ get_or src k 0
  pub outside : (k : ℕ) → m ≤ k → k < r.size → byte_at r' (r.rear + k) ≡ byte_at r (r.rear + k)

module _ {r r' : RingBuff} {src : List ℕ} {m : ℕ} (v : IsValid r) (w : Wrote r r' src m)
    (room : used r + m < r.size) where
  pub Wrote-IsValid : IsValid r'
  Wrote-IsValid = record {
    sized = w.same_length ∙ v.sized ∙ sym w.same_size;
    front_in = ground arith;
    rear_in = ground arith;
  }

  pub Wrote-used : used r' ≡ used r + m
  Wrote-used = ground arith

  old_byte : (i : ℕ) → i < used r → byte_at r' (r'.front + i) ≡ byte_at r (r.front + i)
  old_byte i h =
      rw (w.same_front, place_new, w.outside (r.size - used r + i) (ground arith) (ground arith))
        (sym place_old)
    where
      place : wrap r.size (r.front + i) ≡ wrap r.size (r.rear + (r.size - used r + i))
      place = ground arith

      place_new : byte_at r' (r.front + i) ≡ byte_at r' (r.rear + (r.size - used r + i))
      place_new = ground (arith, place)

      place_old : byte_at r (r.front + i) ≡ byte_at r (r.rear + (r.size - used r + i))
      place_old = ap (λ k. get_or r.buffer k 0) place

  new_byte : (k : ℕ) → k < m → byte_at r' (r'.front + (used r + k)) ≡ get_or src k 0
  new_byte k h = rw place (w.inside k h)
    where
      place : byte_at r' (r'.front + (used r + k)) ≡ byte_at r' (r.rear + k)
      place = ap (λ k. get_or r'.buffer k 0) (ground arith)

  pub Wrote-contents : m ≤ length src → contents r' ≡ contents r ++ take m src
  Wrote-contents enough = list_ext 0 (contents r') (contents r ++ take m src) lengths entries
    where
      use_old : get_use_size r ≡ used r
      use_old = get_use_size_lem v

      use_new : get_use_size r' ≡ used r + m
      use_new = get_use_size_lem Wrote-IsValid ∙ Wrote-used

      lengths : length (contents r') ≡ length (contents r ++ take m src)
      lengths = omega (
        arith,
        length-contents r',
        length-contents r,
        use_old,
        use_new,
        length-append (contents r) (take m src),
        length-take m src,
      )

      entries :
          (i : ℕ)
          → i < length (contents r')
          → get_or (contents r') i 0 ≡ get_or (contents r ++ take m src) i 0
      entries i h = elim (dec_lt i (used r)) [
        | yes p ↦
            get_or-contents r' i (omega (arith, length-contents r'))
            ∙ old_byte i p
            ∙ sym (get_or-contents r i (omega (arith, use_old)))
            ∙ sym (
                get_or-append_left 0 (contents r) (take m src) i
                  (omega (arith, length-contents r, use_old)))
        | no p ↦
            get_or-contents r' i (omega (arith, length-contents r'))
            ∙ ap (λ k. byte_at r' (r'.front + k)) (omega arith)
            ∙ new_byte (i - used r) (omega (arith, length-contents r', use_new))
            ∙ sym (get_or-take 0 m src (i - used r) (omega (arith, length-contents r', use_new)))
            ∙ ap (λ k. get_or (take m src) k 0) (omega (arith, length-contents r, use_old))
            ∙ sym (
                get_or-append_right 0 (contents r) (take m src) i
                  (omega (arith, length-contents r, use_old)))
      ]
