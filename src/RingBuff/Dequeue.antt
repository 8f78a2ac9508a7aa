-- ===== src/RingBuff/Dequeue.antt =====
-- `CRingBuff::peek` and `dequeue` against the byte queue that the ring stands for.
use cpp_lockfree_core.Base.{
  ℕ, ◌+◌, ◌-◌, ◌≤◌, ◌<◌, ◌≡◌, ap, ◌∙◌, sym, ap₂, ◌++◌, append-nil, drop-all, take-append-drop, List,
  arith, length, take, drop, get_or, length-take, length-drop, some, mod_small, mod_wrap, false,
  list_ext, get_or-take, get_or-drop,
}
use cpp_lockfree_core.RingBuff.{RingBuff, get_use_size, move_front_pos, peek, dequeue}
use cpp_lockfree_core.RingBuff.Valid.{IsValid, used, get_use_size_lem, move_front_pos-IsValid}
use cpp_lockfree_core.RingBuff.Contents.{contents, byte_at, length-contents, get_or-contents}
use cpp_lockfree_core.RingBuff.Peek.{Filled, peek_lem}

module _ {r : RingBuff} (v : IsValid r) (dst : List ℕ) (n : ℕ) (room : n ≤ length dst)
    (held : n ≤ get_use_size r) {out : List ℕ} (f : Filled v dst n room held out) where
  Filled-take : take n out ≡ take n (contents r)
  Filled-take =
      list_ext 0 (take n out) (take n (contents r))
        (omega
          (arith, length-take n out, length-take n (contents r), length-contents r, f.same_length))
        λ i h.
          get_or-take 0 n out i (omega (arith, length-take n out))
          ∙ f.front_bytes i (omega (arith, length-take n out))
          ∙ sym (get_or-contents r i (omega (arith, length-take n out)))
          ∙ sym (get_or-take 0 n (contents r) i (omega (arith, length-take n out)))

  Filled-drop : drop n out ≡ drop n dst
  Filled-drop =
      list_ext 0 (drop n out) (drop n dst)
        (omega (arith, length-drop n out, length-drop n dst, f.same_length))
        λ i h. get_or-drop 0 n out i ∙ f.rest (n + i) (omega arith) ∙ sym (get_or-drop 0 n dst i)

module _ {r : RingBuff} (v : IsValid r) (n : ℕ) (held : n ≤ get_use_size r) where
  moved-used : used (move_front_pos r n) ≡ used r - n
  unfolding move_front_pos
  moved-used = ground (
    arith,
    mod_small r.size (r.front + n),
    mod_wrap r.size (r.front + n),
    v.front_in,
    v.rear_in,
    get_use_size_lem v,
  )

  moved-use_size : get_use_size (move_front_pos r n) ≡ get_use_size r - n
  moved-use_size =
      omega (arith, get_use_size_lem v, get_use_size_lem (move_front_pos-IsValid n v), moved-used)

  moved-byte :
      (i : ℕ)
      → n + i < get_use_size r
      → byte_at (move_front_pos r n) ((move_front_pos r n).front + i)
        ≡ byte_at r (r.front + (n + i))
  unfolding move_front_pos
  moved-byte i h =
      ap (λ k. get_or r.buffer k 0)
        (ground (
          arith,
          mod_small r.size (r.front + n),
          mod_wrap r.size (r.front + n),
          v.front_in,
          v.rear_in,
          get_use_size_lem v,
        ))

  move_front_pos-contents : contents (move_front_pos r n) ≡ drop n (contents r)
  move_front_pos-contents =
      list_ext 0 (contents (move_front_pos r n)) (drop n (contents r))
        (omega (
          arith,
          length-contents r,
          length-contents (move_front_pos r n),
          length-drop n (contents r),
          moved-use_size,
        ))
        λ i h.
          get_or-contents (move_front_pos r n) i
            (omega (arith, length-contents (move_front_pos r n)))
          ∙ moved-byte i (omega (arith, length-contents (move_front_pos r n), moved-use_size))
          ∙ sym (
              get_or-contents r (n + i)
                (omega (arith, length-contents (move_front_pos r n), moved-use_size)))
          ∙ sym (get_or-drop 0 n (contents r) i)

-- Asked for at most the bytes that the ring holds, `peek` copies exactly the oldest ones into the
-- front of the caller's array, touches nothing else of it, and returns their number.
pub peek_refines :
    {r : RingBuff} (dst : List ℕ) (n : ℕ)
    → IsValid r
    → n ≤ length dst
    → n ≤ get_use_size r
    → (out : List ℕ) × (peek r (some dst) n ≡ some (n, some out))
      × (take n out ≡ take n (contents r))
      × (drop n out ≡ drop n dst)
peek_refines dst n v room held =
    let (out, e, f) = peek_lem v dst n room held in
    (out, e, Filled-take v dst n room held f, Filled-drop v dst n room held f)

-- Asked for at most the bytes that the ring holds, and for no terminator, `dequeue` copies exactly
-- the oldest ones into the front of the caller's array, touches nothing else of it, returns their
-- number, and takes them off the ring, which stays valid.
pub dequeue_refines :
    {r : RingBuff} (dst : List ℕ) (n : ℕ)
    → IsValid r
    → n ≤ length dst
    → n ≤ get_use_size r
    → (out : List ℕ) × (r' : RingBuff) × (dequeue r (some dst) n false ≡ some (n, some out, r'))
      × (take n out ≡ take n (contents r))
      × (drop n out ≡ drop n dst)
      × (contents r' ≡ drop n (contents r))
      × IsValid r'
unfolding dequeue
dequeue_refines {r} dst n v room held =
    let (out, e, t, d) = peek_refines dst n v room held in
    (
      out,
      move_front_pos r n,
      rw e,
      t,
      d,
      move_front_pos-contents v n held,
      move_front_pos-IsValid n v,
    )

-- The caller's array is filled to its end.
whole_array :
    (n : ℕ) (out dst bs : List ℕ)
    → n ≡ length dst
    → take n out ≡ take n bs
    → drop n out ≡ drop n dst
    → out ≡ take n bs
whole_array n out dst bs h t d =
    sym (take-append-drop n out)
    ∙ ap₂ ◌++◌ t (d ∙ drop-all n dst (omega arith))
    ∙ append-nil (take n bs)

pub peek_all :
    {r : RingBuff} (dst : List ℕ) (n : ℕ)
    → IsValid r
    → n ≡ length dst
    → n ≤ get_use_size r
    → peek r (some dst) n ≡ some (n, some (take n (contents r)))
peek_all {r} dst n v h held =
    let (out, e, t, d) = peek_refines dst n v (omega arith) held in
    e ∙ ap (λ o. some (n, some o)) (whole_array n out dst (contents r) h t d)

pub dequeue_all :
    {r : RingBuff} (dst : List ℕ) (n : ℕ)
    → IsValid r
    → n ≡ length dst
    → n ≤ get_use_size r
    → (r' : RingBuff) × (dequeue r (some dst) n false ≡ some (n, some (take n (contents r)), r'))
      × (contents r' ≡ drop n (contents r))
      × IsValid r'
dequeue_all {r} dst n v h held =
    let (out, r', e, t, d, c, v') = dequeue_refines dst n v (omega arith) held in
    (r', e ∙ ap (λ o. some (n, some o, r')) (whole_array n out dst (contents r) h t d), c, v')
