-- ===== src/RingBuff/Valid.antt =====
-- The representation invariant of `CRingBuff`, and the sizes that its queries return.
use cpp_lockfree_core.Base.{
  ℕ, ◌+◌, ◌-◌, ◌≤◌, ◌<◌, ◌≡◌, List, arith, leb, if◌then◌else◌, length, mod_small,
}
use cpp_lockfree_core.RingBuff.{
  RingBuff, init, is_empty, is_full, get_size, get_use_size, get_free_size, get_direct_read_size,
  get_direct_write_size, move_front_pos, move_rear_pos,
}

pub record IsValid (r : RingBuff) : Type 0 where
  pub sized : length r.buffer ≡ r.size
  pub front_in : r.front < r.size
  pub rear_in : r.rear < r.size

-- The number of bytes from `front` up to `rear`, going round.
abbrev pub used : RingBuff → ℕ
used r = if leb r.front r.rear then r.rear - r.front else r.size - r.front + r.rear

pub get_use_size_lem : {r : RingBuff} → IsValid r → get_use_size r ≡ used r
unfolding get_use_size
get_use_size_lem {r} v = ground arith

pub init-IsValid :
    (storage : List ℕ) (n : ℕ)
    → 0 < n
    → length storage ≡ n
    → IsValid (init storage n) × (get_use_size (init storage n) ≡ 0)
unfolding init get_use_size
init-IsValid storage n h e = ground arith

pub move_rear_pos-IsValid : {r : RingBuff} (n : ℕ) → IsValid r → IsValid (move_rear_pos r n)
unfolding move_rear_pos
move_rear_pos-IsValid {r} n v = ground arith

pub move_front_pos-IsValid : {r : RingBuff} (n : ℕ) → IsValid r → IsValid (move_front_pos r n)
unfolding move_front_pos
move_front_pos-IsValid {r} n v = ground arith

-- What is in use, what is free, and the two contiguous runs, for every valid ring.
pub record Sizes (r : RingBuff) : Type 0 where
  pub total : get_use_size r + get_free_size r ≡ get_size r
  pub readable : get_direct_read_size r ≤ get_use_size r
  pub read_fits : r.front + get_direct_read_size r ≤ r.size
  pub write_fits : r.rear + get_direct_write_size r ≤ r.size
  pub empty_iff : is_empty r ≡ leb (get_use_size r) 0
  pub full_iff : is_full r ≡ leb (get_free_size r) 0

pub sizes : {r : RingBuff} → IsValid r → Sizes r
unfolding get_use_size get_free_size get_size get_direct_read_size get_direct_write_size
sizes {r} v = record {
  total = ground arith;
  readable = ground arith;
  read_fits = ground arith;
  write_fits = ground (arith, mod_small r.size (r.rear + 1));
  empty_iff = ground arith;
  full_iff = ground arith;
}
