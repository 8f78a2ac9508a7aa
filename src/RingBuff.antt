-- ===== src/RingBuff.antt =====
-- The byte ring of CppLockFreeCore/CRingBuff.cpp: the state, and every operation on it but the
-- two of its lock (RingBuff/Lock.antt).
pub mod Valid
pub mod Contents
pub mod Copy
pub mod Enqueue
pub mod Overrun
pub mod Peek
pub mod Dequeue
use cpp_lockfree_core.Base.{
  ℕ, ◌+◌, ◌-◌, ◌%◌, ◌≤◌, ◌<◌, Bool, true, false, ◌&&◌, ◌||◌, Option, none, some, List, ltb, leb,
  ◌==◌, if◌then◌else◌, ◌>>=◌, set, length,
}
use cpp_lockfree_core.Memory.{memcpy}

-- `buffer` is what `malloc` returned, with whatever it held.
pub record RingBuff : Type 0 where
  pub buffer : List ℕ
  pub front : ℕ
  pub rear : ℕ
  pub size : ℕ

-- The constructor, and `init`: `storage` is the fresh block of `buff_size` bytes.
unfoldable pub init : List ℕ → ℕ → RingBuff
init storage buff_size = record { buffer = storage; front = 0; rear = 0; size = buff_size }

unfoldable pub is_empty : RingBuff → Bool
is_empty r = r.front == r.rear

-- `m_rear == m_size - 1` is written with the sum, as `m_size` may be 0.
unfoldable pub is_full : RingBuff → Bool
is_full r = (r.front == r.rear + 1) || (r.front == 0 && r.rear + 1 == r.size)

pub get_size : RingBuff → ℕ
get_size r = r.size - 1

unfoldable pub get_use_size : RingBuff → ℕ
unfolding is_empty is_full
get_use_size r =
    if is_empty r
    then 0
    else if is_full r
    then r.size - 1
    else if ltb r.front r.rear
    then r.rear - r.front
    else r.size - (r.front - r.rear)

unfoldable pub get_free_size : RingBuff → ℕ
unfolding get_use_size
get_free_size r = r.size - 1 - get_use_size r

-- A negative difference is returned as 0, as `-` on ℕ does.
pub get_direct_read_size : RingBuff → ℕ
unfolding is_empty
get_direct_read_size r =
    if is_empty r then 0 else if ltb r.front r.rear then r.rear - r.front else r.size - r.front

unfoldable pub get_direct_write_size : RingBuff → ℕ
unfolding is_empty is_full
get_direct_write_size r =
    if is_full r
    then 0
    else if is_empty r
    then r.size - r.rear
    else if ltb r.front r.rear
    then (if r.front == 0 then r.size - (r.rear + 1) % r.size else r.size - r.rear)
    else r.front - 1 - r.rear

pub move_front_pos : RingBuff → ℕ → RingBuff
move_front_pos r n = record r { front = (r.front + n) % r.size }

unfoldable pub move_rear_pos : RingBuff → ℕ → RingBuff
move_rear_pos r n = record r { rear = (r.rear + n) % r.size }

pub clear_buffer : RingBuff → RingBuff
clear_buffer r = record r { rear = r.front }

-- The index of `getUseWriteBuffer`, and that of `getUseReadBuffer`.
unfoldable pub get_use_write_index : RingBuff → ℕ
get_use_write_index r = r.rear % r.size

pub get_use_read_index : RingBuff → ℕ
get_use_read_index r = r.front % r.size

-- The second half of `enqueue`, after the `w` bytes up to the end of the buffer are copied. At
-- `m_front == 0` the code passes `m_front - 1 == -1` to `memcpy_s` as a size: a fault.
unfoldable pub enqueue_rest : RingBuff → List ℕ → ℕ → ℕ → Option (ℕ × RingBuff)
unfolding move_rear_pos memcpy
enqueue_rest r src n w =
    let tmp_rear = (r.rear + w) % r.size in
    let cur_write_size = (if leb (n - w) (r.front - 1) then n - w else r.front - 1) in
    if (r.front == tmp_rear + 1) || (r.front == 0 && tmp_rear + 1 == r.size)
    then some (w, move_rear_pos r w)
    else if r.front == 0
    then none
    else (memcpy r.buffer (tmp_rear % r.size) src w cur_write_size >>= λ buf.
        some (w + cur_write_size, move_rear_pos (record r { buffer = buf }) (cur_write_size + w)))

-- `none` is a fault, and `none` for `p_buffer` the null pointer.
unfoldable pub enqueue : RingBuff → Option (List ℕ) → ℕ → Option (ℕ × RingBuff)
unfolding get_direct_write_size
enqueue r none n = some (0, r)
enqueue r (some src) n =
    let w = get_direct_write_size r in
    if n == 0 || is_full r
    then some (0, r)
    else if leb n w
    then (memcpy r.buffer (r.rear % r.size) src 0 n >>= λ buf.
        some (n, move_rear_pos (record r { buffer = buf }) n))
    else (memcpy r.buffer (r.rear % r.size) src 0 w >>= λ buf.
        enqueue_rest (record r { buffer = buf }) src n w)

-- `none` is a fault; the bytes are the caller's array after the call.
unfoldable pub peek : RingBuff → Option (List ℕ) → ℕ → Option (ℕ × Option (List ℕ))
unfolding memcpy get_direct_read_size get_use_size
peek r none n = some (0, none)
peek r (some dst) n =
    let read_size = get_direct_read_size r in
    let cur_size = n - read_size in
    let cur_read_size = (if leb cur_size (get_use_size r) then cur_size else get_use_size r) in
    if n == 0 || is_empty r
    then some (0, some dst)
    else if leb n read_size
    then (memcpy dst 0 r.buffer (r.front % r.size) n >>= λ out. some (n, some out))
    else (memcpy dst 0 r.buffer (r.front % r.size) read_size >>= λ out.
        memcpy out read_size r.buffer ((r.front + read_size) % r.size) cur_read_size >>= λ out'.
        some (read_size + cur_read_size, some out'))

-- `pBuffer[size] = '\0'`
terminate : Option (List ℕ) → ℕ → Option (Option (List ℕ))
terminate none n = none
terminate (some dst) n = if ltb n (length dst) then some (some (set dst n 0)) else none

unfoldable pub dequeue :
    RingBuff → Option (List ℕ) → ℕ → Bool → Option (ℕ × Option (List ℕ) × RingBuff)
unfolding peek terminate move_front_pos
dequeue r dst n isch = do
  (read_size, out) ← peek r dst n
  out' ← (if isch then terminate out n else some out)
  some (read_size, out', move_front_pos r read_size)
