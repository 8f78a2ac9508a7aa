-- ===== src/Packet.antt =====
-- The packet buffer of CppLockFreeCore/CPacket.cpp: a two-byte header, then the payload. The six
-- overloads of `operator<<` and of `operator>>` differ in the number of bytes alone, so each pair
-- is an instance of `put` and `take_out`.
pub mod Valid
pub mod Write
pub mod Read
use cpp_lockfree_core.Base.{
  ℕ, ◌+◌, ◌-◌, ◌%◌, ◌^◌, ◌≤◌, ◌<◌, ◌||◌, ◌&&◌, Bool, Option, none, some, List, [], ◌∷◌, ◌++◌, ltb,
  leb, if◌then◌else◌, ◌>>=◌, take, drop, length,
}
use cpp_lockfree_core.Memory.{memcpy, slice}
use cpp_lockfree_core.Bytes.{le_bytes}

abbrev pub header_size : ℕ
header_size = 2

abbrev pub max_packet_size : ℕ
max_packet_size = 4000

pub record Packet : Type 0 where
  pub buffer : List ℕ
  pub cur_size : ℕ
  pub size : ℕ

-- `CPacket(int size)`: `storage` is the fresh block of `size` bytes.
pub new_packet : List ℕ → ℕ → Packet
new_packet storage size = record { buffer = storage; cur_size = header_size; size = size }

pub clear : Packet → Packet
clear p = record p { cur_size = 0 }

pub get_total_use_size : Packet → ℕ
get_total_use_size p = p.cur_size

-- The `int` difference as its 32-bit pattern.
pub get_use_size : Packet → ℕ
get_use_size p = (p.cur_size + 2 ^ 32 - header_size) % 2 ^ 32

pub set_cur : Packet → ℕ → Packet
set_cur p n = record p { cur_size = n }

-- `operator<<` for a value of `w` bytes: what does not fit is left out silently.
pub put : ℕ → Packet → List ℕ → Option Packet
unfolding memcpy
put w p bs =
    if leb (p.cur_size + w) p.size
    then (memcpy p.buffer p.cur_size bs 0 w >>= λ buf.
        some (record p { buffer = buf; cur_size = p.cur_size + w }))
    else some p

-- Whether two runs of `n` bytes, from `i` and from `j` on, have a byte in common.
unfoldable pub overlap : ℕ → ℕ → ℕ → Bool
overlap i j n = ltb i (j + n) && ltb j (i + n)

-- The copy inside the block that closes the gap in front: `n` bytes from `si` to the payload's
-- start. `memcpy_s` has no behaviour where the two runs overlap: a fault.
pull : Packet → ℕ → ℕ → Option Packet
unfolding memcpy overlap
pull p si n =
    if overlap header_size si n
    then none
    else (memcpy p.buffer header_size p.buffer si n >>= λ buf. some (record p { buffer = buf }))

-- `operator>>` into the `w` bytes of `dst`. With less than a header in use the size of the second
-- copy is negative: a fault.
pub take_out : ℕ → Packet → List ℕ → Option (List ℕ × Packet)
unfolding pull
take_out w p dst =
    if leb w p.cur_size
    then (memcpy dst 0 p.buffer header_size w >>= λ out.
        if ltb p.cur_size header_size
        then none
        else (pull p w (p.cur_size - header_size) >>= λ q.
            some (out, record q { cur_size = p.cur_size - w })))
    else some (dst, p)

-- `getData`, whose guard is that of `setData`. `none` also where the cursor would become negative.
pub get_data : Packet → List ℕ → ℕ → Option (List ℕ × Packet)
unfolding pull
get_data p dst n =
    if leb (p.cur_size + n) p.size
    then (memcpy dst 0 p.buffer header_size n >>= λ out.
        if ltb p.cur_size header_size || ltb p.cur_size n
        then none
        else (pull p n (p.cur_size - header_size) >>= λ q.
            some (out, record q { cur_size = p.cur_size - n })))
    else some (dst, p)

-- `setHeader(char*)`, and `setHeader(short)` with the two bytes of its argument.
pub set_header : Packet → List ℕ → Option Packet
unfolding memcpy
set_header p buff = memcpy p.buffer 0 buff 0 header_size >>= λ buf. some (record p { buffer = buf })

pub get_header : Packet → List ℕ → Option (List ℕ)
unfolding memcpy
get_header p dst = memcpy dst 0 p.buffer 0 header_size

-- `setData(buff, size)`.
pub set_data : Packet → List ℕ → ℕ → Option Packet
unfolding put
set_data p buff n = put n p buff

-- The overloads; `short` is as `WORD`.
pub put_byte : Packet → ℕ → Option Packet
unfolding put
put_byte p v = put 1 p (le_bytes 1 v)

pub put_int : Packet → ℕ → Option Packet
unfolding put
put_int p v = put 4 p (le_bytes 4 v)

pub put_dword : Packet → ℕ → Option Packet
unfolding put
put_dword p v = put 4 p (le_bytes 4 v)

pub put_word : Packet → ℕ → Option Packet
unfolding put
put_word p v = put 2 p (le_bytes 2 v)

pub take_byte : Packet → List ℕ → Option (List ℕ × Packet)
unfolding take_out
take_byte p dst = take_out 1 p dst

pub take_int : Packet → List ℕ → Option (List ℕ × Packet)
unfolding take_out
take_int p dst = take_out 4 p dst

pub take_dword : Packet → List ℕ → Option (List ℕ × Packet)
unfolding take_out
take_dword p dst = take_out 4 p dst

pub take_word : Packet → List ℕ → Option (List ℕ × Packet)
unfolding take_out
take_word p dst = take_out 2 p dst

-- A `double` is its eight bytes.
pub put_double : Packet → List ℕ → Option Packet
unfolding put
put_double p bs = put 8 p bs

pub take_double : Packet → List ℕ → Option (List ℕ × Packet)
unfolding take_out
take_double p dst = take_out 8 p dst
