-- ===== src/Framing.antt =====
-- The receive half of `CLockFreeCore::workerThread`, CppLockFreeCore/CLockFreeCore.cpp: the bytes
-- of a completed receive are cut into packets, each of which goes to `onRecv`.
pub mod Split
pub mod Stream
pub mod Refine
pub mod Receive
use cpp_lockfree_core.Base.{
  ℕ, zero, suc, ◌+◌, ◌^◌, ◌≤◌, ◌<◌, Bool, true, false, ◌||◌, Option, none, some, List, [], ◌∷◌, ltb,
  leb, if◌then◌else◌, ◌>>=◌, replicate,
}
use cpp_lockfree_core.Memory.{splice}
use cpp_lockfree_core.Bytes.{le_value}
use cpp_lockfree_core.RingBuff.{
  RingBuff, get_use_size, peek, dequeue, move_rear_pos, get_use_write_index,
}
use cpp_lockfree_core.Packet.{header_size, max_packet_size}

-- How the loop ends: it waits for more bytes, or the header is refused and the session is closed.
pub data Verdict : Type 0 where
  waits protocol_error : Verdict

-- What the loop has done: the packets given to `onRecv`, in order, each with its header, the ring,
-- and the verdict.
pub record Outcome : Type 0 where
  pub packets : List (List ℕ)
  pub ring : RingBuff
  pub verdict : Verdict

-- `header < 0 || header > MAX_PACKET_SIZE` for the two bytes of a `short`.
unfoldable pub bad_header : ℕ → Bool
bad_header h = leb (2 ^ 15) h || ltb max_packet_size h

abbrev deliver : List ℕ → Option Outcome → Option Outcome
deliver p none = none
deliver p (some o) = some (record o { packets = p ∷ o.packets })

abbrev header_bytes : Option (List ℕ) → List ℕ
header_bytes none = []
header_bytes (some bs) = bs

-- The `while` loop, on fuel for its rounds. `none` is a fault, or the end of the fuel. The
-- packet of the loop's body is dequeued into a fresh block of `HEADER_SIZE + header` bytes.
pub frames : ℕ → RingBuff → Option Outcome
unfolding le_value bad_header
frames zero r = none
frames (suc fuel) r =
    if ltb (get_use_size r) header_size
    then some (record { packets = []; ring = r; verdict = waits })
    else (peek r (some (0 ∷ 0 ∷ [])) header_size >>= λ (read, hd).
        let header = le_value (header_bytes hd) in
        let body =
          (dequeue r (some (replicate (header_size + header) 0)) (header_size + header) false
            >>= λ (got, out, r'). deliver (header_bytes out) (frames fuel r')) in
        if bad_header header
        then some (record { packets = []; ring = r; verdict = protocol_error })
        else if ltb (get_use_size r) (header + header_size)
        then some (record { packets = []; ring = r; verdict = waits })
        else body)

-- The handler of a completed receive of `n` bytes, which the system has put at the ring's rear.
pub on_recv_completed : ℕ → RingBuff → ℕ → Option Outcome
unfolding frames
on_recv_completed fuel r n = frames fuel (move_rear_pos r n)

-- The system's part: the bytes of a receive stand in the buffer that `recvPost` has posted, from
-- the write position on, before the completion is reported.
pub received : RingBuff → List ℕ → RingBuff
unfolding get_use_write_index
received r bs = record r { buffer = splice r.buffer (get_use_write_index r) bs }
