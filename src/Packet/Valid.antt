-- ===== src/Packet/Valid.antt =====
-- The payload of a packet, and which packets are well formed.
use cpp_lockfree_core.Base.{ℕ, ◌-◌, ◌≤◌, ◌≡◌, List, length}
use cpp_lockfree_core.Memory.{slice}
use cpp_lockfree_core.Packet.{Packet, header_size}

pub record IsValid (p : Packet) : Type 0 where
  pub sized : length p.buffer ≡ p.size
  pub has_header : header_size ≤ p.cur_size
  pub within : p.cur_size ≤ p.size

abbrev pub payload : Packet → List ℕ
payload p = slice p.buffer header_size (p.cur_size - header_size)

abbrev pub header : Packet → List ℕ
header p = slice p.buffer 0 header_size
