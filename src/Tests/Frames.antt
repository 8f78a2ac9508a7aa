-- ===== src/Tests/Frames.antt =====
-- The receive loop at work.
use cpp_lockfree_core.Base.{◌≡◌, refl, [], ◌∷◌, ◌++◌, arith, some}
use cpp_lockfree_core.Bytes.{le_value, le_bytes}
use cpp_lockfree_core.RingBuff.{RingBuff, get_use_size, get_direct_write_size}
use cpp_lockfree_core.RingBuff.Valid.{IsValid}
use cpp_lockfree_core.RingBuff.Contents.{contents}
use cpp_lockfree_core.Framing.{waits, Outcome, on_recv_completed, received}
use cpp_lockfree_core.Framing.Split.{refused, split}
use cpp_lockfree_core.Framing.Stream.{cut, encode, encode_all}
use cpp_lockfree_core.Framing.Refine.{Yields}
use cpp_lockfree_core.Framing.Receive.{
  Arrives, on_recv_completed_total, opened, next, Serves-Yields, Serves-encode_all,
}

abbrev fresh : RingBuff
fresh = record { buffer = 0 ∷ 0 ∷ 0 ∷ 0 ∷ 0 ∷ 0 ∷ 0 ∷ 0 ∷ []; front = 0; rear = 0; size = 8 }

fresh-IsValid : IsValid fresh
fresh-IsValid = omega arith

fresh-contents : contents fresh ≡ []
unfolding contents get_use_size
fresh-contents = refl

-- One packet of one byte, and the header of the next.
fresh-Arrives : Arrives fresh (1 ∷ 0 ∷ 9 ∷ 2 ∷ 0 ∷ [])
unfolding get_direct_write_size
fresh-Arrives = record { posted = omega arith; not_whole = λ o. omega arith }

on_recv_completed_total_example :
    (o : Outcome) × (on_recv_completed 8 (received fresh (1 ∷ 0 ∷ 9 ∷ 2 ∷ 0 ∷ [])) 5 ≡ some o)
    × Yields (cut (contents fresh ++ (1 ∷ 0 ∷ 9 ∷ 2 ∷ 0 ∷ []))) o
on_recv_completed_total_example =
    on_recv_completed_total (1 ∷ 0 ∷ 9 ∷ 2 ∷ 0 ∷ []) fresh-IsValid fresh-Arrives

framed : 1 ∷ 0 ∷ 9 ∷ 2 ∷ 0 ∷ [] ≡ encode_all ((9 ∷ []) ∷ []) ++ (2 ∷ 0 ∷ [])
unfolding encode_all encode le_bytes
framed = refl

cut_runs :
    cut (1 ∷ 0 ∷ 9 ∷ 2 ∷ 0 ∷ [])
    ≡ record { packets = (1 ∷ 0 ∷ 9 ∷ []) ∷ []; rest = 2 ∷ 0 ∷ []; verdict = waits }
unfolding cut split refused le_value
cut_runs = refl

Serves-Yields_example :
    let first = on_recv_completed_total (1 ∷ 0 ∷ 9 ∷ 2 ∷ 0 ∷ []) fresh-IsValid fresh-Arrives in
    Yields (cut (1 ∷ 0 ∷ 9 ∷ 2 ∷ 0 ∷ [])) first.0
Serves-Yields_example =
    let first = on_recv_completed_total (1 ∷ 0 ∷ 9 ∷ 2 ∷ 0 ∷ []) fresh-IsValid fresh-Arrives in
    Serves-Yields fresh-IsValid fresh-contents (
      next (1 ∷ 0 ∷ 9 ∷ 2 ∷ 0 ∷ []) first.0 first.0.packets (1 ∷ 0 ∷ 9 ∷ 2 ∷ 0 ∷ []) opened refl
        fresh-Arrives first.1 refl refl)

-- The stream is the packet of the one byte 9, and the header of the next.
Serves-encode_all_example :
    let first = on_recv_completed_total (1 ∷ 0 ∷ 9 ∷ 2 ∷ 0 ∷ []) fresh-IsValid fresh-Arrives in
    (first.0.packets ≡ encode (9 ∷ []) ∷ (cut (2 ∷ 0 ∷ [])).packets)
    × (contents first.0.ring ≡ (cut (2 ∷ 0 ∷ [])).rest)
    × (first.0.verdict ≡ (cut (2 ∷ 0 ∷ [])).verdict)
Serves-encode_all_example =
    let first = on_recv_completed_total (1 ∷ 0 ∷ 9 ∷ 2 ∷ 0 ∷ []) fresh-IsValid fresh-Arrives in
    Serves-encode_all ((9 ∷ []) ∷ []) (2 ∷ 0 ∷ []) fresh-IsValid fresh-contents (omega arith)
      (next (1 ∷ 0 ∷ 9 ∷ 2 ∷ 0 ∷ []) first.0 first.0.packets (1 ∷ 0 ∷ 9 ∷ 2 ∷ 0 ∷ []) opened refl
        fresh-Arrives first.1 refl refl)
      framed
