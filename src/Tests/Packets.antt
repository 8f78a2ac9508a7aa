-- ===== src/Tests/Packets.antt =====
-- `CPacket` at work.
use cpp_lockfree_core.Base.{◌+◌, ◌≡◌, refl, [], ◌∷◌, arith, none, some, leb, if◌then◌else◌}
use cpp_lockfree_core.Packet.{Packet, put, take_out, get_data, set_header}
use cpp_lockfree_core.Packet.Valid.{IsValid, payload, header}
use cpp_lockfree_core.Packet.Write.{put_appends, set_header_lem}
use cpp_lockfree_core.Packet.Read.{take_out_overlaps, take_out_short, put-take_out}

-- The words 1 and 2 behind the header 4 0.
abbrev words : Packet
words = record { buffer = 4 ∷ 0 ∷ 1 ∷ 0 ∷ 2 ∷ 0 ∷ 9 ∷ 9 ∷ []; cur_size = 6; size = 8 }

words-IsValid : IsValid words
words-IsValid = omega arith

put_appends_example :
    (q : Packet) × (put 2 words (7 ∷ 0 ∷ []) ≡ some q)
    × (payload q ≡ 1 ∷ 0 ∷ 2 ∷ 0 ∷ 7 ∷ 0 ∷ [])
    × (header q ≡ 4 ∷ 0 ∷ [])
    × IsValid q
put_appends_example = put_appends (7 ∷ 0 ∷ []) words-IsValid (omega arith)

set_header_lem_example :
    (q : Packet) × (set_header words (6 ∷ 0 ∷ []) ≡ some q)
    × (header q ≡ 6 ∷ 0 ∷ [])
    × (payload q ≡ payload words)
    × IsValid q
set_header_lem_example = set_header_lem (6 ∷ 0 ∷ []) words-IsValid refl

take_out_overlaps_example :
    (take_out 2 words (5 ∷ 5 ∷ []) ≡ none)
    × (get_data words (5 ∷ 5 ∷ []) 2
        ≡ (if leb (words.cur_size + 2) words.size then none else some (5 ∷ 5 ∷ [], words)))
take_out_overlaps_example =
    take_out_overlaps 2 (5 ∷ 5 ∷ []) words-IsValid (omega arith) (omega arith) (omega arith)

-- A word is asked for as an int.
abbrev one_word : Packet
one_word = record { buffer = 2 ∷ 0 ∷ 7 ∷ 1 ∷ 9 ∷ 9 ∷ []; cur_size = 4; size = 6 }

take_out_short_example :
    (q : Packet) × (take_out 4 one_word (0 ∷ 0 ∷ 0 ∷ 0 ∷ []) ≡ some (7 ∷ 1 ∷ 9 ∷ 9 ∷ [], q))
    × (q.cur_size ≡ 0)
    × ¬ IsValid q
take_out_short_example =
    take_out_short 4 (0 ∷ 0 ∷ 0 ∷ 0 ∷ []) (omega arith) refl refl (omega arith) (omega arith)

abbrev empty : Packet
empty = record { buffer = 6 ∷ 0 ∷ 9 ∷ 9 ∷ []; cur_size = 2; size = 4 }

put-take_out_example :
    (q q' : Packet) × (put 1 empty (7 ∷ []) ≡ some q)
    × (take_out 1 q (0 ∷ []) ≡ some (7 ∷ [], q'))
    × (payload q' ≡ [])
    × (header q' ≡ header empty)
    × IsValid q'
put-take_out_example = put-take_out 7 (0 ∷ []) (omega arith) refl (omega arith) refl
