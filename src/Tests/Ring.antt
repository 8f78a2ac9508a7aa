-- ===== src/Tests/Ring.antt =====
-- `CRingBuff` at work.
use cpp_lockfree_core.Base.{
  ℕ, ◌<◌, ◌≡◌, refl, List, [], ◌∷◌, ◌++◌, arith, none, some, false, take, min, drop,
}
use cpp_lockfree_core.Memory.{splice}
use cpp_lockfree_core.RingBuff.{
  RingBuff, enqueue, enqueue_rest, peek, dequeue, get_use_size, get_free_size,
}
use cpp_lockfree_core.RingBuff.Valid.{IsValid}
use cpp_lockfree_core.RingBuff.Contents.{contents}
use cpp_lockfree_core.RingBuff.Enqueue.{enqueue_refines}
use cpp_lockfree_core.RingBuff.Overrun.{enqueue_loses_all, enqueue_overruns}
use cpp_lockfree_core.RingBuff.Peek.{peek_overreads}
use cpp_lockfree_core.RingBuff.Dequeue.{peek_refines, dequeue_refines}

-- 7 8 9, round the end of the buffer
abbrev turned : RingBuff
turned = record { buffer = 9 ∷ 0 ∷ 0 ∷ 0 ∷ 7 ∷ 8 ∷ []; front = 4; rear = 1; size = 6 }

abbrev origin : RingBuff
origin = record { buffer = 0 ∷ 0 ∷ 0 ∷ []; front = 0; rear = 0; size = 3 }

turned-IsValid : IsValid turned
turned-IsValid = omega arith

origin-IsValid : IsValid origin
origin-IsValid = omega arith

turned_holds_three : get_use_size turned ≡ 3
unfolding get_use_size
turned_holds_three = refl

turned-contents : contents turned ≡ 7 ∷ 8 ∷ 9 ∷ []
unfolding contents get_use_size
turned-contents = refl

-- Two bytes fit, one at each end of the write.
enqueue_fills :
    enqueue turned (some (1 ∷ 2 ∷ 3 ∷ [])) 3
    ≡ some (2, record { buffer = 9 ∷ 1 ∷ 2 ∷ 0 ∷ 7 ∷ 8 ∷ []; front = 4; rear = 3; size = 6 })
unfolding enqueue enqueue_rest splice
enqueue_fills = refl

enqueue_refines_example :
    (r' : RingBuff) × (enqueue turned (some (1 ∷ 2 ∷ 3 ∷ [])) 3
      ≡ some (min 3 (get_free_size turned), r'))
    × (contents r' ≡ contents turned ++ take (min 3 (get_free_size turned)) (1 ∷ 2 ∷ 3 ∷ []))
    × IsValid r'
enqueue_refines_example =
    enqueue_refines (1 ∷ 2 ∷ 3 ∷ []) 3 turned-IsValid (omega arith) (λ o. omega arith)

enqueue_loses_all_example :
    (r' : RingBuff) × (enqueue origin (some (1 ∷ 2 ∷ 3 ∷ [])) 3 ≡ some (3, r')) × (contents r' ≡ [])
enqueue_loses_all_example =
    enqueue_loses_all (1 ∷ 2 ∷ 3 ∷ []) origin-IsValid (refl, refl) (omega arith) (omega arith)

enqueue_overruns_example : enqueue origin (some (1 ∷ 2 ∷ 3 ∷ 4 ∷ [])) 4 ≡ none
enqueue_overruns_example =
    enqueue_overruns (1 ∷ 2 ∷ 3 ∷ 4 ∷ []) 4 origin-IsValid (refl, refl) (omega arith) (omega arith)
      (omega arith)

peek_refines_example :
    (out : List ℕ) × (peek turned (some (0 ∷ 0 ∷ 5 ∷ [])) 2 ≡ some (2, some out))
    × (take 2 out ≡ take 2 (contents turned))
    × (drop 2 out ≡ 5 ∷ [])
peek_refines_example =
    peek_refines (0 ∷ 0 ∷ 5 ∷ []) 2 turned-IsValid (omega arith) (omega (arith, turned_holds_three))

dequeue_refines_example :
    (out : List ℕ) × (r' : RingBuff) × (dequeue turned (some (0 ∷ 0 ∷ 0 ∷ [])) 3 false
      ≡ some (3, some out, r'))
    × (take 3 out ≡ take 3 (contents turned))
    × (drop 3 out ≡ [])
    × (contents r' ≡ drop 3 (contents turned))
    × IsValid r'
dequeue_refines_example =
    dequeue_refines (0 ∷ 0 ∷ 0 ∷ []) 3 turned-IsValid (omega arith)
      (omega (arith, turned_holds_three))

-- Three bytes are in use, and five are returned.
turned_overread :
    peek turned (some (0 ∷ 0 ∷ 0 ∷ 0 ∷ 0 ∷ 0 ∷ [])) 6 ≡ some (5, some (7 ∷ 8 ∷ 9 ∷ 0 ∷ 0 ∷ 0 ∷ []))
unfolding peek splice
turned_overread = refl

peek_overreads_example : get_use_size turned < 5
peek_overreads_example =
    peek_overreads (0 ∷ 0 ∷ 0 ∷ 0 ∷ 0 ∷ 0 ∷ []) 6 5 turned-IsValid
      (omega (arith, turned_holds_three)) (omega (arith, turned_holds_three)) turned_overread
