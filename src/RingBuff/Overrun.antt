-- ===== src/RingBuff/Overrun.antt =====
-- `CRingBuff::enqueue` in the one state where it misjudges the free space.
use cpp_lockfree_core.Base.{
  [], ℕ, ◌+◌, ◌≤◌, ◌<◌, ◌≡◌, ◌∙◌, List, arith, length, none, some, mod_wrap,
}
use cpp_lockfree_core.RingBuff.{RingBuff, get_direct_write_size, enqueue, enqueue_rest}
use cpp_lockfree_core.RingBuff.Valid.{IsValid}
use cpp_lockfree_core.RingBuff.Contents.{contents-empty, contents}
use cpp_lockfree_core.RingBuff.Enqueue.{AtOrigin, whole, goes_on}

-- An empty ring of at least two bytes whose positions are both 0 claims to take `size` bytes, one
-- more than it can hold: `enqueue` returns that number, and the ring is empty afterwards.
pub enqueue_loses_all :
    {r : RingBuff} (src : List ℕ)
    → IsValid r
    → AtOrigin r
    → 1 < r.size
    → r.size ≤ length src
    → (r' : RingBuff) × (enqueue r (some src) r.size ≡ some (r.size, r')) × (contents r' ≡ [])
unfolding get_direct_write_size
enqueue_loses_all {r} src v o big enough =
    let (r', e, w) =
      whole v src r.size enough (omega arith) (ground arith) (ground arith) (omega arith) in
    (r', e, contents-empty r' (ground arith))

-- On an empty ring of at least two bytes whose positions are both 0, `enqueue` of more than `size`
-- bytes faults: it passes a negative size to `memcpy_s`.
pub enqueue_overruns :
    {r : RingBuff} (src : List ℕ) (n : ℕ)
    → IsValid r
    → AtOrigin r
    → 1 < r.size
    → r.size < n
    → n ≤ length src
    → enqueue r (some src) n ≡ none
unfolding enqueue_rest get_direct_write_size
enqueue_overruns {r} src n v o big more enough =
    goes_on v src n enough r.size (ground arith) (ground arith) more (omega arith)
    ∙ ground (arith, mod_wrap r.size (r.rear + r.size))
