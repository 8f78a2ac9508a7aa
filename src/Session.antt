-- ===== src/Session.antt =====
-- The life of one session of CppLockFreeCore/CLockFreeCore.cpp: `recvPost`, `sendPost`,
-- `removeSession` and the completions of `workerThread`, one shared access at a time, by any threads.
pub mod Counts
pub mod Facts
pub mod Moves
pub mod Life
use cpp_lockfree_core.Base.{ℕ, ◌+◌, ◌-◌, ◌%◌, ◌^◌, ◌≡◌, ◌≢◌, ◌<◌, Bool, true, false}
use cpp_lockfree_core.Family.{update}
use cpp_lockfree_core.MemoryPool.{increment, decrement}

-- The flags of a `Session`, as numbers; whether its id is in `m_sessionMap`; how often it has been
-- pushed on `m_sessionFreeList`; and the receives and sends that the system has been given and has
-- not reported.
pub record Session : Type 0 where
  pub io_count : ℕ
  pub is_send_pending : ℕ
  pub is_closing : ℕ
  pub is_torn_down : ℕ
  pub mapped : Bool
  pub freed : ℕ
  pub in_flight : ℕ

-- What the code does after a call: the call came from outside, or from the handler of a completion,
-- which still has its count of `m_ioCount`.
pub data Ret : Type 0 where
  outside handler : Ret

pub data Io : Type 0 where
  recv send : Io

-- Where a thread stands.
pub data Pc : Type 0 where
  idle : Pc
  -- workerThread, with a completion in hand
  completed hung_up finish : Pc
  -- sendPost, before its exchange, and both posts after it
  send_enter : Ret → Pc
  post_check post_raise post_recheck post_withdraw post_issue post_failed : Io → Ret → Pc
  -- sendPost, with `m_ioCount` lowered again and `m_isSendPending` still to be reset
  send_withdrawn send_failed : Ret → Pc
  -- removeSession
  remove_find : (mark : Bool) → Ret → Pc
  remove_mark remove_closing remove_io remove_cas : Ret → Pc
  tear_erase tear_push : Ret → Pc

abbrev pub return_to : Ret → Pc
return_to outside = idle
return_to handler = finish

-- A send resets `m_isSendPending` after it has lowered `m_ioCount`; a receive does not touch it.
abbrev pub after_withdraw : Io → Ret → Pc
after_withdraw recv k = return_to k
after_withdraw send k = send_withdrawn k

abbrev pub after_failed : Io → Ret → Pc
after_failed recv k = remove_find true k
after_failed send k = send_failed k

-- `m_isSendPending` after an operation of this kind has ended.
abbrev pub ended : Io → ℕ → ℕ
ended recv p = p
ended send p = 0

-- One step of `workerThread` itself, with a completion of a receive or of a send.
pub data Complete (s : Session) : Pc → Session → Pc → Type 0 where
  -- GetQueuedCompletionStatus gives a completion of bytes, or of none
  bytes_come :
      {n : ℕ} → s.in_flight ≡ n + 1 → Complete s idle (record s { in_flight = n }) completed
  none_come : {n : ℕ} → s.in_flight ≡ n + 1 → Complete s idle (record s { in_flight = n }) hung_up
  hang_up :
      Complete s hung_up (record s { io_count = decrement s.io_count }) (remove_find true outside)
  recv_again : Complete s completed s (post_check recv handler)
  recv_refused : Complete s completed s (remove_find true handler)
  send_rest : Complete s completed (record s { is_send_pending = 0 }) (send_enter handler)
  send_all : Complete s completed (record s { is_send_pending = 0 }) finish
  finished :
      Complete s finish (record s { io_count = decrement s.io_count }) (remove_find false outside)

-- One step of a thread. The first post of a session comes from `acceptThread`, those of a client
-- from `sendPacket`; `disconnect` removes from outside.
pub data Move (s : Session) : Pc → Session → Pc → Type 0 where
  accept_recv : Move s idle s (post_check recv outside)
  send_packet : Move s idle s (send_enter outside)
  disconnect : Move s idle s (remove_find true outside)
  worker : {t : Session} {p p' : Pc} → Complete s p t p' → Move s p t p'
  -- sendPost
  enter :
      {k : Ret}
      → s.is_send_pending ≡ 0
      → Move s (send_enter k) (record s { is_send_pending = 1 }) (post_check send k)
  pending :
      {k : Ret}
      → s.is_send_pending ≢ 0
      → Move s (send_enter k) (record s { is_send_pending = 1 }) (return_to k)
  -- recvPost and sendPost
  check_open : {b : Io} {k : Ret} → s.is_closing ≡ 0 → Move s (post_check b k) s (post_raise b k)
  check_closing :
      {b : Io} {k : Ret}
      → s.is_closing ≢ 0
      → Move s
          (post_check b k)
          (record s { is_send_pending = ended b s.is_send_pending })
          (return_to k)
  raise :
      {b : Io} {k : Ret}
      → Move s (post_raise b k) (record s { io_count = increment s.io_count }) (post_recheck b k)
  recheck_open :
      {b : Io} {k : Ret} → s.is_closing ≡ 0 → Move s (post_recheck b k) s (post_issue b k)
  recheck_closing :
      {b : Io} {k : Ret} → s.is_closing ≢ 0 → Move s (post_recheck b k) s (post_withdraw b k)
  withdraw :
      {b : Io} {k : Ret}
      → Move s
          (post_withdraw b k)
          (record s { io_count = decrement s.io_count })
          (after_withdraw b k)
  withdrawn : {k : Ret} → Move s (send_withdrawn k) (record s { is_send_pending = 0 }) (return_to k)
  issue :
      {b : Io} {k : Ret}
      → Move s (post_issue b k) (record s { in_flight = s.in_flight + 1 }) (return_to k)
  issue_fails : {b : Io} {k : Ret} → Move s (post_issue b k) s (post_failed b k)
  failed :
      {b : Io} {k : Ret}
      → Move s (post_failed b k) (record s { io_count = decrement s.io_count }) (after_failed b k)
  reset_failed :
      {k : Ret} → Move s (send_failed k) (record s { is_send_pending = 0 }) (remove_find true k)
  -- removeSession
  not_found :
      {mark : Bool} {k : Ret} → s.mapped ≡ false → Move s (remove_find mark k) s (return_to k)
  found_mark : {k : Ret} → s.mapped ≡ true → Move s (remove_find true k) s (remove_mark k)
  found_poll : {k : Ret} → s.mapped ≡ true → Move s (remove_find false k) s (remove_closing k)
  mark : {k : Ret} → Move s (remove_mark k) (record s { is_closing = 1 }) (remove_closing k)
  not_closing : {k : Ret} → s.is_closing ≡ 0 → Move s (remove_closing k) s (return_to k)
  closing : {k : Ret} → s.is_closing ≢ 0 → Move s (remove_closing k) s (remove_io k)
  io_left : {k : Ret} → s.io_count ≢ 0 → Move s (remove_io k) s (return_to k)
  io_none : {k : Ret} → s.io_count ≡ 0 → Move s (remove_io k) s (remove_cas k)
  cas_lost : {k : Ret} → s.is_torn_down ≢ 0 → Move s (remove_cas k) s (return_to k)
  cas_won :
      {k : Ret}
      → s.is_torn_down ≡ 0
      → Move s (remove_cas k) (record s { is_torn_down = 1 }) (tear_erase k)
  erase : {k : Ret} → Move s (tear_erase k) (record s { mapped = false }) (tear_push k)
  give_back : {k : Ret} → Move s (tear_push k) (record s { freed = s.freed + 1 }) (return_to k)

-- Threads below `n` over one session, interleaved in any order.
pub record System : Type 0 where
  pub session : Session
  pub pc : ℕ → Pc

pub data Step (n : ℕ) (s : System) : System → Type 0 where
  step :
      (i : ℕ) {t : Session} {p : Pc}
      → i < n
      → Move s.session (s.pc i) t p
      → Step n s (record { session = t; pc = update s.pc i p })
