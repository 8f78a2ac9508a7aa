-- ===== src/Session/Moves.antt =====
-- Every step of a thread has the account of a fact.
use cpp_lockfree_core.Base.{ℕ, ◌+◌, ◌^◌, ◌≡◌, ◌≤◌, ◌<◌, inl, inr, refl, arith}
use cpp_lockfree_core.MemoryPool.{decrement}
use cpp_lockfree_core.Session.{
  Session, Ret, Pc, return_to, Move, accept_recv, send_packet, disconnect, bytes_come, none_come,
  hang_up, recv_again, recv_refused, send_rest, send_all, finished, enter, pending, check_open,
  check_closing, raise, recheck_open, recheck_closing, withdraw, withdrawn, issue, issue_fails,
  failed, reset_failed, worker, not_found, found_mark, found_poll, mark, not_closing, closing,
  io_left, io_none, cas_lost, cas_won, erase, give_back,
}
use cpp_lockfree_core.Session.Counts.{held_by, held, tearing}
use cpp_lockfree_core.Session.Facts.{
  solid, asks, past, Fact, returned, lowered_to, raise_lem, lower_lem,
}

module _ {s : Session} (few : s.io_count + 1 < 2 ^ 32) where
  -- The thread moves on, and only `m_isSendPending` may change.
  untouched :
      {p p' : Pc} (x : ℕ)
      → (held p' ≡ held p)
        × (solid p' ≡ solid p)
        × (tearing p' ≡ tearing p)
        × (asks p' ≡ 0)
        × (past p' ≤ past p)
      → Fact s p (record s { is_send_pending = x }) p'
  untouched x h = record {
    count = omega (arith, h);
    tears = omega (arith, h);
    closing_kept = λ c. c;
    bit = λ q. q;
    up = omega arith;
    quiet_kept = λ c q. omega (arith, q, h);
    asked = λ a. absurd (omega (arith, a, h));
    commits = λ a. inl (omega (arith, a, h));
  }

  -- The thread gives up one count.
  lowered :
      {p p' : Pc} (x : ℕ)
      → held p + s.in_flight ≤ s.io_count
      → (held p' + 1 ≡ held p)
        × (solid p' ≤ solid p)
        × (tearing p' ≡ tearing p)
        × (asks p' ≡ 0)
        × (past p' ≤ past p)
      → Fact s p (record s { io_count = decrement s.io_count; is_send_pending = x }) p'
  lowered x le h =
      let l = lower_lem s.io_count (omega (arith, le, h)) (omega arith) in
      record {
        count = omega (arith, h, l);
        tears = omega (arith, h);
        closing_kept = λ c. c;
        bit = λ q. q;
        up = omega (arith, l);
        quiet_kept = λ c q. omega (arith, q, h);
        asked = λ a. absurd (omega (arith, a, h));
        commits = λ a. inl (omega (arith, a, h));
      }

  -- The thread returns from a call.
  goes_back :
      {p : Pc} (x : ℕ) (k : Ret)
      → (held p ≡ held_by k) × (solid p ≡ held_by k) × (tearing p ≡ 0)
      → Fact s p (record s { is_send_pending = x }) (return_to k)
  goes_back x k h =
      let r = returned k in
      untouched x
        (omega (arith, r, h), omega (arith, r, h), omega (arith, r, h), r.3, omega (arith, r))

  pub Move-Fact :
      {p p' : Pc} {t : Session} → Move s p t p' → held p + s.in_flight ≤ s.io_count → Fact s p t p'
  Move-Fact accept_recv h = untouched _ (refl, refl, refl, refl, omega arith)
  Move-Fact send_packet h = untouched _ (refl, refl, refl, refl, omega arith)
  Move-Fact disconnect h = untouched _ (refl, refl, refl, refl, omega arith)
  Move-Fact (worker recv_again) h = untouched _ (refl, refl, refl, refl, omega arith)
  Move-Fact (worker recv_refused) h = untouched _ (refl, refl, refl, refl, omega arith)
  Move-Fact (worker send_rest) h = untouched _ (refl, refl, refl, refl, omega arith)
  Move-Fact (worker send_all) h = untouched _ (refl, refl, refl, refl, omega arith)
  Move-Fact (enter e) h = untouched _ (refl, refl, refl, refl, omega arith)
  Move-Fact (check_open e) h = untouched _ (refl, refl, refl, refl, omega arith)
  Move-Fact (recheck_closing e) h = untouched _ (refl, refl, refl, refl, omega arith)
  Move-Fact issue_fails h = untouched _ (refl, refl, refl, refl, omega arith)
  Move-Fact (found_mark e) h = untouched _ (refl, refl, refl, refl, omega arith)
  Move-Fact (found_poll e) h = untouched _ (refl, refl, refl, refl, omega arith)
  Move-Fact (pending {k} e) h = goes_back _ k (refl, refl, refl)
  Move-Fact (check_closing {k = k} e) h = goes_back _ k (refl, refl, refl)
  Move-Fact (not_found {k = k} e) h = goes_back _ k (refl, refl, refl)
  Move-Fact (not_closing {k} e) h = goes_back _ k (refl, refl, refl)
  Move-Fact (io_left {k} e) h = goes_back _ k (refl, refl, refl)
  Move-Fact (cas_lost {k} e) h = goes_back _ k (refl, refl, refl)
  Move-Fact (worker hang_up) h = lowered _ h (refl, omega arith, refl, refl, omega arith)
  Move-Fact (worker finished) h = lowered _ h (refl, omega arith, refl, refl, omega arith)
  Move-Fact reset_failed h = untouched _ (refl, refl, refl, refl, omega arith)
  Move-Fact (withdrawn {k}) h = goes_back _ k (refl, refl, refl)
  Move-Fact (failed {b} {k}) h =
      let r = lowered_to b k in
      lowered _ h (omega (arith, r), omega (arith, r), r.2.1, r.3.1, omega (arith, r))
  Move-Fact (withdraw {b} {k}) h =
      let r = lowered_to b k in
      lowered _ h (omega (arith, r), omega (arith, r), r.2.0, r.3.0, omega (arith, r))
  Move-Fact (worker (bytes_come e)) h = record {
    bit = λ q. omega (arith, q);
    up = omega arith;
    count = omega (arith, e);
    tears = omega arith;
    closing_kept = λ c. c;
    quiet_kept = λ c q. absurd (omega (arith, q, e));
    asked = λ a. absurd (omega (arith, a));
    commits = λ a. inl (omega (arith, a));
  }
  Move-Fact (worker (none_come e)) h = record {
    bit = λ q. omega (arith, q);
    up = omega arith;
    count = omega (arith, e);
    tears = omega arith;
    closing_kept = λ c. c;
    quiet_kept = λ c q. absurd (omega (arith, q, e));
    asked = λ a. absurd (omega (arith, a));
    commits = λ a. inl (omega (arith, a));
  }
  Move-Fact (raise {b} {k}) h =
      let l = raise_lem s.io_count few in
      record {
        bit = λ q. omega (arith, q);
        up = omega (arith, l);
        count = omega (arith, l);
        tears = omega arith;
        closing_kept = λ c. c;
        quiet_kept = λ c q. omega (arith, q);
        asked = λ a. absurd (omega (arith, a));
        commits = λ a. inl (omega (arith, a));
      }
  Move-Fact (recheck_open e) h = record {
    bit = λ q. omega (arith, q);
    up = omega arith;
    count = omega (arith, h);
    tears = omega arith;
    closing_kept = λ c. c;
    quiet_kept = λ c q. absurd (c e);
    asked = λ a. absurd (omega (arith, a));
    commits = λ a. inl (omega (arith, a));
  }
  Move-Fact (issue {b} {k}) h =
      let r = returned k in
      record {
        bit = λ q. omega (arith, q);
        up = omega arith;
        count = omega (arith, r);
        tears = omega (arith, r);
        closing_kept = λ c. c;
        quiet_kept = λ c q. absurd (omega (arith, q));
        asked = λ a. absurd (omega (arith, a, r));
        commits = λ a. inl (omega (arith, a, r));
      }
  Move-Fact mark h = record {
    bit = λ q. omega (arith, q);
    up = omega arith;
    count = omega (arith, h);
    tears = omega arith;
    closing_kept = λ c e. omega (arith, e);
    quiet_kept = λ c q. omega (arith, q);
    asked = λ a. absurd (omega (arith, a));
    commits = λ a. inl (omega (arith, a));
  }
  Move-Fact (closing e) h = record {
    bit = λ q. omega (arith, q);
    up = omega arith;
    count = omega (arith, h);
    tears = omega arith;
    closing_kept = λ c. c;
    quiet_kept = λ c q. omega (arith, q);
    asked = λ a. e;
    commits = λ a. inl (omega (arith, a));
  }
  Move-Fact (io_none e) h = record {
    bit = λ q. omega (arith, q);
    up = omega arith;
    count = omega (arith, h);
    tears = omega arith;
    closing_kept = λ c. c;
    quiet_kept = λ c q. omega (arith, q);
    asked = λ a. absurd (omega (arith, a));
    commits = λ a. inr (e, omega arith, refl, refl);
  }
  Move-Fact (cas_won e) h = record {
    bit = λ q. omega (arith, q);
    up = omega arith;
    count = omega (arith, h);
    tears = omega (arith, e);
    closing_kept = λ c. c;
    quiet_kept = λ c q. omega (arith, q);
    asked = λ a. absurd (omega (arith, a));
    commits = λ a. inl (omega (arith, a));
  }
  Move-Fact erase h = record {
    bit = λ q. omega (arith, q);
    up = omega arith;
    count = omega (arith, h);
    tears = omega arith;
    closing_kept = λ c. c;
    quiet_kept = λ c q. omega (arith, q);
    asked = λ a. absurd (omega (arith, a));
    commits = λ a. inl (omega (arith, a));
  }
  Move-Fact (give_back {k}) h =
      let r = returned k in
      record {
        bit = λ q. omega (arith, q);
        up = omega arith;
        count = omega (arith, r);
        tears = omega (arith, r);
        closing_kept = λ c. c;
        quiet_kept = λ c q. omega (arith, q, r);
        asked = λ a. absurd (omega (arith, a, r));
        commits = λ a. inl (omega (arith, a, r));
      }
