-- ===== src/Frontend/Submission/Polling.antt =====
-- pollTransactionStatus of frontend/src/lib/stellar.ts: sixty rounds are all that the timeout leaves.
use native.Mathlib.Nat.{suc-add}
use opauque_stellar.Base.{
  ℕ, zero, suc, ◌+◌, ◌-◌, ◌*◌, ◌≤◌, ◌≡◌, refl, ap, ◌∙◌, inl, inr, Text, false, ltb, Bool-cases,
  arith,
}
use opauque_stellar.Base.Exec.{Result, ok, err, Exec, continue}
use opauque_stellar.Frontend.Submission.{
  Server, TxStatus, not_found, success, failed, tx_poll_timeout_ms, tx_poll_interval_ms, look_again,
  poll,
}

module _ {W Account Tx : Type 0} (server : Server W Account Tx)
    (read_later : (hash : Text) (w : W)
      → server.now w ≤ server.now (server.get_transaction hash w).1)
    (slept : (ms : ℕ) (w : W) → server.now w + ms ≤ server.now (server.sleep ms w)) where
  -- Equal from where a second of sleep leads, two polls go on equally behind any answer.
  look_again-eq :
      (f g : Exec Text W TxStatus) (r : Result Text TxStatus) (w : W)
      → f (server.sleep tx_poll_interval_ms w) ≡ g (server.sleep tx_poll_interval_ms w)
      → continue r (look_again server f) w ≡ continue r (look_again server g) w
  look_again-eq f g (ok not_found) w h = h
  look_again-eq f g (ok success) w h = refl
  look_again-eq f g (ok failed) w h = refl
  look_again-eq f g (err e) w h = refl

  -- One round more changes nothing where the rounds are as many seconds as are left.
  poll-more :
      (left start : ℕ) (hash : Text) (w : W)
      → start ≤ server.now w
      → tx_poll_timeout_ms ≤ (server.now w - start) + 1_000 * left
      → poll server (suc left) start hash w ≡ poll server left start hash w
  unfolding poll
  poll-more zero start hash w later h = rw (over h) refl
    where
      over :
          tx_poll_timeout_ms ≤ (server.now w - start) + 1_000 * 0
          → ltb (server.now w - start) tx_poll_timeout_ms ≡ false
      over h = ground arith
  poll-more (suc left) start hash w later h =
      elim (Bool-cases (ltb (server.now w - start) tx_poll_timeout_ms)) [
        | inl early ↦ rw early (
            look_again-eq (poll server (suc left) start hash) (poll server left start hash)
              (server.get_transaction hash w).0 (server.get_transaction hash w).1
              (poll-more left start hash (server.sleep 1_000 (server.get_transaction hash w).1)
                (omega
                  (arith, later, read_later hash w, slept 1_000 (server.get_transaction hash w).1))
                (omega (
                  arith,
                  later,
                  h,
                  read_later hash w,
                  slept 1_000 (server.get_transaction hash w).1,
                ))))
        | inr late ↦ rw late refl
      ]

  -- On a clock that does not go back and that a sleep moves on by its time, sixty rounds are as good
  -- as any more.
  pub poll_transaction_status-enough :
      (more : ℕ) (hash : Text) (w : W)
      → poll server (more + 60) (server.now w) hash w ≡ poll server 60 (server.now w) hash w
  poll_transaction_status-enough zero hash w = refl
  poll_transaction_status-enough (suc more) hash w =
      ap (λ n. poll server n (server.now w) hash w) (suc-add more 60)
      ∙ poll-more (more + 60) (server.now w) hash w (omega arith) (omega arith)
      ∙ poll_transaction_status-enough more hash w
