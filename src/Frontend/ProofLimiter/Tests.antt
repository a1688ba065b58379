-- ===== src/Frontend/ProofLimiter/Tests.antt =====
-- frontend/src/lib/proofRateLimiter.ts with two proofs at a time and two retries in 100 ms.
use opauque_stellar.Base.{◌≤◌, ◌≡◌, refl, arith, [], ◌∷◌}
use opauque_stellar.Base.Integers.{ℤ, pos, negsuc}
use opauque_stellar.Base.Exec.{ok, err}
use opauque_stellar.Frontend.ProofLimiter.{
  ProofRateLimitConfig, ProofRateLimiter, too_many_proofs, new_limiter, acquire_slot, release,
  record_retry, clear_throttle,
}
use opauque_stellar.Frontend.ProofLimiter.Laws.{count_in, admitted, admitted_lem}

abbrev two : ProofRateLimitConfig
two = record { max_concurrent_proofs = 2; max_retries_per_session = 2; retry_window_ms = 100 }

abbrev limiter : ℤ → ProofRateLimiter
limiter n = record { concurrent_count = n; retries = []; config = two }

-- The third retry comes too early, the fourth when the first two have left the window.
admitted-three : admitted (0 ∷ 10 ∷ 20 ∷ 150 ∷ []) (new_limiter two) ≡ 0 ∷ 10 ∷ 150 ∷ []
unfolding admitted record_retry new_limiter
admitted-three = refl

admitted_lem_example : count_in 100 0 (admitted (0 ∷ 10 ∷ 20 ∷ 150 ∷ []) (new_limiter two)) ≤ 2
admitted_lem_example =
    admitted_lem two (0 ∷ 10 ∷ 20 ∷ 150 ∷ []) 0
      (omega arith, (omega arith, (omega arith, (omega arith, tt))))

acquire_slot-full : acquire_slot (limiter (pos 2)) ≡ err too_many_proofs
unfolding acquire_slot
acquire_slot-full = refl

-- The two proofs that run when the throttle is cleared are counted off once more when they end.
cleared_in_flight : release (release (clear_throttle (limiter (pos 2)))) ≡ limiter (negsuc 1)
unfolding release clear_throttle
cleared_in_flight = refl

-- The count is -2 then, so a proof is admitted and still not counted.
admitted_below_zero : acquire_slot (limiter (negsuc 1)) ≡ ok (limiter (negsuc 0))
unfolding acquire_slot
admitted_below_zero = refl
