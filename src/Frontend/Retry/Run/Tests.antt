-- ===== src/Frontend/Retry/Run/Tests.antt =====
-- frontend/src/lib/retryPolicy.ts on a server that answers at the third call.
use opauque_stellar.Base.{
  true, false, ℕ, suc, ◌^◌, ◌≡◌, refl, codes, none, some, [], ltb, if◌then◌else◌, arith,
}
use opauque_stellar.Base.Exec.{ok, err}
use opauque_stellar.Base.Fractions.{int, round}
use opauque_stellar.Frontend.Retry.{
  RetryPolicy, RetryPolicyOptions, negative, not_finite, absent, finite, capped_delay,
  default_retry_policy, failure, policy_for_method, backoff_delay_ms, resolve_retry_policy,
  is_non_idempotent,
}
use opauque_stellar.Frontend.Retry.Bounds.{
  IsSound, IsPart, resolve_retry_policy-IsSound, backoff_delay_ms_bounds,
}
use opauque_stellar.Frontend.Retry.Run.{Attempt, state_of, run_with_retry_policy}
use opauque_stellar.Frontend.Retry.Run.Laws.{
  Decided, run_with_retry_policy-Decided, run_with_retry_policy_once,
}

-- The world counts the calls; the first two find the server busy.
abbrev flaky : ℕ → ℕ → Attempt ℕ × ℕ
flaky attempt w = (
  record {
    result = if ltb w 2 then err (failure (some 503) none none (codes "busy")) else ok w;
    elapsed_ms = 10;
  },
  suc w,
)

abbrev half : ℕ → ℕ
half attempt = 2 ^ 52

run_with_retry_policy-Decided_example :
    Decided flaky half
      (codes "load")
      (codes "getLedger")
      1
      (policy_for_method (codes "getLedger") default_retry_policy)
      0
      0
      0
      (run_with_retry_policy flaky half (codes "load") (codes "getLedger") 1 default_retry_policy 0)
run_with_retry_policy-Decided_example =
    run_with_retry_policy-Decided flaky half (codes "load") (codes "getLedger") 1
      default_retry_policy 0 (omega arith)

run_with_retry_policy_once_example :
    (run_with_retry_policy flaky half
      (codes "send")
      (codes "sendTransaction")
      1
      default_retry_policy
      0).1
    ≡ state_of 1 []
unfolding is_non_idempotent
run_with_retry_policy_once_example =
    run_with_retry_policy_once flaky half (codes "send") (codes "sendTransaction") 1
      default_retry_policy 0 refl

abbrev odd_options : RetryPolicyOptions
odd_options = record {
  attempts = negative;
  initial_delay_ms = finite (record { numerator = 18_001; places = 1 });
  max_delay_ms = not_finite;
  backoff_factor = finite (int 0);
  jitter = none;
  retryable_statuses = none;
  retryable_message_pattern = none;
  timeout_ms = absent;
}

resolve_retry_policy-IsSound_example :
    IsSound (resolve_retry_policy (some odd_options) default_retry_policy)
resolve_retry_policy-IsSound_example =
    resolve_retry_policy-IsSound (some odd_options) default_retry_policy
      (omega arith, omega arith, omega arith)

-- 350 * 1.5 ^ 2 without jitter is 787.5.
abbrev fractional : RetryPolicy
fractional = record default_retry_policy {
  backoff_factor = record { numerator = 3; places = 1 };
  jitter = false;
}

backoff_delay_ms_bounds_example :
    IsPart
      (capped_delay 2 fractional)
      (backoff_delay_ms 2 (record fractional { jitter = true }) (2 ^ 52))
backoff_delay_ms_bounds_example =
    backoff_delay_ms_bounds 2 (record fractional { jitter = true }) (2 ^ 52) (omega arith)

rounded_up : backoff_delay_ms 2 fractional 0 ≡ 788
unfolding backoff_delay_ms round
rounded_up = refl
