-- ===== src/Frontend/ProofLimiter.antt =====
-- ProofRateLimiter of frontend/src/lib/proofRateLimiter.ts. Times are milliseconds and arguments.
pub mod Laws
pub mod Tests
use opauque_stellar.Base.{
  ℕ, zero, suc, ◌+◌, Text, codes, Bool, true, false, ◌||◌, List, [], ◌∷◌, ◌++◌, keep, length, ltb,
  leb, if◌then◌else◌,
}
use opauque_stellar.Base.Integers.{ℤ, pos, increment, decrement, at_least}
use opauque_stellar.Base.Exec.{Result, ok, err}

pub record ProofRateLimitConfig : Type 0 where
  pub max_concurrent_proofs : ℕ
  pub max_retries_per_session : ℕ
  pub retry_window_ms : ℕ

abbrev pub default_proof_rate_limit : ProofRateLimitConfig
default_proof_rate_limit = record {
  max_concurrent_proofs = 2;
  max_retries_per_session = 5;
  retry_window_ms = 60_000;
}

pub record ProofRateLimiter : Type 0 where
  pub concurrent_count : ℤ
  pub retries : List ℕ
  pub config : ProofRateLimitConfig

pub data LimitError : Type 0 where
  too_many_proofs too_many_retries : LimitError

pub new_limiter : ProofRateLimitConfig → ProofRateLimiter
new_limiter config = record { concurrent_count = pos 0; retries = []; config = config }

pub acquire_slot : ProofRateLimiter → Result LimitError ProofRateLimiter
acquire_slot l =
    if at_least l.concurrent_count l.config.max_concurrent_proofs
    then err too_many_proofs
    else ok (record l { concurrent_count = increment l.concurrent_count })

-- What `acquireSlot` returns, when it is called.
pub release : ProofRateLimiter → ProofRateLimiter
release l = record l { concurrent_count = decrement l.concurrent_count }

-- now - t < retryWindowMs
abbrev pub is_recent : ℕ → ℕ → ℕ → Bool
is_recent window now t = ltb now (t + window)

abbrev pub recent : ℕ → ProofRateLimiter → List ℕ
recent now l = keep (is_recent l.config.retry_window_ms now) l.retries

-- The old retries are dropped also when the new one is refused.
pub record_retry : ℕ → ProofRateLimiter → Result LimitError (Unit {0}) × ProofRateLimiter
record_retry now l =
    if leb l.config.max_retries_per_session (length (recent now l))
    then (err too_many_retries, record l { retries = recent now l })
    else (ok tt, record l { retries = recent now l ++ (now ∷ []) })

abbrev pub get_pending_count : ProofRateLimiter → ℤ
get_pending_count l = l.concurrent_count

pub get_retries_in_window : ℕ → ProofRateLimiter → ℕ × ProofRateLimiter
get_retries_in_window now l = (length (recent now l), record l { retries = recent now l })

pub clear_throttle : ProofRateLimiter → ProofRateLimiter
clear_throttle l = record l { concurrent_count = pos 0; retries = [] }

pub record ThrottleState : Type 0 where
  pub concurrent : ℤ
  pub max_concurrent : ℕ
  pub retries_in_window : ℕ
  pub max_retries : ℕ
  pub is_throttled : Bool

pub get_state : ℕ → ProofRateLimiter → ThrottleState × ProofRateLimiter
unfolding get_retries_in_window
get_state now l =
    let (n, after) = get_retries_in_window now l in
    (
      record {
        concurrent = l.concurrent_count;
        max_concurrent = l.config.max_concurrent_proofs;
        retries_in_window = n;
        max_retries = l.config.max_retries_per_session;
        is_throttled =
            at_least l.concurrent_count l.config.max_concurrent_proofs
            || leb l.config.max_retries_per_session n;
      },
      after,
    )
