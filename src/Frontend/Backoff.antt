-- ===== src/Frontend/Backoff.antt =====
-- AdaptiveBackoff of frontend/src/lib/horizonBackoff.ts. Times are milliseconds. An operation that
-- notifies gives with the new object the state that each listener is called with.
pub mod Laws
pub mod Tests
use opauque_stellar.Base.{
  ℕ, zero, suc, ◌+◌, ◌*◌, ◌/◌, ◌^◌, min, Bool, true, false, Option, none, some, ltb, if◌then◌else◌,
}

pub record BackoffState : Type 0 where
  pub current_interval_ms : ℕ
  pub base_interval_ms : ℕ
  pub consecutive_failures : ℕ
  pub last_request_succeeded : Bool
  pub last_failure_at : Option ℕ
  pub last_success_at : Option ℕ

abbrev pub base_backoff_factor : ℕ
base_backoff_factor = 2

abbrev pub max_backoff_exponent : ℕ
max_backoff_exponent = 6

pub record AdaptiveBackoff : Type 0 where
  pub base_interval_ms : ℕ
  pub consecutive_failures : ℕ
  pub last_failure_at : Option ℕ
  pub last_success_at : Option ℕ

pub new_backoff : ℕ → AdaptiveBackoff
new_backoff base = record {
  base_interval_ms = base;
  consecutive_failures = 0;
  last_failure_at = none;
  last_success_at = none;
}

-- The factor for the jitter is 0.7 + 0.6 * random / 2 ^ 53, where `random` is the numerator of what
-- Math.random() gives; halves round up.
pub jittered_interval : ℕ → ℕ → ℕ
jittered_interval interval random =
    (interval * (7 * 2 ^ 53 + 6 * random) + 5 * 2 ^ 53) / (10 * 2 ^ 53)

abbrev pub or_zero : Option ℕ → ℕ
or_zero none = 0
or_zero (some t) = t

abbrev pub is_later : Option ℕ → Option ℕ → Bool
is_later none failure = false
is_later (some t) failure = ltb (or_zero failure) t

pub get_state : ℕ → AdaptiveBackoff → BackoffState
get_state random b =
    let multiplier = base_backoff_factor ^ min b.consecutive_failures max_backoff_exponent in
    record {
      current_interval_ms =
          if ltb 0 b.consecutive_failures
          then jittered_interval (b.base_interval_ms * multiplier) random
          else b.base_interval_ms;
      base_interval_ms = b.base_interval_ms;
      consecutive_failures = b.consecutive_failures;
      last_request_succeeded = is_later b.last_success_at b.last_failure_at;
      last_failure_at = b.last_failure_at;
      last_success_at = b.last_success_at;
    }

abbrev pub notify : ℕ → AdaptiveBackoff → BackoffState × AdaptiveBackoff
notify random b = (get_state random b, b)

pub record_success : ℕ → ℕ → AdaptiveBackoff → BackoffState × AdaptiveBackoff
record_success random now b =
    notify random (record b { consecutive_failures = 0; last_success_at = some now })

pub record_failure : ℕ → ℕ → AdaptiveBackoff → BackoffState × AdaptiveBackoff
record_failure random now b =
    notify random
      (record b { consecutive_failures = suc b.consecutive_failures; last_failure_at = some now })

pub reset : ℕ → AdaptiveBackoff → BackoffState × AdaptiveBackoff
reset random b =
    notify random
      (record b { consecutive_failures = 0; last_failure_at = none; last_success_at = none })

-- The global instance, and the one in its place where the interval is another.
pub get_polling_backoff : ℕ → Option AdaptiveBackoff → AdaptiveBackoff
get_polling_backoff base none = new_backoff base
get_polling_backoff base (some b) =
    if ltb b.base_interval_ms base
    then new_backoff base
    else if ltb base b.base_interval_ms
    then new_backoff base
    else b
