-- ===== src/Frontend/Retry.antt =====
-- The policy of frontend/src/lib/retryPolicy.ts: its defaults, how options override it, which errors
-- it retries and how long it waits. A timeout is a whole number of milliseconds.
pub mod Bounds
pub mod Run
use opauque_stellar.Base.{
  ℕ, zero, suc, ◌+◌, ◌*◌, ◌/◌, ◌^◌, min, max, Text, codes, same, to_lower, Bool, true, false, ◌&&◌,
  ◌||◌, not, Option, none, some, List, [], ◌∷◌, ◌++◌, any, length, ◌==◌, if◌then◌else◌,
}
use opauque_stellar.Base.Strings.{starts_with, contains}
use opauque_stellar.Base.Fractions.{Fraction, int, times, power, least, greatest, floor, round}

pub record RetryPolicy : Type 0 where
  pub attempts : ℕ
  pub initial_delay_ms : Fraction
  pub max_delay_ms : Fraction
  pub backoff_factor : Fraction
  pub jitter : Bool
  pub retryable_statuses : List ℕ
  pub retryable_message_pattern : Text → Bool
  pub timeout_ms : ℕ

-- A number among the options: left out, infinite or NaN, below 0, or one of `A`.
pub data Given (A : Type 0) : Type 0 where
  absent not_finite negative : Given A
  finite : A → Given A

pub record RetryPolicyOptions : Type 0 where
  pub attempts : Given Fraction
  pub initial_delay_ms : Given Fraction
  pub max_delay_ms : Given Fraction
  pub backoff_factor : Given Fraction
  pub jitter : Option Bool
  pub retryable_statuses : Option (List ℕ)
  pub retryable_message_pattern : Option (Text → Bool)
  pub timeout_ms : Given ℕ

-- What ends a line for the `.` of a pattern.
abbrev is_line_end : ℕ → Bool
is_line_end c = c == 10 || (c == 13 || (c == 0x2028 || c == 0x2029))

-- rate.?limit
abbrev limit_follows : Text → Bool
limit_follows [] = false
limit_follows (c ∷ s) =
    starts_with (codes "limit") (c ∷ s) || (not (is_line_end c) && starts_with (codes "limit") s)

abbrev rate_limit : Text → Bool
rate_limit (a ∷ b ∷ c ∷ d ∷ s) =
    if same (a ∷ b ∷ c ∷ d ∷ []) (codes "rate") && limit_follows s
    then true
    else rate_limit (b ∷ c ∷ d ∷ s)
rate_limit s = false

-- The pattern of the defaults, which does not tell upper from lower case.
pub transient_message : Text → Bool
transient_message message =
    let s = to_lower message in
    rate_limit s
    || any (λ p. contains p s)
        (codes "timeout"
          ∷ codes "timed out"
          ∷ codes "too many requests"
          ∷ codes "network"
          ∷ codes "fetch failed"
          ∷ codes "socket hang up"
          ∷ codes "econnreset"
          ∷ codes "eai_again"
          ∷ [])

abbrev pub default_retry_policy : RetryPolicy
default_retry_policy = record {
  attempts = 3;
  initial_delay_ms = int 350;
  max_delay_ms = int 4000;
  backoff_factor = int 2;
  jitter = true;
  retryable_statuses = 408 ∷ 425 ∷ 429 ∷ 500 ∷ 502 ∷ 503 ∷ 504 ∷ [];
  retryable_message_pattern = transient_message;
  timeout_ms = 12_000;
}

abbrev pub no_retry_policy : RetryPolicy
no_retry_policy = record default_retry_policy { attempts = 1; jitter = false }

abbrev pub non_idempotent_methods : List Text
non_idempotent_methods =
    codes "sendTransaction"
    ∷ codes "_sendTransaction"
    ∷ codes "submitTransaction"
    ∷ codes "submitAsyncTransaction"
    ∷ codes "_submitTransaction"
    ∷ []

abbrev pub positive_int : Given Fraction → ℕ → ℕ
positive_int absent fallback = fallback
positive_int not_finite fallback = fallback
positive_int negative fallback = 1
positive_int (finite a) fallback = max 1 (floor a)

abbrev pub non_negative : {A : Type 0} → Given A → A → A
non_negative (finite a) fallback = a
non_negative _ fallback = fallback

abbrev pub or_base : {A : Type 0} → Option A → A → A
or_base none a = a
or_base (some b) a = b

pub resolve_retry_policy : Option RetryPolicyOptions → RetryPolicy → RetryPolicy
resolve_retry_policy none base = base
resolve_retry_policy (some o) base =
    let max_delay = non_negative o.max_delay_ms base.max_delay_ms in
    record {
      attempts = positive_int o.attempts base.attempts;
      initial_delay_ms = least (non_negative o.initial_delay_ms base.initial_delay_ms) max_delay;
      max_delay_ms = max_delay;
      backoff_factor = greatest (int 1) (non_negative o.backoff_factor base.backoff_factor);
      jitter = or_base o.jitter base.jitter;
      retryable_statuses = or_base o.retryable_statuses base.retryable_statuses;
      retryable_message_pattern =
          or_base o.retryable_message_pattern base.retryable_message_pattern;
      timeout_ms = non_negative o.timeout_ms base.timeout_ms;
    }

-- NON_IDEMPOTENT_METHODS.has(method)
pub is_non_idempotent : Text → Bool
is_non_idempotent method = any (λ m. same m method) non_idempotent_methods

pub policy_for_method : Text → RetryPolicy → RetryPolicy
policy_for_method method policy = if is_non_idempotent method then no_retry_policy else policy

-- What the language throws: an error of a call with the three places of an HTTP status (`none` is no
-- finite number), the envelope of a run that retried in vain, or undefined.
pub data Thrown : Type 0 where
  failure : (status status_code response_status : Option ℕ) (message : Text) → Thrown
  exhausted :
      (message : Text) (cause : Thrown) (method : Text) (attempts providers_tried : ℕ) → Thrown
  undefined : Thrown

abbrev pub first_of : Option ℕ → Option ℕ → Option ℕ
first_of none b = b
first_of (some a) b = some a

pub extract_status : Thrown → Option ℕ
extract_status (failure a b c message) = first_of a (first_of b c)
extract_status (exhausted message cause method attempts providers) = none
extract_status undefined = none

abbrev pub message_of : Thrown → Text
message_of (failure a b c message) = message
message_of (exhausted message cause method attempts providers) = message
message_of undefined = []

-- `err.lastError ?? err` of an envelope.
abbrev pub or_envelope : Thrown → Thrown → Thrown
or_envelope undefined err = err
or_envelope cause err = cause

pub underlying_error : Thrown → Thrown
underlying_error (exhausted message cause method attempts providers) =
    or_envelope cause (exhausted message cause method attempts providers)
underlying_error err = err

abbrev is_404 : Option ℕ → Bool
is_404 none = false
is_404 (some n) = n == 404

pub is_not_found_error : Thrown → Bool
unfolding extract_status underlying_error
is_not_found_error err = is_404 (extract_status (underlying_error err))

abbrev by_status : RetryPolicy → Text → Option ℕ → Bool
by_status policy message none = policy.retryable_message_pattern message
by_status policy message (some n) = any (λ s. s == n) policy.retryable_statuses

pub is_retryable_rpc_error : Thrown → RetryPolicy → Bool
unfolding extract_status
is_retryable_rpc_error err policy = by_status policy (message_of err) (extract_status err)

abbrev pub capped_delay : ℕ → RetryPolicy → Fraction
capped_delay attempt policy =
    least (times policy.initial_delay_ms (power policy.backoff_factor attempt)) policy.max_delay_ms

-- 0.5 + random * 0.5, where `random` is the numerator over 2^53 of what Math.random() gives.
abbrev pub jitter_factor : ℕ → Fraction
jitter_factor random = record { numerator = 2 ^ 53 + random; places = 54 }

pub backoff_delay_ms : ℕ → RetryPolicy → ℕ → ℕ
backoff_delay_ms attempt policy random =
    if policy.jitter
    then round (times (capped_delay attempt policy) (jitter_factor random))
    else round (capped_delay attempt policy)
