-- ===== src/Relayer/RateLimit.antt =====
-- RateLimiter of relayer/src/rate-limit.ts. The tokens of a bucket are a number times 1/window, so
-- that a refill of elapsed / window * max is elapsed * max of these parts; rounding of the source's
-- floating-point numbers is not modelled. The clock does not go back.
pub mod Laws
use opauque_stellar.Base.{
  ℕ, ◌+◌, ◌-◌, ◌*◌, ◌/◌, Text, Bool, true, false, not, Option, none, some, List, [], ◌∷◌, keep, leb,
  ltb, min, if◌then◌else◌,
}
use opauque_stellar.Base.Dict.{get, set}

pub record Bucket : Type 0 where
  pub tokens : ℕ
  pub last_refill : ℕ

pub record RateLimitResult : Type 0 where
  pub allowed : Bool
  pub limit : ℕ
  pub remaining : ℕ
  pub reset_ms : ℕ

pub record RateLimiter : Type 0 where
  pub buckets : List (Text × Bucket)
  pub window_ms : ℕ
  pub max_requests : ℕ
  pub burst_size : ℕ
  pub last_cleanup : ℕ

pub maybe_cleanup : ℕ → RateLimiter → RateLimiter
maybe_cleanup now r = if ltb (now - r.last_cleanup) (r.window_ms * 2) then r else record r {
  last_cleanup = now;
  buckets = keep (λ b. leb (now - b.1.last_refill) (r.window_ms * 3)) r.buckets;
}

-- A bucket after its refill.
pub refill : RateLimiter → ℕ → Bucket → Bucket
refill r now b =
    let elapsed = now - b.last_refill in
    if leb r.window_ms elapsed
    then record { tokens = r.burst_size * r.window_ms; last_refill = now }
    else record {
      tokens = min (r.burst_size * r.window_ms) (b.tokens + elapsed * r.max_requests);
      last_refill = now;
    }

abbrev or_full : RateLimiter → ℕ → Option Bucket → Bucket
or_full r now none = record { tokens = r.burst_size * r.window_ms; last_refill = now }
or_full r now (some b) = b

-- One request against a bucket.
pub take : RateLimiter → Bucket → RateLimitResult × Bucket
take r b =
    if leb r.window_ms b.tokens
    then (
      record {
        allowed = true;
        limit = r.burst_size;
        remaining = (b.tokens - r.window_ms) / r.window_ms;
        reset_ms = b.last_refill + r.window_ms;
      },
      record b { tokens = b.tokens - r.window_ms },
    )
    else (
      record {
        allowed = false;
        limit = r.burst_size;
        remaining = 0;
        reset_ms = b.last_refill + r.window_ms;
      },
      b,
    )

pub consume : Text → ℕ → RateLimiter → RateLimitResult × RateLimiter
unfolding maybe_cleanup refill take
consume source now limiter =
    let r = maybe_cleanup now limiter in
    let taken = take r (refill r now (or_full r now (get source r.buckets))) in
    (taken.0, record r { buckets = set source taken.1 r.buckets })
