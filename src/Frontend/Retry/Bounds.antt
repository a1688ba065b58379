-- ===== src/Frontend/Retry/Bounds.antt =====
-- frontend/src/lib/retryPolicy.ts: what options cannot break, and how long a delay is.
use opauque_stellar.Base.{
  ℕ, ◌+◌, ◌*◌, ◌^◌, ◌≤◌, ◌<◌, sym, ap, ◌∙◌, Option, none, some, inl, inr, Bool-cases, arith,
}
use native.Mathlib.Nat.{mul-le-mul, mul_assoc}
use opauque_stellar.Base.Fractions.{
  Fraction, int, times, AtMost, least-AtMost, greatest-AtMost, IsNear, round-IsNear, power_plus,
}
use opauque_stellar.Frontend.Retry.{
  RetryPolicy, RetryPolicyOptions, Given, absent, not_finite, negative, finite, positive_int,
  non_negative, resolve_retry_policy, capped_delay, jitter_factor, backoff_delay_ms,
}

-- There is an attempt, the first delay is within the greatest, and delays do not shrink.
abbrev pub IsSound : RetryPolicy → Type 0
IsSound p =
    (1 ≤ p.attempts) × AtMost p.initial_delay_ms p.max_delay_ms × AtMost (int 1) p.backoff_factor

positive_int_bound :
    (g : Given Fraction) (fallback : ℕ) → 1 ≤ fallback → 1 ≤ positive_int g fallback
positive_int_bound absent fallback h = h
positive_int_bound not_finite fallback h = h
positive_int_bound negative fallback h = omega arith
positive_int_bound (finite a) fallback h = omega arith

-- Whatever options are given over a sound policy, infinite, negative and missing numbers among them,
-- the resolved policy is sound.
pub resolve_retry_policy-IsSound :
    (options : Option RetryPolicyOptions) (base : RetryPolicy)
    → IsSound base
    → IsSound (resolve_retry_policy options base)
unfolding resolve_retry_policy
resolve_retry_policy-IsSound none base h = h
resolve_retry_policy-IsSound (some o) base h = (
  positive_int_bound o.attempts base.attempts h.0,
  least-AtMost _ _,
  greatest-AtMost (int 1) (non_negative o.backoff_factor base.backoff_factor),
)

-- The whole number is at most the fraction and a half, and twice it and one is more than the fraction.
abbrev pub IsPart : Fraction → ℕ → Type 0
IsPart a d =
    (2 * (d * 2 ^ a.places) ≤ 2 * a.numerator + 2 ^ a.places)
    × (a.numerator < 2 * (d * 2 ^ a.places) + 2 ^ a.places)

jittered : (a : Fraction) (r d : ℕ) → r < 2 ^ 53 → IsNear (times a (jitter_factor r)) d → IsPart a d
jittered a r d h near =
    let e = power_plus a.places 54 in
    let f = ap (λ x. d * x) e ∙ sym (mul_assoc d (2 ^ a.places) (2 ^ 54)) in
    (
      omega (arith, e, f, near.0, (product a.numerator r h).0),
      omega (arith, e, f, near.1, (product a.numerator r h).1),
    )
  where
    product :
        (c r : ℕ) → r < 2 ^ 53 → (c * (2 ^ 53 + r) ≤ c * 2 ^ 54) × (c * 2 ^ 53 ≤ c * (2 ^ 53 + r))
    product c r h = (mul-le-mul (omega arith) (omega arith), mul-le-mul (omega arith) (omega arith))

-- For any times and factor, fractions too, the delay behind an attempt is at most a half millisecond
-- above the exponential delay capped by the policy, which is less than twice the delay and one, with
-- or without jitter and for every random number.
pub backoff_delay_ms_bounds :
    (attempt : ℕ) (policy : RetryPolicy) (random : ℕ)
    → random < 2 ^ 53
    → IsPart (capped_delay attempt policy) (backoff_delay_ms attempt policy random)
unfolding backoff_delay_ms
backoff_delay_ms_bounds attempt policy random h =
    let c = capped_delay attempt policy in
    elim (Bool-cases policy.jitter) [
      | inl e ↦ rw e (jittered c random _ h (round-IsNear (times c (jitter_factor random))))
      | inr e ↦ rw e (omega (arith, (round-IsNear c).0), omega (arith, (round-IsNear c).1))
    ]
