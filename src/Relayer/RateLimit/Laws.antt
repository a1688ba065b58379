-- ===== src/Relayer/RateLimit/Laws.antt =====
-- How many requests a bucket lets through.
use native.Mathlib.Nat.{mul-le-mul}
use opauque_stellar.Base.{
  ℕ, ◌+◌, ◌-◌, ◌*◌, ◌≤◌, ◌≡◌, inl, inr, Bool, true, false, List, [], ◌∷◌, leb, min, arith,
  Bool-cases, leb→le,
}
use opauque_stellar.Relayer.RateLimit.{Bucket, RateLimiter, refill, take}

abbrev one_if : Bool → ℕ
one_if true = 1
one_if false = 0

-- The number of requests, each after such a wait, that a bucket lets through, and the bucket after
-- them.
pub admitted : RateLimiter → List ℕ → Bucket → ℕ × Bucket
unfolding refill take
admitted r [] b = (0, b)
admitted r (k ∷ ks) b =
    let first = take r (refill r (b.last_refill + k) b) in
    let rest = admitted r ks first.1 in (one_if first.0.allowed + rest.0, rest.1)

abbrev pub total : List ℕ → ℕ
total [] = 0
total (k ∷ ks) = k + total ks

-- A full refill after a window, and a partial one, for a time `k` after `d`.
full-le : (B W M T d k : ℕ) → B ≤ M → W ≤ k → B * W + d * M ≤ T + (d + k) * M
full-le B W M T d k h w = omega (arith, mul-le-mul h w)

part-le : (C M T d k : ℕ) → min C (T + k * M) + d * M ≤ T + (d + k) * M
part-le C M T d k = omega arith

refill-le :
    (r : RateLimiter) (k : ℕ) (b : Bucket)
    → r.burst_size ≤ r.max_requests
    → (refill r (b.last_refill + k) b).tokens + b.last_refill * r.max_requests
      ≤ b.tokens + (b.last_refill + k) * r.max_requests
unfolding refill
refill-le r k b h =
    let e : (b.last_refill + k) - b.last_refill ≡ k = omega arith in
    rw e (elim (Bool-cases (leb r.window_ms k)) [
      | inl t ↦ rw t (
          full-le r.burst_size r.window_ms r.max_requests b.tokens b.last_refill k h
            (leb→le r.window_ms k t))
      | inr f ↦ rw f (part-le (r.burst_size * r.window_ms) r.max_requests b.tokens b.last_refill k)
    ])

take-eq :
    (r : RateLimiter) (b : Bucket)
    → one_if (take r b).0.allowed * r.window_ms + (take r b).1.tokens ≡ b.tokens
unfolding take
take-eq r b = elim (Bool-cases (leb r.window_ms b.tokens)) [
  | inl t ↦ rw t (omega (arith, leb→le r.window_ms b.tokens t))
  | inr f ↦ rw f (omega arith)
]

add-up :
    (a n W M k t0 t1 t2 d e total : ℕ)
    → t1 + d * M ≤ t0 + (d + k) * M
    → a * W + t2 ≡ t1
    → n * W + e ≤ t2 + total * M
    → (a + n) * W + e ≤ t0 + (k + total) * M
add-up a n W M k t0 t1 t2 d e total p q r = omega arith

-- Where the burst is at most the number of requests for a window: over any sequence of waits and
-- requests, what a bucket lets through and has left is at most what it had and the rate's share of the
-- waits, counted in parts of a token of which a request takes a window's length.
pub admitted-le :
    (r : RateLimiter) (ks : List ℕ) (b : Bucket)
    → r.burst_size ≤ r.max_requests
    → (admitted r ks b).0 * r.window_ms + (admitted r ks b).1.tokens
      ≤ b.tokens + total ks * r.max_requests
unfolding admitted
admitted-le r [] b h = omega arith
admitted-le r (k ∷ ks) b h =
    let c = refill r (b.last_refill + k) b in
    add-up (one_if (take r c).0.allowed) (admitted r ks (take r c).1).0 r.window_ms r.max_requests k
      b.tokens c.tokens (take r c).1.tokens b.last_refill (admitted r ks (take r c).1).1.tokens
      (total ks) (refill-le r k b h) (take-eq r c) (admitted-le r ks (take r c).1 h)
