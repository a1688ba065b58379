-- ===== src/Frontend/Retry/Run/Laws.antt =====
-- runWithRetryPolicy of frontend/src/lib/retryPolicy.ts: which attempt decides, and how often a
-- submission is made.

use opauque_stellar.Base.{
  ℕ, zero, suc, ◌+◌, ◌≤◌, ◌<◌, ◌≡◌, refl, ap, sym, subst, ℕ_discrete, ◌∙◌, ◌⊎◌, inl, inr, Text,
  true, false, [], ◌∷◌, ◌++◌, length, length-append, leb, arith, Bool-cases,
}
use opauque_stellar.Base.Exec.{Result, ok, err}
use opauque_stellar.Frontend.Retry.{
  RetryPolicy, Thrown, undefined, no_retry_policy, is_non_idempotent, is_retryable_rpc_error,
  backoff_delay_ms, policy_for_method,
}
use opauque_stellar.Frontend.Retry.Run.{
  Attempt, State, state_of, last_error, envelope, outcome, decide, loop, run_with_retry_policy,
}

-- The world behind the first `n` calls.
pub worlds : {W A : Type 0} → (ℕ → W → Attempt A × W) → ℕ → W → W
worlds fn zero w = w
worlds fn (suc n) w = (fn n (worlds fn n w)).1

module _ {W A : Type 0} (fn : ℕ → W → Attempt A × W) (random : ℕ → ℕ) (label method : Text)
    (providers_tried : ℕ) (policy : RetryPolicy) (start : W) where
  -- What attempt `i` comes to if it is made.
  abbrev tried : ℕ → Result Thrown A
  tried i = outcome fn random label method providers_tried policy i (worlds fn i start)

  abbrev pub IsTransient : ℕ → Type 0
  IsTransient i = (e : Thrown) × (tried i ≡ err e) × (is_retryable_rpc_error e policy ≡ true)

  -- How the run ends at attempt `n`: with its value, with an error that is not to be retried, or, if
  -- it is the last, with the envelope of its error.
  abbrev pub Final : ℕ → Result Thrown A → Type 0
  Final n r =
      ((a : A) × (tried n ≡ ok a) × (r ≡ ok a))
      ⊎ ((e : Thrown) × (tried n ≡ err e) × (is_retryable_rpc_error e policy ≡ false) × (r ≡ err e))
      ⊎ ((e : Thrown) × (tried n ≡ err e)
          × (is_retryable_rpc_error e policy ≡ true)
          × (suc n ≡ policy.attempts)
          × (r ≡ err (envelope fn random label method providers_tried policy e)))

  abbrev pub Decided : ℕ → ℕ → Result Thrown A × State W → Type 0
  Decided from slept r =
      (n : ℕ) × (from ≤ n)
      × (n < policy.attempts)
      × ((i : ℕ) → from ≤ i → i < n → IsTransient i)
      × (r.1.world ≡ worlds fn (suc n) start)
      × (length r.1.slept + from ≡ slept + n)
      × Final n r.0

  abbrev run_loop : ℕ → ℕ → Thrown → State W → Result Thrown A × State W
  run_loop = loop fn random label method providers_tried policy

  Decided-earlier :
      (k slept : ℕ) (r : Result Thrown A × State W)
      → IsTransient k
      → Decided (suc k) (suc slept) r
      → Decided k slept r
  Decided-earlier k slept r h (n, l, u, t, w, s, f) =
      (n, omega arith, u, transient, w, omega (arith, s), f)
    where
      transient : (i : ℕ) → k ≤ i → i < n → IsTransient i
      transient i a b = elim (ℕ_discrete k i) [
        | yes e ↦ subst IsTransient e h
        | no ne ↦ t i (ground (arith, ne, a)) b
      ]

  decide-Decided :
      (k left : ℕ) (s : State W) (rest : Result Thrown A × State W) (r : Result Thrown A)
      → tried k ≡ r
      → k + suc left ≡ policy.attempts
      → s.world ≡ worlds fn (suc k) start
      → (0 < left → Decided (suc k) (suc (length s.slept)) rest)
      → Decided k (length s.slept) (decide fn random label method providers_tried policy k r s rest)
  decide-Decided k left s rest (ok a) e l w h = (
    k,
    omega arith,
    omega arith,
    λ i p q. absurd (omega (arith, p, q)),
    w,
    refl,
    inl (a, e, refl),
  )
  decide-Decided k left s rest (err x) e l w h =
      elim (Bool-cases (is_retryable_rpc_error x policy)) [
        | inr final ↦ rw final (
          k,
          omega arith,
          omega arith,
          λ i p q. absurd (omega (arith, p, q)),
          w,
          refl,
          inr (inl (x, e, final, refl)),
        )
        | inl again ↦ rw again (elim (Bool-cases (leb policy.attempts (k + 1))) [
          | inl last ↦ rw last (
            k,
            omega arith,
            omega arith,
            λ i p q. absurd (omega (arith, p, q)),
            w,
            refl,
            inr (inr (x, e, again, ground (arith, last), refl)),
          )
          | inr more ↦
              rw more
                (Decided-earlier k (length s.slept) rest (x, e, again) (h (ground (arith, more))))
        ])
      ]

  pub loop-Decided :
      (left k : ℕ) (last : Thrown) (s : State W)
      → 0 < left
      → k + left ≡ policy.attempts
      → s.world ≡ worlds fn k start
      → Decided k (length s.slept) (run_loop left k last s)
  unfolding loop worlds
  loop-Decided zero k last s p l w = absurd (omega arith)
  loop-Decided (suc left) k last s p l w =
      decide-Decided k left _ _ _
        (ap (outcome fn random label method providers_tried policy k) (sym w)) l next_world
        λ q.
          subst (λ m. Decided (suc k) m (run_loop left (suc k) failed next))
            (length-append s.slept (delay ∷ []) ∙ plus_one (length s.slept))
            (loop-Decided left (suc k) failed next q (omega (arith, l)) next_world)
    where
      delay : ℕ
      delay = backoff_delay_ms k policy (random k)

      failed : Thrown
      failed = last_error last (outcome fn random label method providers_tried policy k s.world)

      next : State W
      next = state_of (fn k s.world).1 (s.slept ++ delay ∷ [])

      next_world : (fn k s.world).1 ≡ worlds fn (suc k) start
      next_world = ap (λ x. (fn k x).1) w

      plus_one : (n : ℕ) → n + 1 ≡ suc n
      plus_one n = omega arith

module _ {W A : Type 0} (fn : ℕ → W → Attempt A × W) (random : ℕ → ℕ) (label method : Text)
    (providers_tried : ℕ) (policy : RetryPolicy) (w : W) where
  policy_for_method_attempts : 1 ≤ policy.attempts → 1 ≤ (policy_for_method method policy).attempts
  unfolding policy_for_method
  policy_for_method_attempts h = elim (Bool-cases (is_non_idempotent method)) [
    | inl e ↦ rw e (omega arith)
    | inr e ↦ rw e h
  ]

  policy_for_method_pinned :
      is_non_idempotent method ≡ true → policy_for_method method policy ≡ no_retry_policy
  unfolding policy_for_method
  policy_for_method_pinned h = rw h refl

  -- Under a policy with at least one attempt there is an attempt within the policy's number that
  -- decides: all before it fail with errors that are retried, each followed by one sleep, the call is
  -- made no more after it, and the run ends with its value, with its error if that is not retried, or,
  -- if it is the last attempt, with the envelope of its error.
  pub run_with_retry_policy-Decided :
      1 ≤ policy.attempts
      → Decided fn random label method providers_tried
          (policy_for_method method policy)
          w
          0
          0
          (run_with_retry_policy fn random label method providers_tried policy w)
  unfolding run_with_retry_policy worlds
  run_with_retry_policy-Decided h =
      loop-Decided fn random label method providers_tried (policy_for_method method policy) w
        (policy_for_method method policy).attempts 0 undefined (state_of w [])
        (policy_for_method_attempts h) (omega arith) refl

  decide_once :
      (r : Result Thrown A) (s : State W) (rest : Result Thrown A × State W)
      → (decide fn random label method providers_tried no_retry_policy 0 r s rest).1 ≡ s
  decide_once (ok a) s rest = refl
  decide_once (err e) s rest = ground arith

  -- A method that moves funds is called exactly once and nothing is slept, whatever policy the caller
  -- gives and whatever the call comes to.
  pub run_with_retry_policy_once :
      is_non_idempotent method ≡ true
      → (run_with_retry_policy fn random label method providers_tried policy w).1
        ≡ state_of (fn 0 w).1 []
  unfolding run_with_retry_policy loop
  run_with_retry_policy_once h =
      rw (policy_for_method_pinned h) (decide_once _ (state_of (fn 0 w).1 []) _)
