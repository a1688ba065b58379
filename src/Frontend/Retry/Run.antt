-- ===== src/Frontend/Retry/Run.antt =====
-- runWithRetryPolicy and withTimeout of frontend/src/lib/retryPolicy.ts. A call changes a world and
-- answers after some time, and goes on in the world even if its time has run out before.
pub mod Laws
pub mod Tests
use opauque_stellar.Base.{
  ℕ, zero, suc, ◌+◌, Text, codes, Bool, true, false, none, List, [], ◌∷◌, ◌++◌, length, ltb, leb,
  ◌==◌, if◌then◌else◌,
}
use opauque_stellar.Base.Exec.{Result, ok, err}
use opauque_stellar.Base.Numerals.{to_text}
use opauque_stellar.Frontend.Retry.{
  RetryPolicy, Thrown, failure, exhausted, undefined, message_of, is_retryable_rpc_error,
  backoff_delay_ms, policy_for_method,
}

pub record Attempt (A : Type 0) : Type 0 where
  pub result : Result Thrown A
  pub elapsed_ms : ℕ

abbrev pub timed_out : Text → ℕ → Thrown
timed_out label timeout_ms =
    failure none none none (label ++ codes " timed out after " ++ to_text timeout_ms ++ codes "ms")

pub with_timeout : {A : Type 0} → Attempt A → ℕ → Text → Result Thrown A
with_timeout work timeout_ms label =
    if timeout_ms == 0
    then work.result
    else (if ltb work.elapsed_ms timeout_ms then work.result else err (timed_out label timeout_ms))

abbrev or_unknown : Text → Text
or_unknown [] = codes "unknown error"
or_unknown (c ∷ s) = c ∷ s

-- The world, and the delays that were slept through.
pub record State (W : Type 0) : Type 0 where
  pub world : W
  pub slept : List ℕ

abbrev pub state_of : {W : Type 0} → W → List ℕ → State W
state_of w slept = record { world = w; slept = slept }

abbrev pub last_error : {A : Type 0} → Thrown → Result Thrown A → Thrown
last_error last (ok a) = last
last_error last (err e) = e

-- `fn` is the call for an attempt, `random` the random numbers by attempt.
module _ {W A : Type 0} (fn : ℕ → W → Attempt A × W) (random : ℕ → ℕ) (label method : Text)
    (providers_tried : ℕ) (policy : RetryPolicy) where
  pub envelope : Thrown → Thrown
  envelope last =
      exhausted
        (label
          ++ codes " failed after "
          ++ to_text policy.attempts
          ++ codes " attempt(s): "
          ++ or_unknown (message_of last))
        last method policy.attempts providers_tried

  -- What one attempt comes to.
  pub outcome : ℕ → W → Result Thrown A
  outcome attempt w = with_timeout (fn attempt w).0 policy.timeout_ms label

  -- The rest of the loop, behind a sleep, unless the attempt decides.
  abbrev pub decide :
      ℕ → Result Thrown A → State W → Result Thrown A × State W → Result Thrown A × State W
  decide attempt (ok a) s rest = (ok a, s)
  decide attempt (err e) s rest =
      if is_retryable_rpc_error e policy
      then (if leb policy.attempts (attempt + 1) then (err (envelope e), s) else rest)
      else (err e, s)

  -- `left` is policy.attempts less the attempt, what the loop's test leaves.
  pub loop : (left attempt : ℕ) → Thrown → State W → Result Thrown A × State W
  loop zero attempt last s = (err (envelope last), s)
  loop (suc left) attempt last s =
      let world = (fn attempt s.world).1 in
      let delay = backoff_delay_ms attempt policy (random attempt) in
      let rest =
        loop left (suc attempt) (last_error last (outcome attempt s.world))
          (state_of world (s.slept ++ delay ∷ [])) in
      decide attempt (outcome attempt s.world) (state_of world s.slept) rest

module _ {W A : Type 0} (fn : ℕ → W → Attempt A × W) (random : ℕ → ℕ) (label method : Text)
    (providers_tried : ℕ) where
  pub run_with_retry_policy : RetryPolicy → W → Result Thrown A × State W
  unfolding loop
  run_with_retry_policy policy w =
      let p = policy_for_method method policy in
      loop fn random label method providers_tried p p.attempts 0 undefined (state_of w [])
