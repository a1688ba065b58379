-- ===== src/Relayer/Engine/Payload.antt =====
-- handlePayload and submitWithRetry of relayer/src/engine.ts: one delivery at a time, so
-- pendingIdempotency, which joins a delivery to one that still runs, is always empty. The waits
-- between attempts change no state and are left out.
pub mod Safety
pub mod Delivery
use opauque_stellar.Base.{
  ℕ, zero, suc, ◌+◌, ◌-◌, Text, codes, Bool, true, false, not, Option, none, some, List, [], ◌∷◌,
  ◌++◌, ltb, same, if◌then◌else◌, to_lower,
}
use opauque_stellar.Base.Dict.{get, set, delete}
use opauque_stellar.Base.Exec.{
  attempt, Result, ok, err, Exec, pure, throw, lift, gets, modify, ◌>>=◌, ◌>>◌,
}
use opauque_stellar.Relayer.Types.{
  JobStatus, JobResult, OnChainJob, AcceptedJobEntry, EncryptedPayload, Submission,
  IdempotencyEntry, RelayerEngineStats, RelayerChainAdapter,
}
use opauque_stellar.Relayer.Queue.{AcceptedJobQueue, enqueue, resolve, record_failure}
use opauque_stellar.Relayer.Engine.{
  RelayerEngineConfig, RelayerEngine, call, queued, mark, count, note_rejected, note_declined,
  record_submission, is_submitted, open_job, has_deadline_headroom, get_job_or_null, notify_settled,
  reconcile_acceptance, try_submit, attempts_of, idempotency_ttl_ms,
}

-- What the second half of the delivery needs.
pub record Accepted (P : Type 0) : Type 0 where
  pub payload : P
  pub job : OnChainJob
  pub accepted_tx : Text

-- An empty key is no key.
abbrev key_of : EncryptedPayload → Option Text
key_of msg = elim msg.idempotency_key [ none ↦ none | some [] ↦ none | some k ↦ some k ]

module _ {W : Type 0} where
  abbrev pub given_or_throw : Text → Option Text → Exec Text (RelayerEngine W) Text
  given_or_throw e none = throw e
  given_or_throw e (some tx) = pure tx

  abbrev pub remember_under : ℕ → Submission → Option Text → RelayerEngine W → RelayerEngine W
  remember_under now r none s = s
  remember_under now r (some k) s = record s {
    idempotency =
        set k (record { result = r; expires_at = now + idempotency_ttl_ms }) s.idempotency;
  }

  pub remember_result : ℕ → EncryptedPayload → Submission → RelayerEngine W → RelayerEngine W
  unfolding idempotency_ttl_ms
  remember_result now msg r = remember_under now r (key_of msg)

  abbrev finish_job : Text → RelayerEngine W → RelayerEngine W
  finish_job job_id s = record s { pending_jobs = delete (to_lower job_id) s.pending_jobs }

  -- A result that is still kept for the key.
  pub kept_result : ℕ → EncryptedPayload → RelayerEngine W → Option Submission
  kept_result now msg s = elim (key_of msg) [
    | none ↦ none
    | some k ↦ elim (get k s.idempotency) [
      | none ↦ none
      | some e ↦ if ltb now e.expires_at then some e.result else none
    ]
  ]

  abbrev pub forget_key : Option Text → RelayerEngine W → RelayerEngine W
  forget_key none s = s
  forget_key (some k) s = record s { idempotency = delete k s.idempotency }

  abbrev pub drop_job : Text → Text → Exec Text (RelayerEngine W) (Option Submission)
  drop_job job_id e = modify (finish_job job_id) >> throw e

  abbrev pub mark_as : Text → Text → Exec Text (RelayerEngine W) Text
  mark_as job_id tx = do mark job_id tx; pure tx

module _ {W P : Type 0} where
  -- The rest of a failed attempt: the loop goes on by `next`, if there is one and time is left.
  pub after_failure :
      RelayerEngineConfig W P
      → Text
      → ℕ
      → Text
      → Option (Exec Text (RelayerEngine W) Text)
      → Exec Text (RelayerEngine W) Text
  after_failure cfg job_id deadline e next = do
    queued (record_failure job_id e)
    current ← get_job_or_null cfg job_id
    if is_submitted current then pure (codes "on-chain:" ++ job_id) else elim next [
      | none ↦ throw e
      | some again ↦ do room ← has_deadline_headroom cfg deadline; if room then again else throw e
    ]

  -- The loop with so many attempts left after this one.
  pub submit_from : RelayerEngineConfig W P → Text → P → ℕ → ℕ → Exec Text (RelayerEngine W) Text
  unfolding after_failure
  submit_from cfg job_id payload deadline zero =
      attempt (try_submit cfg job_id payload) (λ e. after_failure cfg job_id deadline e none)
  submit_from cfg job_id payload deadline (suc n) =
      let again = submit_from cfg job_id payload deadline n in
      attempt (try_submit cfg job_id payload)
        (λ e. after_failure cfg job_id deadline e (some again))

  pub submit_with_retry : RelayerEngineConfig W P → Text → P → ℕ → Exec Text (RelayerEngine W) Text
  unfolding submit_from
  submit_with_retry cfg job_id payload deadline =
      submit_from cfg job_id payload deadline (attempts_of cfg.max_attempts - 1)

  abbrev intent : RelayerEngineConfig W P → Text → P → OnChainJob → AcceptedJobEntry
  intent cfg job_id payload job = record {
    job_id = job_id;
    accepted_tx = none;
    phase = none;
    payload = cfg.serialize payload;
    deadline = job.deadline;
    fee = job.fee;
    accepted_at = cfg.now;
    attempts = 0;
    last_error = none;
  }

  -- acceptJob, and what the chain says of it after a failure.
  pub accept_or_reconcile : RelayerEngineConfig W P → Text → Exec Text (RelayerEngine W) Text
  accept_or_reconcile cfg job_id =
      attempt (call (cfg.chain.accept_job job_id))
        (λ e. do reconciled ← reconcile_acceptance cfg job_id; given_or_throw e reconciled)

  abbrev pub accept_saved : RelayerEngineConfig W P → Text → Exec Text (RelayerEngine W) Text
  accept_saved cfg job_id = accept_or_reconcile cfg job_id >>= mark_as job_id

  -- The intent is saved before the job is accepted.
  pub accept_with_intent :
      RelayerEngineConfig W P → Text → P → OnChainJob → Exec Text (RelayerEngine W) Text
  unfolding accept_or_reconcile
  accept_with_intent cfg job_id payload job = do
    queued (enqueue (intent cfg job_id payload job))
    accept_saved cfg job_id

  pub accept_matching :
      RelayerEngineConfig W P
      → Text
      → P
      → OnChainJob
      → Exec Text (RelayerEngine W) (Option (Accepted P))
  unfolding accept_with_intent
  accept_matching cfg job_id payload job =
      if not (same (to_lower (cfg.hash_payload payload)) (to_lower job.payload_hash))
      then throw (codes "Payload hash mismatch.")
      else do
        room ← has_deadline_headroom cfg job.deadline
        if not room then modify note_declined >> pure none else do
          call (cfg.chain.simulate_pool_withdraw payload)
          tx ← accept_with_intent cfg job_id payload job
          modify (count (λ c. record c { accepted = c.accepted + 1 }))
          pure (some (record { payload = payload; job = job; accepted_tx = tx }))

  abbrev pub accept_open :
      RelayerEngineConfig W P
      → Text
      → P
      → Option OnChainJob
      → Exec Text (RelayerEngine W) (Option (Accepted P))
  accept_open cfg job_id payload none = pure none
  accept_open cfg job_id payload (some job) = accept_matching cfg job_id payload job

  -- The first half of processPayload, up to the acceptance; `none` is a job that is declined.
  pub accept_payload :
      RelayerEngineConfig W P → EncryptedPayload → Exec Text (RelayerEngine W) (Option (Accepted P))
  unfolding accept_matching
  accept_payload cfg msg = do
    payload ← lift (cfg.decode msg.box msg.job_id)
    found ← call (cfg.chain.get_job msg.job_id)
    accept_open cfg msg.job_id payload (open_job found)

  -- The second half, for a job that is accepted.
  pub submit_accepted :
      RelayerEngineConfig W P
      → EncryptedPayload
      → Accepted P
      → Exec Text (RelayerEngine W) Submission
  unfolding remember_result submit_with_retry
  submit_accepted cfg msg a = do
    tx ← submit_with_retry cfg msg.job_id a.payload a.job.deadline
    modify (count (λ c. record c { submitted = c.submitted + 1 }))
    queued (resolve msg.job_id)
    modify (
        record_submission (record {
          job_id = msg.job_id;
          accepted_tx = a.accepted_tx;
          submitted_tx = tx;
          expected_fee = a.job.fee;
          submitted_at = cfg.now;
        }))
    notify_settled cfg msg.job_id JobResult.completed
    modify (remember_result cfg.now msg (record { accepted_tx = a.accepted_tx; submitted_tx = tx }))
    pure (record { accepted_tx = a.accepted_tx; submitted_tx = tx })

  -- What the catch block does: an outcome is owed only for a job that was accepted.
  abbrev pub report_failed :
      RelayerEngineConfig W P → Text → Text → Exec Text (RelayerEngine W) (Option Submission)
  report_failed cfg job_id e = do
    modify (note_rejected e)
    notify_settled cfg job_id JobResult.failed
    throw e

  abbrev pub settle :
      RelayerEngineConfig W P
      → EncryptedPayload
      → Option (Accepted P)
      → Exec Text (RelayerEngine W) (Option Submission)
  settle cfg msg none = pure none
  settle cfg msg (some a) =
      attempt (submit_accepted cfg msg a >>= λ r. pure (some r)) (report_failed cfg msg.job_id)

  abbrev pub reject : Text → Exec Text (RelayerEngine W) (Option (Accepted P))
  reject e = modify (note_rejected e) >> throw e

  abbrev pub deliver :
      RelayerEngineConfig W P → EncryptedPayload → Exec Text (RelayerEngine W) (Option Submission)
  deliver cfg msg = do accepted ← attempt (accept_payload cfg msg) reject; settle cfg msg accepted

  -- try deliver finally the job is no longer pending
  pub process_payload :
      RelayerEngineConfig W P → EncryptedPayload → Exec Text (RelayerEngine W) (Option Submission)
  unfolding accept_payload submit_accepted
  process_payload cfg msg = do
    modify (λ s. record s { pending_jobs = set (to_lower msg.job_id) cfg.now s.pending_jobs })
    result ← attempt (deliver cfg msg) (drop_job msg.job_id)
    modify (finish_job msg.job_id)
    pure result

  abbrev pub unless_kept :
      RelayerEngineConfig W P
      → EncryptedPayload
      → Option Submission
      → Exec Text (RelayerEngine W) (Option Submission)
  unless_kept cfg msg (some r) = pure (some r)
  unless_kept cfg msg none = modify (forget_key (key_of msg)) >> process_payload cfg msg

  pub handle_payload :
      RelayerEngineConfig W P → EncryptedPayload → Exec Text (RelayerEngine W) (Option Submission)
  unfolding kept_result process_payload
  handle_payload cfg msg = do
    modify (count (λ c. record c { payloads_seen = c.payloads_seen + 1 }))
    if not (same (to_lower msg.to) (to_lower cfg.x25519_public_key))
        then pure none
        else do kept ← gets (kept_result cfg.now msg); unless_kept cfg msg kept
