-- ===== src/Relayer/Engine/Resume.antt =====
-- resumeAcceptedJobs of relayer/src/engine.ts: finishing what was accepted before a restart. A
-- stored entry that does not parse fails inside the try block, as a submission does.
pub mod Laws
pub mod Unreachable
use opauque_stellar.Base.{
  ℕ, zero, suc, ◌+◌, ◌-◌, Text, codes, Bool, true, false, ◌||◌, not, Option, none, some, List, [],
  ◌∷◌, ◌++◌, if◌then◌else◌, to_lower,
}
use opauque_stellar.Base.Exec.{
  attempt, Result, ok, err, Exec, pure, throw, lift, gets, modify, ◌>>=◌, ◌>>◌,
}
use opauque_stellar.Relayer.Types.{
  JobStatus, JobResult, Phase, OnChainJob, AcceptedJobEntry, JobLedgerEntry, RelayerEngineStats,
  RelayerChainAdapter,
}
use opauque_stellar.Relayer.Queue.{
  AcceptedJobQueue, resolve, record_failure, hydrate, lookup, pending,
}
use opauque_stellar.Relayer.Engine.{
  RelayerEngineConfig, RelayerEngine, call, queued, mark, count, or_else, note_error,
  record_submission, is_submitted, is_accepted_by, has_deadline_headroom, get_job_or_null,
  notify_settled,
}
use opauque_stellar.Relayer.Engine.Payload.{submit_with_retry}

pub data Outcome : Type 0 where
  submitted abandoned failed : Outcome

-- Where the first part leaves an entry: done with an outcome, or to be submitted.
pub data Step : Type 0 where
  stop : Outcome → Step
  go : Option Text → Step

pub record ResumeReport : Type 0 where
  pub submitted : List Text
  pub abandoned : List Text
  pub failed : List Text

-- entry.phase === "accepting" || !entry.acceptedTx
unfoldable pub needs_accept : AcceptedJobEntry → Bool
needs_accept e =
    (elim e.phase [ some Phase.accepting ↦ true | _ ↦ false ])
    || (elim e.accepted_tx [ none ↦ true | some [] ↦ true | _ ↦ false ])

pub is_open : Option OnChainJob → Bool
is_open none = false
is_open (some j) = elim j.status [ JobStatus.opened ↦ true | _ ↦ false ]

abbrev tx_in : Text → Option AcceptedJobQueue → Option Text
tx_in job_id none = none
tx_in job_id (some q) = elim (lookup job_id q) [ none ↦ none | some e ↦ e.accepted_tx ]

pub add_outcome : Text → Outcome → ResumeReport → ResumeReport
add_outcome job_id Outcome.submitted r = record r { submitted = r.submitted ++ job_id ∷ [] }
add_outcome job_id Outcome.abandoned r = record r { abandoned = r.abandoned ++ job_id ∷ [] }
add_outcome job_id Outcome.failed r = record r { failed = r.failed ++ job_id ∷ [] }

abbrev entries_of : Option AcceptedJobQueue → List AcceptedJobEntry
entries_of none = []
entries_of (some q) = pending q

module _ {W : Type 0} where
  abbrev pub drop_entry : AcceptedJobEntry → Exec Text (RelayerEngine W) Outcome
  drop_entry e = queued (resolve e.job_id) >> pure Outcome.abandoned

  abbrev pub stay_failed : AcceptedJobEntry → Text → Exec Text (RelayerEngine W) Step
  stay_failed e message = queued (record_failure e.job_id message) >> pure (stop Outcome.failed)

  abbrev pub keep_failed : Text → Exec Text (RelayerEngine W) Outcome
  keep_failed message = modify (note_error message) >> pure Outcome.failed

module _ {W P : Type 0} where
  abbrev pub ledger_entry :
      RelayerEngineConfig W P → AcceptedJobEntry → Option Text → Text → JobLedgerEntry
  ledger_entry cfg e accepted tx = record {
    job_id = e.job_id;
    accepted_tx = or_else (codes "on-chain-accept:" ++ e.job_id) accepted;
    submitted_tx = tx;
    expected_fee = e.fee;
    submitted_at = cfg.now;
  }

  -- The chain already has the submission.
  pub settle_submitted :
      RelayerEngineConfig W P → AcceptedJobEntry → Exec Text (RelayerEngine W) Outcome
  settle_submitted cfg e = do
    queued (resolve e.job_id)
    modify (record_submission (ledger_entry cfg e e.accepted_tx (codes "on-chain:" ++ e.job_id)))
    notify_settled cfg e.job_id JobResult.completed
    pure Outcome.submitted

  abbrev pub accept_again :
      RelayerEngineConfig W P → AcceptedJobEntry → Exec Text (RelayerEngine W) Step
  accept_again cfg e =
      (call (cfg.chain.accept_job e.job_id) >>= λ tx. mark e.job_id tx)
      >> (gets (λ s. go (tx_in e.job_id s.queue)))

  -- An entry whose acceptance is not known to have landed.
  pub accept_intent :
      RelayerEngineConfig W P
      → AcceptedJobEntry
      → Option OnChainJob
      → Exec Text (RelayerEngine W) Step
  unfolding is_open lookup
  accept_intent cfg e current =
      if is_accepted_by cfg.operator current
      then mark e.job_id (codes "on-chain-accept:" ++ e.job_id)
        >> gets (λ s. go (tx_in e.job_id s.queue))
      else (if is_open current
          then attempt (accept_again cfg e) (stay_failed e)
          else (drop_entry e >>= λ o. pure (stop o)))

  abbrev pub first_part :
      RelayerEngineConfig W P
      → AcceptedJobEntry
      → Option OnChainJob
      → Exec Text (RelayerEngine W) Step
  first_part cfg e current =
      if needs_accept e then accept_intent cfg e current else pure (go e.accepted_tx)

  abbrev pub settle_entry :
      RelayerEngineConfig W P
      → AcceptedJobEntry
      → Option Text
      → Text
      → Exec Text (RelayerEngine W) Outcome
  settle_entry cfg e accepted tx = do
    queued (resolve e.job_id)
    modify (record_submission (ledger_entry cfg e accepted tx))
    modify (count (λ c. record c { submitted = c.submitted + 1 }))
    notify_settled cfg e.job_id JobResult.completed
    pure Outcome.submitted

  abbrev pub submit_parsed :
      RelayerEngineConfig W P → AcceptedJobEntry → P → Exec Text (RelayerEngine W) Text
  submit_parsed cfg e payload = submit_with_retry cfg e.job_id payload e.deadline

  abbrev pub submit_entry :
      RelayerEngineConfig W P → AcceptedJobEntry → Option Text → Exec Text (RelayerEngine W) Outcome
  submit_entry cfg e accepted =
      (lift (cfg.parse e.payload) >>= submit_parsed cfg e) >>= settle_entry cfg e accepted

  abbrev pub with_room :
      RelayerEngineConfig W P
      → AcceptedJobEntry
      → Option Text
      → Bool
      → Exec Text (RelayerEngine W) Outcome
  with_room cfg e accepted room =
      if room then attempt (submit_entry cfg e accepted) keep_failed else drop_entry e

  abbrev pub second_part :
      RelayerEngineConfig W P → AcceptedJobEntry → Step → Exec Text (RelayerEngine W) Outcome
  second_part cfg e (stop o) = pure o
  second_part cfg e (go accepted) =
      has_deadline_headroom cfg e.deadline >>= with_room cfg e accepted

  abbrev pub resume_from :
      RelayerEngineConfig W P
      → AcceptedJobEntry
      → Option OnChainJob
      → Exec Text (RelayerEngine W) Outcome
  resume_from cfg e current =
      if is_submitted current
      then settle_submitted cfg e
      else first_part cfg e current >>= second_part cfg e

  -- The body of the loop, for one entry.
  pub resume_entry :
      RelayerEngineConfig W P → AcceptedJobEntry → Exec Text (RelayerEngine W) Outcome
  unfolding settle_submitted accept_intent needs_accept
  resume_entry cfg e = get_job_or_null cfg e.job_id >>= resume_from cfg e

  pub resume_all :
      RelayerEngineConfig W P
      → List AcceptedJobEntry
      → ResumeReport
      → Exec Text (RelayerEngine W) ResumeReport
  unfolding resume_entry add_outcome
  resume_all cfg [] r = pure r
  resume_all cfg (e ∷ es) r =
      resume_entry cfg e >>= λ o. resume_all cfg es (add_outcome e.job_id o r)

  pub resume_accepted_jobs : RelayerEngineConfig W P → Exec Text (RelayerEngine W) ResumeReport
  unfolding resume_all
  resume_accepted_jobs cfg = do
    queued hydrate
    entries ← gets (λ s. entries_of s.queue)
    resume_all cfg entries (record { submitted = []; abandoned = []; failed = [] })
