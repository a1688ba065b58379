-- ===== src/Relayer/Engine/Tests.antt =====
-- The theorems about deliveries and recovery at a chain that is the job it shows as accepted by
-- this operator, if there is one.
use opauque_stellar.Base.{◌≡◌, inr, refl, Text, codes, true, Option, none, some, [], to_lower}
use opauque_stellar.Base.Exec.{ok, err, Ends, pure}
use opauque_stellar.Relayer.Types.{
  JobStatus, OnChainJob, AcceptedJobEntry, EncryptedPayload, RelayerChainAdapter,
}
use opauque_stellar.Relayer.Queue.{AcceptedJobQueue, enqueue, resolve, lookup}
use opauque_stellar.Relayer.Queue.Laws.{enqueue-Saved, enqueue-Keeps}
use opauque_stellar.Relayer.Engine.{RelayerEngineConfig, RelayerEngine, is_submitted}
use opauque_stellar.Relayer.Engine.Payload.{handle_payload}
use opauque_stellar.Relayer.Engine.Payload.Safety.{IsFaithful, Safe}
use opauque_stellar.Relayer.Engine.Payload.Delivery.{handle_payload-Safe}
use opauque_stellar.Relayer.Engine.Resume.{Outcome, needs_accept, resume_entry}
use opauque_stellar.Relayer.Engine.Resume.Unreachable.{resume_entry_unreachable}
use opauque_stellar.Relayer.Engine.Resume.Laws.{Kept, resume_entry-Kept}

abbrev job : OnChainJob
job = record {
  exists = true;
  status = JobStatus.opened;
  fee = 5;
  deadline = 1000;
  payload_hash = [];
  accepted_relayer = none;
}

abbrev chain : RelayerChainAdapter (Option Text) Text
chain = record {
  get_job = λ j. pure (some job);
  get_relayer = λ o. pure none;
  latest_ledger = pure 10;
  simulate_pool_withdraw = λ p. pure tt;
  accept_job = λ j w. (ok (codes "t1"), some (to_lower j));
  submit_pool_withdraw = λ j p w. (ok (codes "t2"), none);
}

abbrev config : RelayerEngineConfig (Option Text) Text
config = record {
  operator = codes "G1";
  x25519_public_key = codes "pk";
  endpoint = none;
  min_fee = 1;
  chain = chain;
  deadline_margin_ledgers = none;
  on_settled = none;
  max_attempts = none;
  max_job_lifetime_ledgers = none;
  now = 7;
  decode = λ box j. ok box;
  hash_payload = λ p. [];
  serialize = λ p. p;
  parse = λ t. ok t;
  show = λ n. codes "5";
}

abbrev Bonded : Option Text → Text → Type 0
Bonded w k = w ≡ some k

no_bond : {C : Type 0} (k : Text) → none ≡ some k → C
no_bond k h = absurd cc

same_bond : (j k : Text) → some j ≡ some k → k ≡ j
same_bond j k h = cc

config-IsFaithful : IsFaithful Bonded config
unfolding is_submitted
config-IsFaithful = record {
  reads_job = λ j w. (λ k b. b, λ h b. absurd cc);
  reads_ledger = λ w k b. b;
  simulates = λ p w k b. b;
  accepts = λ j w k b. inr (same_bond (to_lower j) k b);
  submits = λ j p w. (λ k b. no_bond k b, λ b. no_bond (to_lower j) b);
  settles = λ hook h. absurd cc;
}

abbrev new_queue : AcceptedJobQueue
new_queue = record { entries = []; loaded = true; store = some none }

abbrev engine : Option AcceptedJobQueue → RelayerEngine (Option Text)
engine q = record {
  chain = none;
  queue = q;
  ledger = none;
  stats = record {
    jobs_seen = 0;
    bids_sent = 0;
    payloads_seen = 0;
    accepted = 0;
    submitted = 0;
    rejected = 0;
    deadline_declined = 0;
    last_error = none;
  };
  bids = [];
  idempotency = [];
  pending_jobs = [];
}

abbrev message : EncryptedPayload
message = record {
  job_id = codes "0xA";
  to = codes "PK";
  box = codes "box";
  idempotency_key = none;
}

handle_payload-Safe_example :
    Ends
      (λ r t. Safe Bonded t.chain t.queue)
      (handle_payload config message (engine (some new_queue)))
handle_payload-Safe_example =
    handle_payload-Safe Bonded config config-IsFaithful message (engine (some new_queue))
      (new_queue, refl, (none, refl), λ k b. no_bond k b)

abbrev entry : AcceptedJobEntry
entry = record {
  job_id = codes "0xA";
  accepted_tx = none;
  phase = none;
  payload = codes "box";
  deadline = 1000;
  fee = 5;
  accepted_at = 7;
  attempts = 0;
  last_error = none;
}

resume_entry-Kept_example :
    Ends (Kept Bonded) (resume_entry config entry (engine (some (enqueue entry new_queue))))
resume_entry-Kept_example =
    resume_entry-Kept Bonded config config-IsFaithful entry (enqueue entry new_queue)
      (engine (some (enqueue entry new_queue))) refl (enqueue-Saved entry new_queue (none, refl))
      (
        enqueue entry new_queue,
        refl,
        (enqueue-Keeps entry new_queue (none, refl)).0,
        λ k b. no_bond k b,
      )

-- The same configuration where the chain cannot be read.
abbrev unreachable : RelayerEngineConfig (Option Text) Text
unreachable = record config { chain = record chain { get_job = λ j w. (err (codes "down"), w) } }

abbrev saved_engine : RelayerEngine (Option Text)
saved_engine = engine (some (enqueue entry new_queue))

resume_entry_unreachable_example :
    ((resume_entry unreachable entry saved_engine).0 ≡ ok Outcome.abandoned)
    × ((resume_entry unreachable entry saved_engine).1.queue
        ≡ some (resolve (codes "0xA") (enqueue entry new_queue)))
    × (lookup (codes "0xA") (resolve (codes "0xA") (enqueue entry new_queue)) ≡ none)
unfolding needs_accept
resume_entry_unreachable_example =
    resume_entry_unreachable unreachable entry (enqueue entry new_queue) saved_engine (codes "down")
      refl refl refl
