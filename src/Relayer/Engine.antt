-- ===== src/Relayer/Engine.antt =====
-- RelayerEngine of relayer/src/engine.ts: the state, adverts, and what every handler uses. Payload
-- has the delivery of a payload and Resume the recovery on boot. `W` is the chain behind the adapter
-- and the outcome hook, `P` the payloads. `decode` stands for openBox and decodePoolWithdrawPayload,
-- `hash_payload`, `serialize` and `parse` for the functions on payloads, `show` for toString, and `now`
-- for the clock, which is read once in a handler.
pub mod Payload
pub mod Resume
pub mod Tests
use opauque_stellar.Base.{
  ℕ, zero, suc, ◌+◌, ◌-◌, ◌*◌, ◌≤◌, Text, codes, Bool, true, false, ◌&&◌, ◌||◌, not, Option, none,
  some, List, [], ◌∷◌, ◌++◌, length, any, keep, ltb, leb, ◌==◌, same, if◌then◌else◌, to_lower, max,
}
use opauque_stellar.Base.Dict.{get, set, delete}
use opauque_stellar.Base.Exec.{
  attempt, Result, ok, err, Exec, pure, throw, lift, gets, modify, ◌>>=◌, ◌>>◌,
}
use opauque_stellar.Relayer.Types.{
  JobStatus, JobResult, OnChainJob, OnChainRelayer, AcceptedJobEntry, JobLedgerEntry, JobAdvert,
  RelayerBid, BidEntry, IdempotencyEntry, RelayerEngineStats, RelayerChainAdapter,
}
use opauque_stellar.Relayer.Ledger.{JobLedger, record_entry}
use opauque_stellar.Relayer.Queue.{AcceptedJobQueue, mark_accepted}

pub record RelayerEngineConfig (W P : Type 0) : Type 0 where
  pub operator : Text
  pub x25519_public_key : Text
  pub endpoint : Option Text
  pub min_fee : ℕ
  pub chain : RelayerChainAdapter W P
  pub deadline_margin_ledgers : Option ℕ
  pub on_settled : Option (Text → JobResult → Exec Text W (Unit {0}))
  pub max_attempts : Option ℕ
  pub max_job_lifetime_ledgers : Option ℕ
  pub now : ℕ
  pub decode : Text → Text → Result Text P
  pub hash_payload : P → Text
  pub serialize : P → Text
  pub parse : Text → Result Text P
  pub show : ℕ → Text

-- The engine, the chain, and the queue and the ledger the engine is given.
pub record RelayerEngine (W : Type 0) : Type 0 where
  pub chain : W
  pub queue : Option AcceptedJobQueue
  pub ledger : Option JobLedger
  pub stats : RelayerEngineStats
  pub bids : List (Text × List BidEntry)
  pub idempotency : List (Text × IdempotencyEntry)
  pub pending_jobs : List (Text × ℕ)

abbrev pub or_else {ℓ} : {A : Type ℓ} → A → Option A → A
or_else d none = d
or_else d (some a) = a

pub idempotency_ttl_ms : ℕ
idempotency_ttl_ms = 24 * 60 * 60 * 1000

pub bid_expiry_ms : Option ℕ → ℕ
bid_expiry_ms lifetime = max 5000 (or_else 17280 lifetime * 5000 + 60 * 60 * 1000)

-- The number of attempts, at least one.
pub attempts_of : Option ℕ → ℕ
attempts_of (some (suc n)) = suc n
attempts_of _ = 3

pub normalize_hex : Text → Text
normalize_hex s = elim (to_lower s) [
  | a ∷ b ∷ t ↦ if a == b'0' && b == b'x' then t else a ∷ b ∷ t
  | t ↦ t
]

pub is_submitted : Option OnChainJob → Bool
is_submitted (some j) = elim j.status [ JobStatus.submitted ↦ true | _ ↦ false ]
is_submitted none = false

abbrev pub open_job : Option OnChainJob → Option OnChainJob
open_job none = none
open_job (some j) =
    if j.exists then elim j.status [ JobStatus.opened ↦ some j | _ ↦ none ] else none

-- !acceptedRelayer || acceptedRelayer === operator; an empty name is no name.
abbrev is_ours_or_unknown : Text → Option Text → Bool
is_ours_or_unknown operator none = true
is_ours_or_unknown operator (some []) = true
is_ours_or_unknown operator (some r) = same r operator

pub is_accepted_by : Text → Option OnChainJob → Bool
is_accepted_by operator none = false
is_accepted_by operator (some j) = elim j.status [
  | JobStatus.accepted ↦ is_ours_or_unknown operator j.accepted_relayer
  | _ ↦ false
]

abbrev on_queue :
    (AcceptedJobQueue → AcceptedJobQueue) → Option AcceptedJobQueue → Option AcceptedJobQueue
on_queue f none = none
on_queue f (some q) = some (f q)

abbrev marked :
    AcceptedJobQueue
    → Result Text AcceptedJobQueue
    → Result Text (Unit {0}) × Option AcceptedJobQueue
marked q (ok r) = (ok tt, some r)
marked q (err e) = (err e, some q)

abbrev mark_in :
    Text → Text → Option AcceptedJobQueue → Result Text (Unit {0}) × Option AcceptedJobQueue
mark_in job_id tx none = (ok tt, none)
mark_in job_id tx (some q) = marked q (mark_accepted job_id tx q)

abbrev remember :
    ℕ → RelayerBid → List BidEntry → List (Text × List BidEntry) → List (Text × List BidEntry)
remember now bid list bids =
    if any (λ b. same b.bid.operator bid.operator) list
    then bids
    else set (to_lower bid.job_id) (list ++ record { bid = bid; added_at = now } ∷ []) bids

abbrev prune_bids : ℕ → ℕ → List (Text × List BidEntry) → List (Text × List BidEntry)
prune_bids now expiry [] = []
prune_bids now expiry ((k, list) ∷ m) = elim (keep (λ b. ltb (now - b.added_at) expiry) list) [
  | [] ↦ prune_bids now expiry m
  | b ∷ fresh ↦ (k, b ∷ fresh) ∷ prune_bids now expiry m
]

abbrev on_ledger : JobLedgerEntry → Option JobLedger → Option JobLedger
on_ledger e none = none
on_ledger e (some l) = some (record_entry e l)

module _ {W : Type 0} where
  abbrev pub call : {A : Type 0} → Exec Text W A → Exec Text (RelayerEngine W) A
  call m s = ((m s.chain).0, record s { chain = (m s.chain).1 })

  -- this.cfg.acceptedJobs?.f(...)
  abbrev pub queued : (AcceptedJobQueue → AcceptedJobQueue) → Exec Text (RelayerEngine W) (Unit {0})
  queued f s = (ok tt, record s { queue = on_queue f s.queue })

  -- this.cfg.acceptedJobs?.markAccepted(jobId, acceptedTx)
  pub mark : Text → Text → Exec Text (RelayerEngine W) (Unit {0})
  unfolding mark_accepted
  mark job_id tx s =
      ((mark_in job_id tx s.queue).0, record s { queue = (mark_in job_id tx s.queue).1 })

  abbrev pub count : (RelayerEngineStats → RelayerEngineStats) → RelayerEngine W → RelayerEngine W
  count f s = record s { stats = f s.stats }

  pub note_error : Text → RelayerEngine W → RelayerEngine W
  note_error e = count (λ c. record c { last_error = some e })

  pub note_rejected : Text → RelayerEngine W → RelayerEngine W
  note_rejected e = count (λ c. record c { rejected = c.rejected + 1; last_error = some e })

  pub note_declined : RelayerEngine W → RelayerEngine W
  note_declined = count (λ c. record c { deadline_declined = c.deadline_declined + 1 })

  -- this.cfg.jobLedger?.record(entry)
  pub record_submission : JobLedgerEntry → RelayerEngine W → RelayerEngine W
  record_submission e s = record s { ledger = on_ledger e s.ledger }

  pub remember_bid : ℕ → RelayerBid → RelayerEngine W → RelayerEngine W
  remember_bid now bid s = record s {
    bids = remember now bid (or_else [] (get (to_lower bid.job_id) s.bids)) s.bids;
  }

  pub prune : Option ℕ → ℕ → RelayerEngine W → RelayerEngine W
  unfolding bid_expiry_ms
  prune lifetime now s = record s {
    bids = prune_bids now (bid_expiry_ms lifetime) s.bids;
    idempotency = keep (λ e. ltb now e.1.expires_at) s.idempotency;
  }

-- An advert against the job on the chain: fee.toString(), deadline and payload hash.
pub agrees : (ℕ → Text) → JobAdvert → OnChainJob → Bool
agrees show a j =
    same (show j.fee) a.fee
    && (j.deadline == a.deadline && same (to_lower j.payload_hash) (to_lower a.payload_hash))

module _ {W P : Type 0} where
  abbrev margin : RelayerEngineConfig W P → ℕ
  margin cfg = or_else 30 cfg.deadline_margin_ledgers

  -- deadline - latestLedger >= margin, without the negative numbers.
  pub has_room : RelayerEngineConfig W P → ℕ → ℕ → Bool
  has_room cfg deadline latest = leb (latest + margin cfg) deadline

  pub has_deadline_headroom : RelayerEngineConfig W P → ℕ → Exec Text (RelayerEngine W) Bool
  unfolding has_room
  has_deadline_headroom cfg deadline =
      attempt (do latest ← call cfg.chain.latest_ledger; pure (has_room cfg deadline latest))
        (λ e. pure true)

  -- this.cfg.chain.getJob(jobId).catch(() => null)
  pub get_job_or_null :
      RelayerEngineConfig W P → Text → Exec Text (RelayerEngine W) (Option OnChainJob)
  get_job_or_null cfg job_id = attempt (call (cfg.chain.get_job job_id)) (λ e. pure none)

  pub notify_settled :
      RelayerEngineConfig W P → Text → JobResult → Exec Text (RelayerEngine W) (Unit {0})
  unfolding note_error
  notify_settled cfg job_id result = elim cfg.on_settled [
    | none ↦ pure tt
    | some hook ↦ attempt (call (hook job_id result)) (λ e. modify (note_error e))
  ]

  pub reconcile_acceptance :
      RelayerEngineConfig W P → Text → Exec Text (RelayerEngine W) (Option Text)
  unfolding get_job_or_null is_accepted_by
  reconcile_acceptance cfg job_id = do
    current ← get_job_or_null cfg job_id
    pure (
        if is_accepted_by cfg.operator current
        then some (codes "on-chain-accept:" ++ job_id)
        else none)

  -- The job read before an attempt: a job that is already submitted is done.
  pub try_submit : RelayerEngineConfig W P → Text → P → Exec Text (RelayerEngine W) Text
  unfolding is_submitted
  try_submit cfg job_id payload = do
    current ← call (cfg.chain.get_job job_id)
    if is_submitted current
        then pure (codes "on-chain:" ++ job_id)
        else call (cfg.chain.submit_pool_withdraw job_id payload)

  pub can_bid : RelayerEngineConfig W P → OnChainRelayer → Bool
  unfolding normalize_hex
  can_bid cfg r =
      r.registered && same (normalize_hex r.x25519_pk) (normalize_hex cfg.x25519_public_key)

  pub make_bid : RelayerEngineConfig W P → JobAdvert → OnChainRelayer → RelayerBid
  make_bid cfg a r = record {
    job_id = a.job_id;
    operator = cfg.operator;
    x25519_pk = cfg.x25519_public_key;
    endpoint = cfg.endpoint;
    free_stake = r.free_stake;
  }

  pub bid_on :
      RelayerEngineConfig W P
      → JobAdvert
      → OnChainRelayer
      → OnChainJob
      → Exec Text (RelayerEngine W) (Option RelayerBid)
  unfolding has_room note_declined agrees make_bid remember_bid
  bid_on cfg advert relayer job =
      if ltb job.fee cfg.min_fee || ltb relayer.free_stake job.fee then pure none else do
        latest ← call cfg.chain.latest_ledger
        if not (has_room cfg job.deadline latest)
            then modify note_declined >> pure none
            else (if not (agrees cfg.show advert job) then pure none else do
              modify (remember_bid cfg.now (make_bid cfg advert relayer))
              modify (count (λ c. record c { bids_sent = c.bids_sent + 1 }))
              pure (some (make_bid cfg advert relayer)))

  abbrev consider :
      RelayerEngineConfig W P
      → JobAdvert
      → OnChainRelayer
      → Exec Text (RelayerEngine W) (Option RelayerBid)
  consider cfg advert relayer = if not (can_bid cfg relayer) then pure none else do
    found ← call (cfg.chain.get_job advert.job_id)
    elim (open_job found) [ none ↦ pure none | some job ↦ bid_on cfg advert relayer job ]

  pub handle_advert :
      RelayerEngineConfig W P → JobAdvert → Exec Text (RelayerEngine W) (Option RelayerBid)
  unfolding can_bid bid_on note_rejected
  handle_advert cfg advert = do
    modify (count (λ c. record c { jobs_seen = c.jobs_seen + 1 }))
    attempt
        (do
          relayer ← call (cfg.chain.get_relayer cfg.operator)
          elim relayer [ none ↦ pure none | some r ↦ consider cfg advert r ])
        (λ e. modify (note_rejected e) >> pure none)
