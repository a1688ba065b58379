-- ===== src/Relayer/Types.antt =====
-- The types of relayer/src/engine.ts, job-queue.ts, messages.ts and reconciler.ts. A payload is kept
-- in the queue as the text that serializePoolWithdrawPayload makes of it. The fee of
-- an advert is its text; other fees and stakes are numbers.
use opauque_stellar.Base.{ℕ, Text, Bool, Option}
use opauque_stellar.Base.Exec.{Exec}

pub data JobStatus : Type 0 where
  opened accepted submitted slashed canceled : JobStatus

pub data Phase : Type 0 where
  accepting accepted : Phase

pub data JobResult : Type 0 where
  completed failed : JobResult

pub record OnChainJob : Type 0 where
  pub exists : Bool
  pub status : JobStatus
  pub fee : ℕ
  pub deadline : ℕ
  pub payload_hash : Text
  pub accepted_relayer : Option Text

pub record OnChainRelayer : Type 0 where
  pub registered : Bool
  pub x25519_pk : Text
  pub endpoint : Text
  pub free_stake : ℕ

pub record AcceptedJobEntry : Type 0 where
  pub job_id : Text
  pub accepted_tx : Option Text
  pub phase : Option Phase
  pub payload : Text
  pub deadline : ℕ
  pub fee : ℕ
  pub accepted_at : ℕ
  pub attempts : ℕ
  pub last_error : Option Text

pub record JobLedgerEntry : Type 0 where
  pub job_id : Text
  pub accepted_tx : Text
  pub submitted_tx : Text
  pub expected_fee : ℕ
  pub submitted_at : ℕ

pub record JobAdvert : Type 0 where
  pub job_id : Text
  pub fee : Text
  pub deadline : ℕ
  pub payload_hash : Text

pub record RelayerBid : Type 0 where
  pub job_id : Text
  pub operator : Text
  pub x25519_pk : Text
  pub endpoint : Option Text
  pub free_stake : ℕ

pub record BidEntry : Type 0 where
  pub bid : RelayerBid
  pub added_at : ℕ

pub record EncryptedPayload : Type 0 where
  pub job_id : Text
  pub to : Text
  pub box : Text
  pub idempotency_key : Option Text

pub record Submission : Type 0 where
  pub accepted_tx : Text
  pub submitted_tx : Text

pub record IdempotencyEntry : Type 0 where
  pub result : Submission
  pub expires_at : ℕ

pub record RelayerEngineStats : Type 0 where
  pub jobs_seen : ℕ
  pub bids_sent : ℕ
  pub payloads_seen : ℕ
  pub accepted : ℕ
  pub submitted : ℕ
  pub rejected : ℕ
  pub deadline_declined : ℕ
  pub last_error : Option Text

-- The chain behind the adapter, for a chain state `W` and payloads `P`; an error is its message.
pub record RelayerChainAdapter (W P : Type 0) : Type 0 where
  pub get_job : Text → Exec Text W (Option OnChainJob)
  pub get_relayer : Text → Exec Text W (Option OnChainRelayer)
  pub latest_ledger : Exec Text W ℕ
  pub simulate_pool_withdraw : P → Exec Text W (Unit {0})
  pub accept_job : Text → Exec Text W Text
  pub submit_pool_withdraw : Text → P → Exec Text W Text
