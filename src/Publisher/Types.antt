-- ===== src/Publisher/Types.antt =====
-- publisher/src/types.ts. Roots and dataset hashes are the numbers that their strings spell.
use opauque_stellar.Base.{ℕ, Text, Option, List}

pub record LeafCommitment : Type 0 where
  pub id : Text
  pub leaf : Text
  pub schema_id : Text
  pub attestation_uid : Text
  pub holder_signature : Text
  pub tx_hash : Option Text
  pub ledger : Option ℕ
  pub submitted_at : Text

pub record PublisherState : Type 0 where
  pub verifier_id : Text
  pub leaves : List LeafCommitment
  pub last_published_root : Option ℕ
  pub last_published_ledger : Option ℕ
  pub last_dataset_hash : Option ℕ
  pub updated_at : Text

pub record OnChainAttestation : Type 0 where
  pub schema_id : Text
  pub stealth_address_hash : Text
  pub expiration_ledger : ℕ
  pub revocation_ledger : ℕ

pub record PublisherMetrics : Type 0 where
  pub total_published : ℕ
  pub current_inbox_depth : ℕ
  pub current_leaf_count : ℕ
  pub last_publish_at : Option Text
  pub total_duplicate_resubmissions : ℕ
  pub total_identity_collisions : ℕ
