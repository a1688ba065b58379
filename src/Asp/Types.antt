-- ===== src/Asp/Types.antt =====
-- asp/src/types.ts. Commitments and roots, 32-byte hexadecimal strings in the source, are the
-- numbers that they spell, so their comparison is that of numbers.
use opauque_stellar.Base.{ℕ, Text, Option, List}

pub record Deposit : Type 0 where
  pub index : ℕ
  pub commitment : ℕ
  pub value : ℕ
  pub scope : ℕ
  pub ledger : ℕ

pub data Verdict : Type 0 where
  approve reject defer : Verdict

pub record DecisionRecord : Type 0 where
  pub deposit_index : ℕ
  pub policy : Text
  pub verdict : Verdict
  pub reason : Text
  pub timestamp : Text

-- A list that the stored state may lack is empty, and a cursor that it may lack is 0, as the tick
-- reads them. `last_index` is none for -1. A leaf that was never written is a hole of the array.
pub record PoolState : Type 0 where
  pub pool_id : Text
  pub scope : ℕ
  pub approved_indices : List ℕ
  pub rejected_indices : List ℕ
  pub deferred_indices : List ℕ
  pub last_index : Option ℕ
  pub last_ledger : ℕ
  pub decisions : List DecisionRecord
  pub state_event_cursor : ℕ
  pub state_leaves : Option (List (Option ℕ))

pub record StateTreeSnapshot : Type 0 where
  pub leaves : List ℕ
  pub event_count : ℕ
  pub max_index : Option ℕ
  pub events : Option (List (ℕ × ℕ))
  pub cursor : Option ℕ

pub record SetManifest : Type 0 where
  pub pool_id : Text
  pub root : ℕ
  pub version : ℕ
  pub levels : ℕ
  pub labels : List ℕ
  pub indices : List ℕ
  pub generated_at : Text
