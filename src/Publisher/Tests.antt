-- ===== src/Publisher/Tests.antt =====
-- The theorems about merging and the inbox at concrete leaves.
use opauque_stellar.Base.{
  ℕ, ◌+◌, ◌≤◌, ◌≡◌, Text, codes, false, none, List, [], ◌∷◌, ◌++◌, length, arith,
}
use opauque_stellar.Publisher.Types.{LeafCommitment}
use opauque_stellar.Publisher.Merge.{merge_leaves}
use opauque_stellar.Publisher.Merge.Laws.{IsInjective, ids, merge_leaves-appends}
use opauque_stellar.Publisher.Store.{MemoryStore, write_inbox}
use opauque_stellar.Publisher.Store.Laws.{write_inbox-bound}

abbrev leaf : Text → Text → LeafCommitment
leaf id value = record {
  id = id;
  leaf = value;
  schema_id = codes "schema";
  attestation_uid = codes "uid";
  holder_signature = codes "sig";
  tx_hash = none;
  ledger = none;
  submitted_at = codes "now";
}

abbrev incoming : List LeafCommitment
incoming =
    leaf (codes "a") (codes "0x1")
    ∷ leaf (codes "b") (codes "0x2")
    ∷ leaf (codes "a") (codes "0x1")
    ∷ []

nil-IsInjective : IsInjective []
nil-IsInjective = record { unique_ids = tt; unique_leaves = tt }

merge_leaves-appends_example :
    IsInjective (merge_leaves [] incoming).leaves
    × (new : List LeafCommitment) × ((merge_leaves [] incoming).leaves ≡ [] ++ new)
    × ((merge_leaves [] incoming).accepted_ids ≡ ids new)
    × (length new
          + (merge_leaves [] incoming).duplicate_resubmissions
          + length (merge_leaves [] incoming).identity_collisions
        ≡ 3)
merge_leaves-appends_example = merge_leaves-appends [] incoming nil-IsInjective

abbrev small_store : MemoryStore
small_store = record {
  state = none;
  max_inbox_size = 1;
  inbox = leaf (codes "a") (codes "0x1") ∷ [];
  archived = [];
  quarantined = [];
}

full_inbox :
    (length (write_inbox (leaf (codes "b") (codes "0x2")) small_store).1.inbox ≤ 1)
    × ((write_inbox (leaf (codes "b") (codes "0x2")) small_store).0 ≡ false → ◌≡◌ {A = ℕ} 1 1)
full_inbox = write_inbox-bound (leaf (codes "b") (codes "0x2")) small_store (omega arith)
