-- ===== src/Publisher/Tick.antt =====
-- runPublisherTick of publisher/src/engine.ts over the store in memory. The chain is an abstract
-- state `W` behind the adapter's calls; `verify_holder` stands for verifyHolderSignature, which
-- rests on a library for secp256k1, and `root_of` and `dataset_hash` for buildRoot and
-- computeDatasetHash over the leaf strings.
pub mod Laws
pub mod Tests
use opauque_stellar.Base.{
  ℕ, ◌+◌, ◌≡◌, Text, Bool, true, false, not, ◌&&◌, ◌||◌, Option, none, some, List, [], ◌∷◌, ◌++◌,
  map, length, ltb, leb, same, ◌==◌, if◌then◌else◌, to_lower,
}
use opauque_stellar.Base.Exec.{Result, ok, err, Exec, pure, throw, lift, gets, modify, ◌>>=◌, ◌>>◌}
use opauque_stellar.Publisher.Types.{
  LeafCommitment, PublisherState, OnChainAttestation, PublisherMetrics,
}
use opauque_stellar.Publisher.Merge.{Merged, merge_leaves}
use opauque_stellar.Publisher.Store.{MemoryStore, save, read_inbox, archive_inbox, inbox_size}

pub data Error : Type 0 where
  chain_failed overfull : Error

pub record PostedRoot : Type 0 where
  pub hash : Text
  pub ledger : Option ℕ

pub record ChainAdapter (W : Type 0) : Type 0 where
  pub current_root : Exec Error W (Option ℕ)
  pub post_root : ℕ → ℕ → Exec Error W PostedRoot
  pub get_attestation : Text → Exec Error W (Option OnChainAttestation)
  pub current_ledger : Exec Error W ℕ

pub record PublisherTickConfig (W : Type 0) : Type 0 where
  pub verifier_id : Text
  pub adapter : ChainAdapter W
  pub has_data_dir : Bool
  pub now : Text
  pub min_leaves_to_publish : Option ℕ
  pub validate : LeafCommitment → Result (List Text) LeafCommitment
  pub verify_holder : LeafCommitment → Text → Bool
  pub build_root : List Text → Result Error ℕ
  pub dataset_hash : ℕ → List Text → ℕ

pub record World (W : Type 0) : Type 0 where
  pub store : MemoryStore
  pub chain : W
  pub metrics : PublisherMetrics
  pub manifests : List (ℕ × List Text)

pub record PublisherTickResult : Type 0 where
  pub verifier_id : Text
  pub leaf_count : ℕ
  pub newly_accepted : ℕ
  pub local_root : Option ℕ
  pub on_chain_root : Option ℕ
  pub dataset_hash : Option ℕ
  pub published : Bool
  pub tx_hash : Option Text

pub init_state : Text → Text → PublisherState
init_state verifier_id now = record {
  verifier_id = verifier_id;
  leaves = [];
  last_published_root = none;
  last_published_ledger = none;
  last_dataset_hash = none;
  updated_at = now;
}

abbrev pub leaf_texts : List LeafCommitment → List Text
leaf_texts = map (λ l. l.leaf)

abbrev id_texts : List LeafCommitment → List Text
id_texts = map (λ l. l.id)

-- The conjunction of isValidLeaf, for what the chain says of the leaf's attestation.
pub is_active :
    (LeafCommitment → Text → Bool) → ℕ → LeafCommitment → Option OnChainAttestation → Bool
is_active verify ledger l none = false
is_active verify ledger l (some a) =
    a.revocation_ledger == 0
    && ((a.expiration_ledger == 0 || ltb ledger a.expiration_ledger)
        && (same (to_lower a.schema_id) (to_lower l.schema_id) && verify l a.stealth_address_hash))

abbrev pub cons_if : Bool → LeafCommitment → List LeafCommitment → List LeafCommitment
cons_if true l ls = l ∷ ls
cons_if false l ls = ls

pub same_root : ℕ → Option ℕ → Bool
same_root r none = false
same_root r (some q) = r == q

module _ {W : Type 0} where
  abbrev pub call : {A : Type 0} → Exec Error W A → Exec Error (World W) A
  call m s = ((m s.chain).0, record s { chain = (m s.chain).1 })

  pub is_valid_leaf : PublisherTickConfig W → ℕ → LeafCommitment → Exec Error (World W) Bool
  unfolding is_active
  is_valid_leaf cfg ledger l = do
    attestation ← call (cfg.adapter.get_attestation l.attestation_uid)
    pure (is_active cfg.verify_holder ledger l attestation)

  -- for (const leaf of leaves) if (await isValidLeaf(leaf)) out.push(leaf)
  pub valid_leaves :
      PublisherTickConfig W → ℕ → List LeafCommitment → Exec Error (World W) (List LeafCommitment)
  unfolding is_valid_leaf
  valid_leaves cfg ledger [] = pure []
  valid_leaves cfg ledger (l ∷ ls) = do
    ok_leaf ← is_valid_leaf cfg ledger l
    rest ← valid_leaves cfg ledger ls
    pure (cons_if ok_leaf l rest)

  abbrev or_init : PublisherTickConfig W → Option PublisherState → PublisherState
  or_init cfg none = init_state cfg.verifier_id cfg.now
  or_init cfg (some p) = p

  pub load_state : PublisherTickConfig W → World W → PublisherState
  unfolding init_state
  load_state cfg s = or_init cfg s.store.state

  pub take_inbox : PublisherTickConfig W → Exec Error (World W) (List LeafCommitment)
  take_inbox cfg s = (
    ok (read_inbox cfg.validate cfg.now s.store).0,
    record s { store = (read_inbox cfg.validate cfg.now s.store).1 },
  )

  pub count_merge : Merged → World W → World W
  count_merge m s = record s {
    metrics = record s.metrics {
      current_inbox_depth = inbox_size s.store;
      current_leaf_count = length m.leaves;
      total_duplicate_resubmissions =
          s.metrics.total_duplicate_resubmissions + m.duplicate_resubmissions;
      total_identity_collisions =
          s.metrics.total_identity_collisions + length m.identity_collisions;
    };
  }

  -- cfg.store.save(state); cfg.store.archiveInbox(processedIds)
  pub settle_store : PublisherState → List Text → World W → World W
  settle_store state ids s = record s { store = archive_inbox ids (save state s.store) }

  pub note_post : PublisherTickConfig W → World W → World W
  note_post cfg s = record s {
    metrics = record s.metrics {
      total_published = s.metrics.total_published + 1;
      last_publish_at = some cfg.now;
    };
  }

  pub write_root_manifest : PublisherTickConfig W → ℕ → List Text → World W → World W
  write_root_manifest cfg root leaves s =
      if cfg.has_data_dir then record s { manifests = s.manifests ++ (root, leaves) ∷ [] } else s

  abbrev pub min_leaves : PublisherTickConfig W → ℕ
  min_leaves cfg = elim cfg.min_leaves_to_publish [ none ↦ 1 | some n ↦ n ]

  -- The early return, below the least number of leaves.
  pub skip :
      PublisherTickConfig W
      → PublisherState
      → Merged
      → List Text
      → Exec Error (World W) PublisherTickResult
  unfolding settle_store
  skip cfg state merged processed = do
    modify (settle_store (record state { leaves = merged.leaves; updated_at = cfg.now }) processed)
    on_chain ← call cfg.adapter.current_root
    pure (record {
      verifier_id = cfg.verifier_id;
      leaf_count = length merged.leaves;
      newly_accepted = length merged.accepted_ids;
      local_root = none;
      on_chain_root = on_chain;
      dataset_hash = none;
      published = false;
      tx_hash = none;
    })

  pub result_of :
      PublisherTickConfig W → Merged → ℕ → ℕ → Option ℕ → Bool → Option Text → PublisherTickResult
  result_of cfg merged local hash on_chain published tx = record {
    verifier_id = cfg.verifier_id;
    leaf_count = length merged.leaves;
    newly_accepted = length merged.accepted_ids;
    local_root = some local;
    on_chain_root = on_chain;
    dataset_hash = some hash;
    published = published;
    tx_hash = tx;
  }

  -- The last part, once the local root is known: post on mismatch, then save and archive.
  pub post_if_new :
      PublisherTickConfig W
      → PublisherState
      → Merged
      → List Text
      → ℕ
      → Option ℕ
      → Exec Error (World W) PublisherTickResult
  unfolding settle_store note_post write_root_manifest result_of same_root
  post_if_new cfg state merged processed local on_chain =
      let hash = cfg.dataset_hash local (leaf_texts merged.leaves) in
      let merged_state = record state { leaves = merged.leaves; updated_at = cfg.now } in
      if same_root local on_chain
      then (do
        modify (settle_store merged_state processed)
        pure (result_of cfg merged local hash on_chain false none))
      else do
        modify (write_root_manifest cfg local (leaf_texts merged.leaves))
        posted ← call (cfg.adapter.post_root local hash)
        modify (note_post cfg)
        modify (
            settle_store
              (record merged_state {
                last_published_root = some local;
                last_published_ledger = posted.ledger;
                last_dataset_hash = some hash;
              })
              processed)
        pure (result_of cfg merged local hash on_chain true (some posted.hash))

  pub publish_merged :
      PublisherTickConfig W
      → PublisherState
      → Merged
      → Bool
      → List Text
      → Exec Error (World W) PublisherTickResult
  unfolding skip post_if_new
  publish_merged cfg state merged pruned processed =
      if ltb (length merged.leaves) (min_leaves cfg) && not pruned
      then skip cfg state merged processed
      else do
        local ← lift (cfg.build_root (leaf_texts merged.leaves))
        on_chain ← call cfg.adapter.current_root
        post_if_new cfg state merged processed local on_chain

  pub run_publisher_tick : PublisherTickConfig W → Exec Error (World W) PublisherTickResult
  unfolding load_state take_inbox valid_leaves count_merge publish_merged
  run_publisher_tick cfg = do
    state ← gets (load_state cfg)
    inbox ← take_inbox cfg
    ledger ← call cfg.adapter.current_ledger
    active ← valid_leaves cfg ledger state.leaves
    eligible ← valid_leaves cfg ledger inbox
    modify (count_merge (merge_leaves active eligible))
    publish_merged cfg state (merge_leaves active eligible)
        (ltb (length active) (length state.leaves)) (id_texts inbox)
