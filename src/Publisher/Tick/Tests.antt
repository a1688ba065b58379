-- ===== src/Publisher/Tick/Tests.antt =====
-- The theorem about ticks at a chain that is only its published root.
use opauque_stellar.Base.{ℕ, refl, Text, codes, true, false, Option, none, some, [], ◌∷◌, length}
use opauque_stellar.Base.Exec.{ok, Ends, IfOk, pure}
use opauque_stellar.Publisher.Types.{OnChainAttestation}
use opauque_stellar.Publisher.Merge.Laws.{IsInjective}
use opauque_stellar.Publisher.Tick.{
  ChainAdapter, PublisherTickConfig, World, load_state, init_state, run_publisher_tick,
}
use opauque_stellar.Publisher.Tick.Laws.{IsFaithful, Published, run_publisher_tick-Published}

abbrev attestation : OnChainAttestation
attestation = record {
  schema_id = codes "schema";
  stealth_address_hash = codes "hash";
  expiration_ledger = 0;
  revocation_ledger = 0;
}

abbrev root_chain : ChainAdapter (Option ℕ)
root_chain = record {
  current_root = λ w. (ok w, w);
  post_root = λ r h w. (ok (record { hash = codes "tx"; ledger = none }), some r);
  get_attestation = λ uid. pure (some attestation);
  current_ledger = pure 5;
}

abbrev config : PublisherTickConfig (Option ℕ)
config = record {
  verifier_id = codes "verifier";
  adapter = root_chain;
  has_data_dir = false;
  now = codes "now";
  min_leaves_to_publish = none;
  validate = λ l. ok l;
  verify_holder = λ l h. true;
  build_root = λ ls. ok (length ls);
  dataset_hash = λ r ls. r;
}

abbrev world : World (Option ℕ)
world = record {
  store = record {
    state = none;
    max_inbox_size = 10;
    inbox =
        record {
          id = codes "a";
          leaf = codes "0x1";
          schema_id = codes "schema";
          attestation_uid = codes "uid";
          holder_signature = codes "sig";
          tx_hash = none;
          ledger = none;
          submitted_at = codes "now";
        }
        ∷ [];
    archived = [];
    quarantined = [];
  };
  chain = none;
  metrics = record {
    total_published = 0;
    current_inbox_depth = 0;
    current_leaf_count = 0;
    last_publish_at = none;
    total_duplicate_resubmissions = 0;
    total_identity_collisions = 0;
  };
  manifests = [];
}

abbrev published_root : Option ℕ → Option ℕ
published_root w = w

abbrev attested : Option ℕ → Text → Option OnChainAttestation
attested w uid = some attestation

abbrev height : Option ℕ → ℕ
height w = 5

root_chain-IsFaithful : IsFaithful published_root attested height root_chain
root_chain-IsFaithful = record {
  reads_root = λ w. (refl, (refl, refl));
  reads_height = λ w. (refl, (refl, refl));
  reads_attestation = λ uid w. (refl, (refl, refl));
  posts_root = λ r h w. (refl, refl);
}

empty-IsInjective : IsInjective (load_state config world).leaves
unfolding load_state init_state
empty-IsInjective = record { unique_ids = tt; unique_leaves = tt }

run_publisher_tick-Published_example :
    Ends
      (IfOk (Published published_root attested height config root_chain-IsFaithful 5 world))
      (run_publisher_tick config world)
run_publisher_tick-Published_example =
    run_publisher_tick-Published published_root attested height config root_chain-IsFaithful world
      empty-IsInjective
