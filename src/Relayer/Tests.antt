-- ===== src/Relayer/Tests.antt =====
-- The theorems about the rate limiter, the reconciler and the hub at concrete inputs.
use opauque_stellar.Base.{
  ◌+◌, ◌*◌, ◌≤◌, ◌≡◌, refl, Text, codes, true, Option, List, none, [], ◌∷◌, All, arith,
}
use opauque_stellar.Base.Dict.{get, get-nil}
use opauque_stellar.Base.Exec.{err, Exec}
use opauque_stellar.Relayer.Types.{OnChainJob, BidEntry, JobLedgerEntry}
use opauque_stellar.Relayer.RateLimit.{RateLimiter, Bucket}
use opauque_stellar.Relayer.RateLimit.Laws.{admitted, admitted-le}
use opauque_stellar.Relayer.Ledger.{hydrate_ledger}
use opauque_stellar.Relayer.Reconciler.{PayoutReconciler, reconcile, verify_on_boot}
use opauque_stellar.Relayer.Reconciler.Laws.{reconcile-counts, verify_on_boot-keeps}
use opauque_stellar.Relayer.Hub.{RelayerHub, RelayerMessage, run_failover_check, receive}
use opauque_stellar.Relayer.Hub.Bids.{HasOneBid, receive-HasOneBid}
use opauque_stellar.Relayer.Hub.Laws.{IsJustified, run_failover_check-IsJustified}

abbrev limiter : RateLimiter
limiter = record {
  buckets = [];
  window_ms = 60000;
  max_requests = 120;
  burst_size = 20;
  last_cleanup = 0;
}

abbrev full_bucket : Bucket
full_bucket = record { tokens = 1200000; last_refill = 7 }

admitted-le_example :
    (admitted limiter (0 ∷ 500 ∷ []) full_bucket).0 * 60000
      + (admitted limiter (0 ∷ 500 ∷ []) full_bucket).1.tokens
    ≤ 1200000 + 500 * 120
admitted-le_example = admitted-le limiter (0 ∷ 500 ∷ []) full_bucket (omega arith)

-- A chain that cannot be reached.
abbrev unreachable : Text → Exec Text (Unit {0}) (Option OnChainJob)
unreachable job_id w = (err (codes "down"), w)

abbrev submitted_job : JobLedgerEntry
submitted_job = record {
  job_id = codes "0xA";
  accepted_tx = codes "t1";
  submitted_tx = codes "t2";
  expected_fee = 5;
  submitted_at = 100;
}

abbrev reconciler : PayoutReconciler (Unit {0})
reconciler = record {
  chain = tt;
  ledger = record { entries = (codes "0xa", submitted_job) ∷ []; loaded = true; store = none };
  last_report = none;
  run_count = 0;
}

all_counted :
    (reconcile unreachable 200 reconciler).0.clean_count
      + (reconcile unreachable 200 reconciler).0.discrepancy_count
      + (reconcile unreachable 200 reconciler).0.not_found_count
    ≡ (reconcile unreachable 200 reconciler).0.total_checked
all_counted = reconcile-counts unreachable 200 reconciler

verify_on_boot-keeps_example :
    get (codes "0xa") (verify_on_boot unreachable 200 reconciler).1.ledger.entries
    ≡ get (codes "0xa") (hydrate_ledger reconciler.ledger).entries
verify_on_boot-keeps_example =
    verify_on_boot-keeps unreachable (codes "0xa") (λ j w h. refl) 200 reconciler

abbrev bid_by : Text → BidEntry
bid_by operator = record {
  bid = record {
    job_id = codes "0xa";
    operator = operator;
    x25519_pk = codes "pk";
    endpoint = none;
    free_stake = 10;
  };
  added_at = 0;
}

abbrev hub : RelayerHub
hub = record {
  stats = record {
    adverts_seen = 0;
    bids_seen = 0;
    payloads_seen = 0;
    outcomes_seen = 0;
    heartbeats_seen = 0;
  };
  bids = (codes "0xa", bid_by (codes "G1") ∷ bid_by (codes "G2") ∷ []) ∷ [];
  outcomes = [];
  known_operators = [];
  last_heartbeat_at = (codes "G2", 90000) ∷ [];
  assignments = (codes "0xa", record { operator = codes "G1"; added_at = 0 }) ∷ [];
}

run_failover_check-IsJustified_example :
    All (IsJustified 100000 hub) (run_failover_check 100000 hub).0
run_failover_check-IsJustified_example = run_failover_check-IsJustified 100000 hub

no_bids-HasOneBid : HasOneBid []
no_bids-HasOneBid k bs e = absurd (cc (get-nil {V = List BidEntry} k))

abbrev empty_hub : RelayerHub
empty_hub = record hub { bids = [] }

receive-HasOneBid_example :
    HasOneBid (receive 5 (RelayerMessage.bid (bid_by (codes "G1")).bid) empty_hub).bids
receive-HasOneBid_example =
    receive-HasOneBid 5 (RelayerMessage.bid (bid_by (codes "G1")).bid) empty_hub no_bids-HasOneBid
