-- ===== src/Relayer/Hub.antt =====
-- RelayerHub of relayer/src/hub.ts: bids, assignments, outcomes, heartbeats, fail-over and pruning.
-- Sets and maps keep their order of insertion. The saving of the state and the delivery to
-- subscribers, which change nothing here, and the scores are left out.
pub mod Laws
pub mod Bids
use opauque_stellar.Base.{
  ℕ, ◌+◌, ◌-◌, ◌*◌, Text, Bool, true, false, ◌&&◌, not, Option, none, some, List, [], ◌∷◌, ◌++◌,
  length, any, find, keep, ltb, leb, ◌==◌, same, if◌then◌else◌, to_lower,
}
use opauque_stellar.Base.Dict.{get, set, delete}
use opauque_stellar.Relayer.Types.{JobResult, RelayerBid, BidEntry, EncryptedPayload}

abbrev pub heartbeat_miss_threshold_ms : ℕ
heartbeat_miss_threshold_ms = 45000

abbrev pub score_window_ms : ℕ
score_window_ms = 30 * 24 * 60 * 60 * 1000

abbrev pub bid_expiry_ms : ℕ
bid_expiry_ms = 17280 * 5000 + 60 * 60 * 1000

pub record OutcomeEntry : Type 0 where
  pub result : JobResult
  pub at : ℕ

pub record Assignment : Type 0 where
  pub operator : Text
  pub added_at : ℕ

pub record RelayerHubStats : Type 0 where
  pub adverts_seen : ℕ
  pub bids_seen : ℕ
  pub payloads_seen : ℕ
  pub outcomes_seen : ℕ
  pub heartbeats_seen : ℕ

pub record RelayerHub : Type 0 where
  pub stats : RelayerHubStats
  pub bids : List (Text × List BidEntry)
  pub outcomes : List (Text × List OutcomeEntry)
  pub known_operators : List Text
  pub last_heartbeat_at : List (Text × ℕ)
  pub assignments : List (Text × Assignment)

pub record FailoverEvent : Type 0 where
  pub job_id : Text
  pub old_operator : Text
  pub new_operator : Text

pub data RelayerMessage : Type 0 where
  advert : RelayerMessage
  bid : RelayerBid → RelayerMessage
  payload : EncryptedPayload → RelayerMessage
  outcome : Text → Text → JobResult → RelayerMessage
  heartbeat : Text → RelayerMessage

abbrev or_nil {ℓ} : {A : Type ℓ} → Option (List A) → List A
or_nil none = []
or_nil (some l) = l

abbrev add : Text → List Text → List Text
add t set = if any (λ u. same u t) set then set else set ++ t ∷ []

pub bids_for : Text → RelayerHub → List BidEntry
bids_for job_id h = or_nil (get (to_lower job_id) h.bids)

abbrev with_bid :
    ℕ → RelayerBid → List BidEntry → List (Text × List BidEntry) → List (Text × List BidEntry)
with_bid now b list bids =
    if any (λ c. same c.bid.operator b.operator) list
    then bids
    else set (to_lower b.job_id) (list ++ record { bid = b; added_at = now } ∷ []) bids

pub remember_bid : ℕ → RelayerBid → RelayerHub → RelayerHub
unfolding bids_for
remember_bid now b h = record h {
  bids = with_bid now b (bids_for b.job_id h) h.bids;
  known_operators = add b.operator h.known_operators;
}

pub record_outcome : Text → JobResult → ℕ → RelayerHub → RelayerHub
record_outcome operator result at h = record h {
  known_operators = add operator h.known_operators;
  outcomes =
      set operator (or_nil (get operator h.outcomes) ++ record { result = result; at = at } ∷ [])
        h.outcomes;
}

abbrev assign : ℕ → Text → Option BidEntry → RelayerHub → RelayerHub
assign now k none h = h
assign now k (some b) h = record h {
  assignments = set k (record { operator = b.bid.operator; added_at = now }) h.assignments;
}

-- The operator whose key a payload is sealed to, if it has bid for the job.
pub remember_assignment : ℕ → EncryptedPayload → RelayerHub → RelayerHub
unfolding bids_for
remember_assignment now p h =
    assign now (to_lower p.job_id)
      (find (λ b. same (to_lower b.bid.x25519_pk) (to_lower p.to)) (bids_for (to_lower p.job_id) h))
      h

pub record_heartbeat : Text → ℕ → RelayerHub → RelayerHub
record_heartbeat operator at h = record h {
  known_operators = add operator h.known_operators;
  last_heartbeat_at = set operator at h.last_heartbeat_at;
}

abbrev is_recent : ℕ → Option ℕ → Bool
is_recent now none = false
is_recent now (some last) = leb (now - last) heartbeat_miss_threshold_ms

pub is_node_alive : Text → ℕ → RelayerHub → Bool
is_node_alive operator now h = is_recent now (get operator h.last_heartbeat_at)

abbrev pub is_substitute : RelayerHub → ℕ → Text → BidEntry → Bool
is_substitute h now operator b =
    not (same b.bid.operator operator) && is_node_alive b.bid.operator now h

-- One turn of the loop: what becomes of the job's assignment, and the event.
abbrev hand_over :
    ℕ → Text → Assignment → Option BidEntry → RelayerHub → List FailoverEvent × RelayerHub
hand_over now k a none h = ([], h)
hand_over now k a (some b) h = (
  record { job_id = k; old_operator = a.operator; new_operator = b.bid.operator } ∷ [],
  record h {
    assignments = set k (record { operator = b.bid.operator; added_at = now }) h.assignments;
  },
)

pub check_assignment : ℕ → Text → Assignment → RelayerHub → List FailoverEvent × RelayerHub
unfolding is_node_alive bids_for
check_assignment now k a h =
    if is_node_alive a.operator now h
    then ([], h)
    else hand_over now k a (find (is_substitute h now a.operator) (bids_for k h)) h

pub check_assignments : ℕ → List (Text × Assignment) → RelayerHub → List FailoverEvent × RelayerHub
unfolding check_assignment
check_assignments now [] h = ([], h)
check_assignments now ((k, a) ∷ m) h =
    let first = check_assignment now k a h in
    let rest = check_assignments now m first.1 in (first.0 ++ rest.0, rest.1)

pub run_failover_check : ℕ → RelayerHub → List FailoverEvent × RelayerHub
unfolding check_assignments
run_failover_check now h = check_assignments now h.assignments h

-- Keeps the fresh part of each list, and drops a key that has none.
pub keep_fresh {ℓ} : {A : Type ℓ} → (A → Bool) → List (Text × List A) → List (Text × List A)
keep_fresh p [] = []
keep_fresh p ((k, list) ∷ m) = elim (keep p list) [
  | [] ↦ keep_fresh p m
  | x ∷ fresh ↦ (k, x ∷ fresh) ∷ keep_fresh p m
]

pub prune : ℕ → RelayerHub → RelayerHub
unfolding keep_fresh
prune now h = record h {
  bids = keep_fresh (λ b. ltb (now - b.added_at) bid_expiry_ms) h.bids;
  assignments = keep (λ a. ltb (now - a.1.added_at) bid_expiry_ms) h.assignments;
  outcomes = keep_fresh (λ o. leb (now - score_window_ms) o.at) h.outcomes;
}

-- The handler of the transport's messages.
pub receive : ℕ → RelayerMessage → RelayerHub → RelayerHub
unfolding remember_bid remember_assignment record_outcome record_heartbeat
receive now advert h = record h {
  stats = record h.stats { adverts_seen = h.stats.adverts_seen + 1 };
}
receive now (bid b) h =
    let g = remember_bid now b h in
    record g { stats = record g.stats { bids_seen = g.stats.bids_seen + 1 } }
receive now (payload p) h =
    let g = remember_assignment now p h in
    record g { stats = record g.stats { payloads_seen = g.stats.payloads_seen + 1 } }
receive now (outcome job_id operator result) h =
    let g = record_outcome operator result now h in
    record g {
      assignments = delete (to_lower job_id) g.assignments;
      bids = delete (to_lower job_id) g.bids;
      stats = record g.stats { outcomes_seen = g.stats.outcomes_seen + 1 };
    }
receive now (heartbeat operator) h =
    let g = record_heartbeat operator now h in
    record g { stats = record g.stats { heartbeats_seen = g.stats.heartbeats_seen + 1 } }
