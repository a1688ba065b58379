-- ===== src/Asp/Tick.antt =====
-- asp/src/engine.ts: one tick of the provider. The chain is an abstract state `W` behind the
-- adapter's calls, each of which may throw and may change `W`; file writes are taken to succeed.
pub mod Verdicts
pub mod Publication
pub mod Deferral
pub mod Tests
use opauque_stellar.Base.{
  ℕ, zero, suc, ◌+◌, ◌≡◌, Text, Bool, true, false, Option, none, some, List, [], ◌∷◌, ◌++◌, map,
  length, keep, max, leb, ltb, ◌==◌, ◌&&◌, ◌||◌, if◌then◌else◌, any,
}
use opauque_stellar.Base.Dict.{get, set}
use opauque_stellar.Base.Exec.{Result, ok, err, Exec, pure, throw, lift, gets, modify, ◌>>=◌, ◌>>◌}
use opauque_stellar.Asp.Types.{
  Deposit, Verdict, approve, reject, defer, DecisionRecord, PoolState, StateTreeSnapshot,
  SetManifest,
}
use opauque_stellar.Asp.Policy.{Policy, PolicyEngine, Decision, evaluate, decide, mem}
use opauque_stellar.Asp.Guard.{ReorgGuard, Check, continuous, rewind, validate, commit}
use opauque_stellar.Asp.Monitor.{PublicationMonitor, PublicationAlert, record_publication, check}
use opauque_stellar.Asp.Dataset.{
  Error, chain_failed, overfull, not_a_number, AssociationSet, create, add_all, root_of, manifest,
  compute_dataset_hash,
}
use opauque_stellar.Merkle.{tree_depth, insert, Insert, inserted, tree_full, root}

-- The calls of a ChainAdapter, the optional ones together.
pub record StateApi (W : Type 0) : Type 0 where
  pub read_state_leaves : ℕ → Exec Error W StateTreeSnapshot
  pub current_state_root : Exec Error W (Option ℕ)
  pub post_state_root : ℕ → ℕ → Exec Error W (Unit {0})

pub record ChainAdapter (W : Type 0) : Type 0 where
  pub read_deposits : Option ℕ → ℕ → Exec Error W (List Deposit)
  pub current_asp_root : Exec Error W (Option ℕ)
  pub post_asp_root : ℕ → ℕ → Exec Error W (Unit {0})
  pub latest_ledger : Exec Error W ℕ
  pub state_api : Option (StateApi W)

-- A policy engine stamps its decisions by a clock of its own, whose reading goes with it.
pub data Screener : Type 0 where
  single : Policy → Screener
  engine : PolicyEngine → Text → Screener

pub record TickConfig (W : Type 0) : Type 0 where
  pub pool_id : Text
  pub scope : ℕ
  pub adapter : ChainAdapter W
  pub screener : Screener
  pub has_data_dir : Bool
  pub confirmations : ℕ
  pub now : Text
  pub now_ms : ℕ
  pub poseidon : ℕ → ℕ → ℕ
  pub sha256 : List ℕ → ℕ

-- What a tick reads and changes: the store, the chain, the two guards and the manifests on disk.
pub record World (W : Type 0) : Type 0 where
  pub store : List (Text × PoolState)
  pub chain : W
  pub guard : Option ReorgGuard
  pub monitor : Option PublicationMonitor
  pub written : List SetManifest

pub record StateTree : Type 0 where
  pub leaf_count : ℕ
  pub root : Option ℕ
  pub on_chain : Option ℕ
  pub published : Bool

pub record TickResult : Type 0 where
  pub pool_id : Text
  pub approved_count : ℕ
  pub newly_approved : ℕ
  pub rejected_count : ℕ
  pub newly_rejected : ℕ
  pub deferred_count : ℕ
  pub local_root : ℕ
  pub on_chain_root : Option ℕ
  pub published : Bool
  pub state_tree : Option StateTree
  pub halted_for_reorg : Bool
  pub stale_alert : Option PublicationAlert

pub init_state : Text → ℕ → PoolState
init_state pool_id scope = record {
  pool_id = pool_id;
  scope = scope;
  approved_indices = [];
  rejected_indices = [];
  deferred_indices = [];
  last_index = none;
  last_ledger = 0;
  decisions = [];
  state_event_cursor = 0;
  state_leaves = none;
}

-- xs.sort((a, b) => a - b)
pub insert_sorted : ℕ → List ℕ → List ℕ
insert_sorted a [] = a ∷ []
insert_sorted a (b ∷ bs) = if leb a b then a ∷ b ∷ bs else b ∷ insert_sorted a bs

pub sort : List ℕ → List ℕ
unfolding insert_sorted
sort [] = []
sort (a ∷ as') = insert_sorted a (sort as')

-- Deposits below the confirmation depth: d.ledger <= latest - confirmations + 1.
pub is_confirmed : ℕ → ℕ → Deposit → Bool
is_confirmed confirmations latest d = leb (d.ledger + confirmations) (latest + 1)

pub is_nil {ℓ} : {A : Type ℓ} → List A → Bool
is_nil [] = true
is_nil (x ∷ xs) = false

pub max_index : Option ℕ → ℕ → Option ℕ
max_index none n = some n
max_index (some m) n = some (max m n)

-- What the screening loop carries: the state, `nextDeferred` and the two counters.
pub record Screening : Type 0 where
  pub state : PoolState
  pub next_deferred : List ℕ
  pub newly_approved : ℕ
  pub newly_rejected : ℕ

pub evaluate_with : Screener → Text → Deposit → Verdict × List Decision
unfolding evaluate decide
evaluate_with (single p) now d = (p.screen d, decide now d p ∷ [])
evaluate_with (engine e clock) now d = evaluate e clock d

pub record_of : Deposit → Decision → DecisionRecord
record_of d r = record {
  deposit_index = d.index;
  policy = r.policy;
  verdict = r.verdict;
  reason = r.reason;
  timestamp = r.timestamp;
}

-- nextDeferred.add(index)
pub add_index : ℕ → List ℕ → List ℕ
unfolding mem
add_index n xs = if mem n xs then xs else xs ++ n ∷ []

-- The branches on the verdict, with the two cursors.
pub settle : Verdict → Deposit → List DecisionRecord → Screening → Screening
unfolding max_index add_index
settle approve d rs a = record a {
  state = record a.state {
    approved_indices = a.state.approved_indices ++ d.index ∷ [];
    decisions = a.state.decisions ++ rs;
    last_index = max_index a.state.last_index d.index;
    last_ledger = max a.state.last_ledger d.ledger;
  };
  newly_approved = a.newly_approved + 1;
}
settle reject d rs a = record a {
  state = record a.state {
    rejected_indices = a.state.rejected_indices ++ d.index ∷ [];
    decisions = a.state.decisions ++ rs;
    last_index = max_index a.state.last_index d.index;
    last_ledger = max a.state.last_ledger d.ledger;
  };
  newly_rejected = a.newly_rejected + 1;
}
settle defer d rs a = record a {
  state = record a.state {
    decisions = a.state.decisions ++ rs;
    last_ledger = max a.state.last_ledger d.ledger;
  };
  next_deferred = add_index d.index a.next_deferred;
}

-- The body of the loop: a deposit with a terminal decision is passed over.
pub screen_one : Screener → Text → Deposit → Screening → Screening
unfolding mem evaluate_with record_of settle
screen_one sc now d a =
    if mem d.index a.state.approved_indices || mem d.index a.state.rejected_indices
    then a
    else settle (evaluate_with sc now d).0 d (map (record_of d) (evaluate_with sc now d).1) a

pub screen_all : Screener → Text → List Deposit → Screening → Screening
unfolding screen_one
screen_all sc now [] a = a
screen_all sc now (d ∷ ds) a = screen_all sc now ds (screen_one sc now d a)

-- The whole of step 1 after the reads: the loop, then the two sorts.
pub screen : Screener → Text → List Deposit → PoolState → Screening
unfolding screen_all sort
screen sc now ds state =
    let a =
      screen_all sc now ds
        (record { state = state; next_deferred = []; newly_approved = 0; newly_rejected = 0 }) in
    record a {
      state = record a.state {
        rejected_indices = sort a.state.rejected_indices;
        deferred_indices = sort a.next_deferred;
      };
    }

pub max_ledger : List Deposit → ℕ
max_ledger [] = 0
max_ledger (d ∷ ds) = max d.ledger (max_ledger ds)

-- accumulated[index] = leaf, on an array that grows with holes.
pub put_leaf : List (Option ℕ) → ℕ → ℕ → List (Option ℕ)
put_leaf [] zero leaf = some leaf ∷ []
put_leaf [] (suc i) leaf = none ∷ put_leaf [] i leaf
put_leaf (x ∷ xs) zero leaf = some leaf ∷ xs
put_leaf (x ∷ xs) (suc i) leaf = x ∷ put_leaf xs i leaf

pub put_leaves : List (Option ℕ) → List (ℕ × ℕ) → List (Option ℕ)
unfolding put_leaf
put_leaves leaves [] = leaves
put_leaves leaves ((index, leaf) ∷ events) = put_leaves (put_leaf leaves index leaf) events

abbrev or_nil {ℓ} : {A : Type ℓ} → Option (List A) → List A
or_nil none = []
or_nil (some xs) = xs

-- `state.stateLeaves` after a snapshot.
pub accumulate : PoolState → StateTreeSnapshot → Option (List (Option ℕ))
unfolding put_leaves
accumulate state snapshot = elim snapshot.events [
  | some events ↦ some (put_leaves (or_nil state.state_leaves) events)
  | none ↦
      if state.state_event_cursor == 0 then some (map some snapshot.leaves) else state.state_leaves
]

pub absorb : PoolState → StateTreeSnapshot → PoolState
unfolding accumulate
absorb state snapshot = record state {
  state_leaves = accumulate state snapshot;
  state_event_cursor = elim snapshot.cursor [ none ↦ state.state_event_cursor | some c ↦ c ];
}

-- BigInt(leaf) throws on a hole.
pub leaf_values : List (Option ℕ) → Result Error (List ℕ)
leaf_values [] = ok []
leaf_values (none ∷ xs) = err not_a_number
leaf_values (some x ∷ xs) = elim (leaf_values xs) [ ok ys ↦ ok (x ∷ ys) | err e ↦ err e ]

pub same_root : ℕ → Option ℕ → Bool
same_root r none = false
same_root r (some q) = r == q

-- With deferred deposits the read starts over from the first index.
pub read_after : PoolState → Option ℕ
unfolding is_nil
read_after state = if is_nil state.deferred_indices then state.last_index else none

abbrev leaves_to_publish : PoolState → StateTreeSnapshot → List (Option ℕ)
leaves_to_publish state snapshot = elim state.state_leaves [
  | none ↦ map some snapshot.leaves
  | some xs ↦ xs
]

abbrev inserted_rest : (List ℕ → Result Error (List ℕ)) → Insert → Result Error (List ℕ)
inserted_rest f (inserted leaves _) = f leaves
inserted_rest f tree_full = err overfull

-- for (const leaf of leaves) tree.insert(leaf), on a tree that holds the second list.
pub insert_all : List ℕ → List ℕ → Result Error (List ℕ)
insert_all [] tree = ok tree
insert_all (l ∷ ls) tree = inserted_rest (insert_all ls) (insert tree_depth tree l)

module _ {W : Type 0} where
  -- A call of the adapter.
  abbrev pub call : {A : Type 0} → Exec Error W A → Exec Error (World W) A
  call m s = ((m s.chain).0, record s { chain = (m s.chain).1 })

  pub confirmed_deposits : ChainAdapter W → List Deposit → ℕ → Exec Error (World W) (List Deposit)
  unfolding is_confirmed is_nil
  confirmed_deposits adapter deposits confirmations =
      if leb confirmations 1 || is_nil deposits then pure deposits else do
        latest ← call adapter.latest_ledger
        pure (keep (is_confirmed confirmations latest) deposits)

  -- cfg.store.load(poolId) ?? initState(...)
  pub load_state : TickConfig W → World W → PoolState
  unfolding init_state
  load_state cfg s = elim (get cfg.pool_id s.store) [
    | none ↦ init_state cfg.pool_id cfg.scope
    | some state ↦ state
  ]

  pub save_state : PoolState → Exec Error (World W) (Unit {0})
  save_state state = modify λ s. record s { store = set state.pool_id state s.store }

  abbrev set_guard : ReorgGuard → World W → World W
  set_guard g s = record s { guard = some g }

  -- Step 3: whether the tick halts. `validate` moves the guard on every answer.
  pub reorg_check : ℕ → List Deposit → Exec Error (World W) Bool
  unfolding is_nil max_ledger
  reorg_check last_ledger deposits s = elim s.guard [
    | none ↦ (ok false, s)
    | some g ↦ if is_nil deposits then (ok false, s) else (elim (validate g last_ledger).1 [
      | rewind _ ↦ (ok true, set_guard (validate g last_ledger).0 s)
      | continuous ↦
          (ok false, set_guard (commit (validate g last_ledger).0 (max_ledger deposits)) s)
    ])
  ]

  pub write_manifest : TickConfig W → SetManifest → World W → World W
  write_manifest cfg m s =
      if cfg.has_data_dir then record s { written = s.written ++ m ∷ [] } else s

  pub note_publication : TickConfig W → ℕ → ℕ → World W → World W
  note_publication cfg root ledger s = elim s.monitor [
    | none ↦ s
    | some m ↦ record s { monitor = some (record_publication m cfg.now_ms root ledger) }
  ]

  -- Step 4: publish on mismatch.
  pub publish : TickConfig W → AssociationSet → PoolState → Option ℕ → Exec Error (World W) Bool
  unfolding same_root is_nil write_manifest note_publication
  publish cfg aset state on_chain =
      let local = root_of cfg.poseidon aset in
      if is_nil aset.labels || same_root local on_chain then pure false else do
        modify (write_manifest cfg (manifest cfg.poseidon aset cfg.pool_id cfg.now))
        call (cfg.adapter.post_asp_root local (compute_dataset_hash cfg.sha256 local aset.labels))
        modify (note_publication cfg local state.last_ledger)
        pure true

  -- Step 5.
  pub stale_check : TickConfig W → World W → Option PublicationAlert
  stale_check cfg s = elim s.monitor [ none ↦ none | some m ↦ check m cfg.now_ms ]

  -- Post the state root on mismatch.
  pub post_if_new :
      TickConfig W → StateApi W → ℕ → List ℕ → ℕ → Option ℕ → Exec Error (World W) StateTree
  unfolding same_root
  post_if_new cfg api leaf_count values local on_chain =
      if same_root local on_chain
      then pure (record {
        leaf_count = leaf_count;
        root = some local;
        on_chain = on_chain;
        published = false;
      })
      else do
        call (api.post_state_root local (compute_dataset_hash cfg.sha256 local values))
        pure (record {
          leaf_count = leaf_count;
          root = some local;
          on_chain = on_chain;
          published = true;
        })

  -- The part of the tick on the state tree, for an adapter that has its calls.
  pub publish_state_root :
      TickConfig W → StateApi W → ℕ → List (Option ℕ) → Exec Error (World W) StateTree
  unfolding leaf_values insert_all post_if_new is_nil
  publish_state_root cfg api event_count leaves =
      if event_count == 0 && is_nil leaves
      then pure (record { leaf_count = 0; root = none; on_chain = none; published = false })
      else do
        values ← lift (leaf_values leaves)
        tree ← lift (insert_all values [])
        on_chain ← call api.current_state_root
        post_if_new cfg api (length leaves) values (root cfg.poseidon tree tree_depth) on_chain

  pub state_tree_with :
      TickConfig W → PoolState → StateApi W → Exec Error (World W) (PoolState × Option StateTree)
  unfolding publish_state_root absorb
  state_tree_with cfg state api = do
    snapshot ← call (api.read_state_leaves state.state_event_cursor)
    tree ←
        publish_state_root cfg api snapshot.event_count
          (leaves_to_publish (absorb state snapshot) snapshot)
    pure (absorb state snapshot, some tree)

  pub state_tree_step :
      TickConfig W → PoolState → Exec Error (World W) (PoolState × Option StateTree)
  unfolding state_tree_with
  state_tree_step cfg state = elim cfg.adapter.state_api [
    | none ↦ pure (state, none)
    | some api ↦ state_tree_with cfg state api
  ]

  pub result_of :
      TickConfig W
      → Screening
      → ℕ
      → Option ℕ
      → Bool
      → Option StateTree
      → Bool
      → Option PublicationAlert
      → TickResult
  result_of cfg a local on_chain published tree halted alert = record {
    pool_id = cfg.pool_id;
    approved_count = length a.state.approved_indices;
    newly_approved = a.newly_approved;
    rejected_count = length a.state.rejected_indices;
    newly_rejected = a.newly_rejected;
    deferred_count = length a.state.deferred_indices;
    local_root = local;
    on_chain_root = on_chain;
    published = published;
    state_tree = tree;
    halted_for_reorg = halted;
    stale_alert = alert;
  }

  -- The return in the middle of the tick, after a continuity break.
  pub halt : TickConfig W → Screening → ℕ → Exec Error (World W) TickResult
  unfolding save_state result_of
  halt cfg a local = do
    save_state a.state
    on_chain ← call cfg.adapter.current_asp_root
    pure (result_of cfg a local on_chain false none true none)

  -- The steps after the reorg guard.
  pub finish : TickConfig W → Screening → AssociationSet → Exec Error (World W) TickResult
  unfolding publish stale_check state_tree_step save_state result_of
  finish cfg a aset = do
    on_chain ← call cfg.adapter.current_asp_root
    published ← publish cfg aset a.state on_chain
    alert ← gets (stale_check cfg)
    (state', tree) ← state_tree_step cfg a.state
    save_state state'
    pure (result_of cfg a (root_of cfg.poseidon aset) on_chain published tree false alert)

  pub run_pool_tick : TickConfig W → Exec Error (World W) TickResult
  unfolding load_state read_after confirmed_deposits screen reorg_check halt finish
  run_pool_tick cfg = do
    state ← gets (load_state cfg)
    read ← call (cfg.adapter.read_deposits (read_after state) state.last_ledger)
    deposits ← confirmed_deposits cfg.adapter read cfg.confirmations
    let a = screen cfg.screener cfg.now deposits state
    aset ← lift (add_all cfg.poseidon a.state.approved_indices (create cfg.scope))
    halted ← reorg_check a.state.last_ledger deposits
    if halted then halt cfg a (root_of cfg.poseidon aset) else finish cfg a aset
