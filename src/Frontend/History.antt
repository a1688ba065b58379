-- ===== src/Frontend/History.antt =====
-- reconcileHistory of frontend/src/lib/history-reconciliation.ts, with the entries of
-- frontend/src/store/txHistoryStore.ts. Times are milliseconds.
pub mod Laws
pub mod Tests
use opauque_stellar.Base.{
  ℕ, suc, Text, codes, Bool, true, false, Option, none, some, List, [], ◌∷◌, ◌++◌, leb,
  if◌then◌else◌,
}
use opauque_stellar.Base.Dict.{get, set, values}

pub data TxHistoryKind : Type 0 where
  sent received ghost trait : TxHistoryKind

pub data ChainHistoryStatus : Type 0 where
  confirmed failed pending : ChainHistoryStatus

pub data TxHistoryChainStatus : Type 0 where
  known : ChainHistoryStatus → TxHistoryChainStatus
  unknown : TxHistoryChainStatus

pub record TxHistoryEntry : Type 0 where
  pub id : Text
  pub cluster : Text
  pub kind : TxHistoryKind
  pub counterparty : Text
  pub amount_stroops : Text
  pub token_symbol : Text
  pub token_address : Option Text
  pub amount : Text
  pub tx_hash : Option Text
  pub stealth_address : Option Text
  pub timestamp : ℕ
  pub chain_status : Option TxHistoryChainStatus

pub record ChainHistoryItem : Type 0 where
  pub tx_hash : Text
  pub cluster : Text
  pub kind : TxHistoryKind
  pub counterparty : Text
  pub amount_stroops : Text
  pub amount : Text
  pub token_symbol : Text
  pub token_address : Option Text
  pub stealth_address : Option Text
  pub timestamp : ℕ
  pub status : ChainHistoryStatus

-- An entry that has a status, which `entry` holds as well.
pub record ReconciledEntry : Type 0 where
  pub entry : TxHistoryEntry
  pub chain_status : TxHistoryChainStatus

pub record ReconciledHistory : Type 0 where
  pub entries : List ReconciledEntry
  pub added_count : ℕ
  pub deduped_count : ℕ

abbrev pub or_confirmed : Option TxHistoryChainStatus → TxHistoryChainStatus
or_confirmed none = known confirmed
or_confirmed (some s) = s

-- a ?? b
abbrev pub or_else : Option Text → Option Text → Option Text
or_else none b = b
or_else (some a) b = some a

-- No hash and the empty one are both falsy.
abbrev pub seed_at :
    Option Text → TxHistoryEntry → List (Text × ReconciledEntry) → List (Text × ReconciledEntry)
seed_at none e by_hash = by_hash
seed_at (some []) e by_hash = by_hash
seed_at (some (c ∷ cs)) e by_hash =
    set (c ∷ cs)
      (record {
        entry = record e { chain_status = some (or_confirmed e.chain_status) };
        chain_status = or_confirmed e.chain_status;
      })
      by_hash

pub seed : List TxHistoryEntry → List (Text × ReconciledEntry) → List (Text × ReconciledEntry)
seed [] by_hash = by_hash
seed (e ∷ local) by_hash = seed local (seed_at e.tx_hash e by_hash)

pub record Merging : Type 0 where
  pub by_hash : List (Text × ReconciledEntry)
  pub added : ℕ
  pub deduped : ℕ

abbrev pub added_entry : ChainHistoryItem → ReconciledEntry
added_entry item = record {
  entry = record {
    id = codes "chain-" ++ item.cluster ++ codes "-" ++ item.tx_hash;
    cluster = item.cluster;
    kind = item.kind;
    counterparty = item.counterparty;
    amount_stroops = item.amount_stroops;
    token_symbol = item.token_symbol;
    token_address = item.token_address;
    amount = item.amount;
    tx_hash = some item.tx_hash;
    stealth_address = item.stealth_address;
    timestamp = item.timestamp;
    chain_status = some (known item.status);
  };
  chain_status = known item.status;
}

abbrev pub updated_entry : ChainHistoryItem → ReconciledEntry → ReconciledEntry
updated_entry item old = record {
  entry = record old.entry {
    stealth_address = or_else old.entry.stealth_address item.stealth_address;
    chain_status = some (known item.status);
  };
  chain_status = known item.status;
}

abbrev pub merge_at : ChainHistoryItem → Option ReconciledEntry → Merging → Merging
merge_at item (some old) m = record m {
  by_hash = set item.tx_hash (updated_entry item old) m.by_hash;
  deduped = suc m.deduped;
}
merge_at item none m = record m {
  by_hash = set item.tx_hash (added_entry item) m.by_hash;
  added = suc m.added;
}

pub merge_one : ChainHistoryItem → Merging → Merging
merge_one item m = merge_at item (get item.tx_hash m.by_hash) m

pub merge_chain : List ChainHistoryItem → Merging → Merging
merge_chain [] m = m
merge_chain (item ∷ items) m = merge_chain items (merge_one item m)

abbrev pub insert_by_time : ReconciledEntry → List ReconciledEntry → List ReconciledEntry
insert_by_time e [] = e ∷ []
insert_by_time e (f ∷ es) =
    if leb f.entry.timestamp e.entry.timestamp then e ∷ f ∷ es else f ∷ insert_by_time e es

-- A stable sort, the newest first.
pub by_time : List ReconciledEntry → List ReconciledEntry
by_time [] = []
by_time (e ∷ es) = insert_by_time e (by_time es)

pub merged : List TxHistoryEntry → List ChainHistoryItem → Merging
merged local chain = merge_chain chain (record { by_hash = seed local []; added = 0; deduped = 0 })

pub reconcile_history : List TxHistoryEntry → List ChainHistoryItem → ReconciledHistory
reconcile_history local chain =
    let m = merged local chain in
    record {
      entries = by_time (values m.by_hash);
      added_count = m.added;
      deduped_count = m.deduped;
    }
