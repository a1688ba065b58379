-- ===== src/Frontend/History/Tests.antt =====
-- frontend/src/lib/history-reconciliation.ts with a local entry in flight that the chain reports twice.
use opauque_stellar.Base.{◌+◌, ◌≡◌, refl, Text, codes, none, some, List, [], ◌∷◌, length}
use opauque_stellar.Base.Dict.{get, set, values}
use opauque_stellar.Frontend.History.{
  TxHistoryEntry, sent, ChainHistoryItem, ChainHistoryStatus, confirmed, failed, pending, known,
  seed, merged, merge_chain, merge_one, reconcile_history,
}
use opauque_stellar.Frontend.History.Laws.{status_of, details_of, latest, reconcile_history_lem}

abbrev in_flight : TxHistoryEntry
in_flight = record {
  id = codes "a";
  cluster = codes "testnet";
  kind = sent;
  counterparty = codes "Bob";
  amount_stroops = codes "10";
  token_symbol = codes "XLM";
  token_address = none;
  amount = codes "0.000001";
  tx_hash = some (codes "h1");
  stealth_address = none;
  timestamp = 3;
  chain_status = some (known pending);
}

abbrev item : Text → ChainHistoryStatus → ChainHistoryItem
item hash status = record {
  tx_hash = hash;
  cluster = codes "testnet";
  kind = sent;
  counterparty = codes "G1";
  amount_stroops = codes "10";
  amount = codes "0.000001";
  token_symbol = codes "XLM";
  token_address = none;
  stealth_address = none;
  timestamp = 5;
  status = status;
}

abbrev read : List ChainHistoryItem
read = item (codes "h1") confirmed ∷ item (codes "h2") confirmed ∷ item (codes "h1") failed ∷ []

reconcile_history_lem_example :
    let r = reconcile_history (in_flight ∷ []) read in
    let before = get (codes "h1") (seed (in_flight ∷ []) []) in
    let after = get (codes "h1") (merged (in_flight ∷ []) read).by_hash in
    (r.added_count + r.deduped_count ≡ length read)
    × (length r.entries ≡ length (values (seed (in_flight ∷ []) [])) + r.added_count)
    × (status_of after ≡ latest (codes "h1") read (status_of before))
    × ((d : TxHistoryEntry) → details_of before ≡ some d → details_of after ≡ some d)
reconcile_history_lem_example = reconcile_history_lem (in_flight ∷ []) read (codes "h1")

-- The last status counts.
failed_last :
    status_of (get (codes "h1") (merged (in_flight ∷ []) read).by_hash) ≡ some (known failed)
unfolding merged seed merge_chain merge_one get set
failed_last = refl
