-- ===== src/Frontend/History/Laws.antt =====
-- reconcileHistory of frontend/src/lib/history-reconciliation.ts: counts, statuses and local details.
use opauque_stellar.Base.{
  ℕ, suc, ◌+◌, ◌≡◌, refl, ap, sym, ◌∙◌, inl, inr, Text, same, same→eq, Option, none, some, List, [],
  ◌∷◌, length, Bool-cases, arith, leb, subst, if◌then◌else◌,
}
use opauque_stellar.Base.Dict.{get, set, values, get-set}
use opauque_stellar.Frontend.History.{
  ReconciledEntry, TxHistoryEntry, TxHistoryChainStatus, known, ChainHistoryItem, Merging,
  added_entry, updated_entry, merge_at, merge_one, merge_chain, insert_by_time, by_time, seed,
  merged, reconcile_history,
}

-- What an entry says beside its status and its stealth address.
abbrev pub details : TxHistoryEntry → TxHistoryEntry
details e = record e { stealth_address = none; chain_status = none }

abbrev pub status_of : Option ReconciledEntry → Option TxHistoryChainStatus
status_of none = none
status_of (some e) = some e.chain_status

abbrev pub details_of : Option ReconciledEntry → Option TxHistoryEntry
details_of none = none
details_of (some e) = some (details e.entry)

-- The status of the last item with the hash, or else the one given.
abbrev pub latest :
    Text → List ChainHistoryItem → Option TxHistoryChainStatus → Option TxHistoryChainStatus
latest h [] o = o
latest h (item ∷ items) o =
    latest h items (if same item.tx_hash h then some (known item.status) else o)

status-merge_at :
    (h : Text) (item : ChainHistoryItem) (o : Option ReconciledEntry) (m : Merging)
    → status_of (get h (merge_at item o m).by_hash)
      ≡ (if same item.tx_hash h then some (known item.status) else status_of (get h m.by_hash))
status-merge_at h item none m = elim (Bool-cases (same item.tx_hash h)) [
  | inl t ↦ rw (get-set item.tx_hash h (added_entry item) m.by_hash, t) refl
  | inr f ↦ rw (get-set item.tx_hash h (added_entry item) m.by_hash, f) refl
]
status-merge_at h item (some old) m = elim (Bool-cases (same item.tx_hash h)) [
  | inl t ↦ rw (get-set item.tx_hash h (updated_entry item old) m.by_hash, t) refl
  | inr f ↦ rw (get-set item.tx_hash h (updated_entry item old) m.by_hash, f) refl
]

status-merge_chain :
    (h : Text) (items : List ChainHistoryItem) (m : Merging)
    → status_of (get h (merge_chain items m).by_hash) ≡ latest h items (status_of (get h m.by_hash))
unfolding merge_chain merge_one
status-merge_chain h [] m = refl
status-merge_chain h (item ∷ items) m =
    status-merge_chain h items (merge_one item m)
    ∙ ap (latest h items) (status-merge_at h item (get item.tx_hash m.by_hash) m)

details-merge_at :
    (h : Text) (item : ChainHistoryItem) (o : Option ReconciledEntry) (m : Merging)
    (d : TxHistoryEntry)
    → get item.tx_hash m.by_hash ≡ o
    → details_of (get h m.by_hash) ≡ some d
    → details_of (get h (merge_at item o m).by_hash) ≡ some d
details-merge_at h item none m d g e = elim (Bool-cases (same item.tx_hash h)) [
  | inl t ↦ absurd (cc (same→eq item.tx_hash h t, g, e))
  | inr f ↦ rw (get-set item.tx_hash h (added_entry item) m.by_hash, f) e
]
details-merge_at h item (some old) m d g e = elim (Bool-cases (same item.tx_hash h)) [
  | inl t ↦
      rw (get-set item.tx_hash h (updated_entry item old) m.by_hash, t)
        (sym (ap details_of (ap (λ k. get k m.by_hash) (sym (same→eq item.tx_hash h t)) ∙ g)) ∙ e)
  | inr f ↦ rw (get-set item.tx_hash h (updated_entry item old) m.by_hash, f) e
]

details-merge_chain :
    (h : Text) (items : List ChainHistoryItem) (m : Merging) (d : TxHistoryEntry)
    → details_of (get h m.by_hash) ≡ some d
    → details_of (get h (merge_chain items m).by_hash) ≡ some d
unfolding merge_chain merge_one
details-merge_chain h [] m d e = e
details-merge_chain h (item ∷ items) m d e =
    details-merge_chain h items (merge_one item m) d
      (details-merge_at h item (get item.tx_hash m.by_hash) m d refl e)

abbrev new_keys : Option ReconciledEntry → ℕ
new_keys none = 1
new_keys (some e) = 0

length-set :
    (k : Text) (v : ReconciledEntry) (m : List (Text × ReconciledEntry))
    → length (values (set k v m)) ≡ length (values m) + new_keys (get k m)
unfolding get set values
length-set k v [] = refl
length-set k v ((j, w) ∷ m) = elim (Bool-cases (same j k)) [
  | inl t ↦ rw t (omega arith)
  | inr f ↦ rw (f, length-set k v m) (omega arith)
]

-- Every item adds an entry or is a duplicate.
IsCounted : ℕ → ℕ → Merging → Type 0
IsCounted size seen m = (length (values m.by_hash) ≡ size + m.added) × (m.added + m.deduped ≡ seen)

merge_at-IsCounted :
    (size seen : ℕ) (item : ChainHistoryItem) (m : Merging) (o : Option ReconciledEntry)
    → get item.tx_hash m.by_hash ≡ o
    → IsCounted size seen m
    → IsCounted size (suc seen) (merge_at item o m)
unfolding IsCounted
merge_at-IsCounted size seen item m none g c =
    let n =
      length-set item.tx_hash (added_entry item) m.by_hash
      ∙ ap (λ o. length (values m.by_hash) + new_keys o) g in
    (omega (arith, n, c.0), omega (arith, c.1))
merge_at-IsCounted size seen item m (some old) g c =
    let n =
      length-set item.tx_hash (updated_entry item old) m.by_hash
      ∙ ap (λ o. length (values m.by_hash) + new_keys o) g in
    (omega (arith, n, c.0), omega (arith, c.1))

merge_chain-IsCounted :
    (size seen : ℕ) (items : List ChainHistoryItem) (m : Merging)
    → IsCounted size seen m
    → IsCounted size (seen + length items) (merge_chain items m)
unfolding merge_chain merge_one
merge_chain-IsCounted size seen [] m c = subst (λ n. IsCounted size n m) (omega arith) c
merge_chain-IsCounted size seen (item ∷ items) m c =
    subst (λ n. IsCounted size n (merge_chain items (merge_one item m))) (omega arith)
      (merge_chain-IsCounted size (suc seen) items (merge_one item m)
        (merge_at-IsCounted size seen item m (get item.tx_hash m.by_hash) refl c))

length-insert_by_time :
    (e : ReconciledEntry) (es : List ReconciledEntry)
    → length (insert_by_time e es) ≡ suc (length es)
length-insert_by_time e [] = refl
length-insert_by_time e (f ∷ es) = elim (Bool-cases (leb f.entry.timestamp e.entry.timestamp)) [
  | inl t ↦ rw t refl
  | inr n ↦ rw (n, length-insert_by_time e es) refl
]

length-by_time : (es : List ReconciledEntry) → length (by_time es) ≡ length es
unfolding by_time
length-by_time [] = refl
length-by_time (e ∷ es) = length-insert_by_time e (by_time es) ∙ ap suc (length-by_time es)

-- Every item of the chain is counted, as added or as a duplicate, and the entries are as many as the
-- hashes of the local ones and the added items. Under every hash, the merged entries have the status
-- of the last item of the chain that has the hash, or else of the local entry; and where there is a
-- local entry, everything of it but the status and the stealth address is kept.
pub reconcile_history_lem :
    (local : List TxHistoryEntry) (chain : List ChainHistoryItem) (h : Text)
    → let r = reconcile_history local chain in
      let before = get h (seed local []) in
      let after = get h (merged local chain).by_hash in
      (r.added_count + r.deduped_count ≡ length chain)
      × (length r.entries ≡ length (values (seed local [])) + r.added_count)
      × (status_of after ≡ latest h chain (status_of before))
      × ((d : TxHistoryEntry) → details_of before ≡ some d → details_of after ≡ some d)
unfolding reconcile_history merged IsCounted
reconcile_history_lem local chain h =
    let start : Merging = record { by_hash = seed local []; added = 0; deduped = 0 } in
    let c =
      merge_chain-IsCounted (length (values (seed local []))) 0 chain start (omega arith, refl) in
    (
      omega (arith, c.1),
      length-by_time (values (merge_chain chain start).by_hash) ∙ c.0,
      status-merge_chain h chain start,
      λ d. details-merge_chain h chain start d,
    )
