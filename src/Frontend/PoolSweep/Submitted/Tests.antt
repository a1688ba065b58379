-- ===== src/Frontend/PoolSweep/Submitted/Tests.antt =====
-- A sweep of frontend/src/lib/poolSweep.ts over a server that goes offline behind the second deposit.
use opauque_stellar.Base.{
  ℕ, ◌≡◌, refl, inl, inr, Text, codes, to_lower, Option, none, some, List, [], ◌∷◌, ◌++◌, length,
  ltb, if◌then◌else◌, Bool-cases,
}
use opauque_stellar.Base.Exec.{Result, ok, err, Ends}
use opauque_stellar.Frontend.NoteStore.{add_note}
use opauque_stellar.Frontend.Submission.{
  Server, Call, pending, TxStatus, success, simulated, poll, poll_transaction_status,
  invoke_contract_with_keypair, invoke_pool_deposit_with_keypair,
}
use opauque_stellar.Frontend.PoolSweep.{
  Chain, Sweep, PoolConfig, PoolSweepPlan, sweep_stealth_into_pool, deposit_all, deposit_chunk,
  deposit_from, is_index_race,
}
use opauque_stellar.Frontend.PoolSweep.Kept.{Ended}
use opauque_stellar.Frontend.PoolSweep.Submitted.{
  IsDocumented, NoRace, stellar, landed, sweep_stealth_into_pool-Submitted,
}

abbrev World : Type 0
World = List Call

abbrev status : Text → World → Result Text TxStatus × World
status hash w = if ltb (length w) 2 then (ok success, w) else (err (codes "offline"), w)

abbrev server : Server World ℕ Call
server = record {
  get_account = λ key w. (ok (length w), w);
  build = λ account call. call;
  prepare_transaction = λ tx w. (ok tx, w);
  simulate_transaction = λ tx w. (ok simulated, w);
  sign = λ tx. tx;
  send_transaction =
      λ tx w. (ok (record { status = pending; hash = codes "0a"; text = [] }), w ++ tx ∷ []);
  get_transaction = status;
  now = λ w. 0;
  sleep = λ ms w. w;
}

status_quiet : (hash : Text) (w : World) → (status hash w).1 ≡ w
status_quiet hash w = elim (Bool-cases (ltb (length w) 2)) [ inl e ↦ rw e refl | inr e ↦ rw e refl ]

status-NoRace : (hash : Text) (w : World) → NoRace server (λ w. w) (λ tx. tx) (status hash w).0
unfolding is_index_race to_lower
status-NoRace hash w = elim (Bool-cases (ltb (length w) 2)) [ inl e ↦ rw e tt | inr e ↦ rw e refl ]

server-IsDocumented : IsDocumented server (λ w. w) (λ tx. tx)
unfolding to_lower
server-IsDocumented = record {
  account_quiet = λ key w. refl;
  prepare_quiet = λ tx w. refl;
  simulate_quiet = λ tx w. refl;
  status_quiet = status_quiet;
  sleep_quiet = λ ms w. refl;
  build_call = λ a c. refl;
  prepared = λ tx w. refl;
  sign_call = λ tx. refl;
  send = λ tx w. (refl, refl);
  status_error = status-NoRace;
}

abbrev chain : Chain World
chain = record {
  fetch_next_leaf_index = λ w. (ok (length w), w);
  new_note_secrets = λ w. ((11, 12), w);
  derive_commitment = λ value scope leaf_index nullifier secret. leaf_index;
  deposit = λ value commitment index w. (ok [], w);
  now = λ w. 1_700_000_000_000;
}

abbrev plan : PoolSweepPlan
plan = record {
  spendable = 9_500_000;
  minimum_balance = 20_000_000;
  chunk = 1_000_000;
  chunk_count = 3;
  total_deposit = 3_000_000;
  remainder = 500_000;
}

abbrev start : Sweep World
start = record { world = []; store = record { notes = []; active_account = none } }

abbrev config : Option PoolConfig
config = some (record { scope = 7; pool_id = codes "CPOOL" })

abbrev network : Chain World
network = stellar server (codes "CPOOL") (codes "GA") chain

sweep_stealth_into_pool-Submitted_example :
    Ends
      (Ended network (landed (λ w. w) (codes "CPOOL")) start)
      (sweep_stealth_into_pool network config (codes "testnet") plan start)
sweep_stealth_into_pool-Submitted_example =
    sweep_stealth_into_pool-Submitted server (λ w. w) (λ tx. tx) (codes "CPOOL") (codes "GA") chain
      server-IsDocumented (λ w. refl) (λ w. refl) config (codes "testnet") plan start

abbrev after : Sweep World
after = (sweep_stealth_into_pool network config (codes "testnet") plan start).1

-- Two deposits were sent, and one note was stored.
note_lost : (length after.world ≡ 2) × (length after.store.notes ≡ 1)
unfolding sweep_stealth_into_pool deposit_all deposit_chunk deposit_from
    invoke_pool_deposit_with_keypair invoke_contract_with_keypair poll_transaction_status poll
    is_index_race to_lower add_note
note_lost = (refl, refl)
