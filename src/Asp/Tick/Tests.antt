-- ===== src/Asp/Tick/Tests.antt =====
-- The theorems about screening and ticks at concrete inputs.
use opauque_stellar.Base.{
  ℕ, ◌+◌, ◌*◌, ◌≡◌, ◌⊎◌, refl, codes, true, false, Option, none, some, List, [], ◌∷◌, ◌++◌, All,
  length,
}
use opauque_stellar.Base.Dict.{get-nil}
use opauque_stellar.Base.Exec.{ok, Ends, IfOk, pure}
use opauque_stellar.Asp.Types.{Deposit, PoolState, approve}
use opauque_stellar.Asp.Policy.{mem, screening_policy}
use opauque_stellar.Asp.Tick.{
  Screener, single, ChainAdapter, TickConfig, World, screen, run_pool_tick,
}
use opauque_stellar.Asp.Tick.Verdicts.{
  IsClean, Given, IsRecorded, screen-IsClean, screen-policy, screen-append,
}
use opauque_stellar.Asp.Tick.Deferral.{screen_forgets}
use opauque_stellar.Asp.Tick.Publication.{HasRoot, Stored, IsKeyed, run_pool_tick-reconciles}

abbrev deposit : ℕ → Deposit
deposit i = record { index = i; commitment = 9; value = 100; scope = 1; ledger = 50 + i }

abbrev deposits : List Deposit
deposits = deposit 0 ∷ deposit 1 ∷ []

abbrev approver : Screener
approver = single (screening_policy (codes "all") (λ d. approve))

abbrev empty_pool : PoolState
empty_pool = record {
  pool_id = codes "pool";
  scope = 1;
  approved_indices = [];
  rejected_indices = [];
  deferred_indices = [];
  last_index = none;
  last_ledger = 0;
  decisions = [];
  state_event_cursor = 0;
  state_leaves = none;
}

empty-IsClean : IsClean empty_pool
unfolding mem
empty-IsClean = record { approved_once = tt; rejected_once = tt; exclusive = λ n h. refl }

screen-IsClean_example : IsClean (screen approver (codes "now") deposits empty_pool).state
screen-IsClean_example = screen-IsClean approver (codes "now") deposits empty_pool empty-IsClean

screen-policy_example :
    ((n : ℕ)
      → mem n (screen approver (codes "now") deposits empty_pool).state.approved_indices ≡ true
      → (mem n [] ≡ true) ⊎ Given approver (codes "now") approve n deposits)
    × All
        (λ d. IsRecorded (screen approver (codes "now") deposits empty_pool).state d.index)
        deposits
screen-policy_example = screen-policy approver (codes "now") deposits empty_pool

approved_behind :
    (new : List ℕ) × ((screen approver (codes "now") deposits empty_pool).state.approved_indices
      ≡ [] ++ new)
    × ((screen approver (codes "now") deposits empty_pool).newly_approved ≡ length new)
    × ((screen approver (codes "now") deposits empty_pool).state.pool_id ≡ codes "pool")
approved_behind = screen-append approver (codes "now") deposits empty_pool

-- Deposit 7 was deferred by an earlier tick, and is not read again.
abbrev waiting : PoolState
waiting = record empty_pool { deferred_indices = 7 ∷ []; last_ledger = 50 }

screen_forgets_example :
    let after = (screen approver (codes "now") deposits waiting).state in
    (mem 7 after.approved_indices ≡ false)
    × (mem 7 after.rejected_indices ≡ false)
    × (mem 7 after.deferred_indices ≡ false)
unfolding mem
screen_forgets_example = screen_forgets 7 approver (codes "now") deposits waiting refl refl refl

-- A chain that is only its published root.
abbrev root_chain : ChainAdapter (Option ℕ)
root_chain = record {
  read_deposits = λ after from. pure deposits;
  current_asp_root = λ w. (ok w, w);
  post_asp_root = λ r h w. (ok tt, some r);
  latest_ledger = pure 60;
  state_api = none;
}

no_api : {A : Type 0} {C : Type 0} (a : A) → none ≡ some a → C
no_api a h = absurd cc

root_chain-HasRoot : HasRoot (λ w. w) root_chain
root_chain-HasRoot = record {
  deposits_keep = λ after from w. refl;
  ledger_keeps = λ w. refl;
  read_root = λ w. (refl, refl);
  post_root = λ r h w. refl;
  leaves_keep = λ api h. no_api api h;
  state_root_keeps = λ api h. no_api api h;
  post_state_keeps = λ api h. no_api api h;
}

abbrev config : TickConfig (Option ℕ)
config = record {
  pool_id = codes "pool";
  scope = 1;
  adapter = root_chain;
  screener = approver;
  has_data_dir = false;
  confirmations = 2;
  now = codes "now";
  now_ms = 5;
  poseidon = λ a b. a + 3 * b;
  sha256 = length;
}

abbrev world : World (Option ℕ)
world = record { store = []; chain = none; guard = none; monitor = none; written = [] }

abbrev view : Option ℕ → Option ℕ
view w = w

world-IsKeyed : IsKeyed view config root_chain-HasRoot world
world-IsKeyed st h = cc (get-nil {V = PoolState} (codes "pool"))

run_pool_tick-reconciles_example :
    Ends
      (IfOk (λ r t.
        ((r.halted_for_reorg ≡ true) × (view t.chain ≡ none))
        ⊎ (r.halted_for_reorg ≡ false) × Stored view config root_chain-HasRoot r.local_root t))
      (run_pool_tick config world)
run_pool_tick-reconciles_example =
    run_pool_tick-reconciles view config root_chain-HasRoot world world-IsKeyed
