-- ===== src/Frontend/PoolSweep/Tests.antt =====
-- frontend/src/lib/poolSweep.ts on a network that takes two deposits.
use opauque_stellar.Base.{
  ℕ, ◌+◌, ◌≡◌, refl, ◌⊎◌, inl, inr, Text, codes, Option, none, some, false, List, [], ◌∷◌, ◌++◌,
  length, ltb, if◌then◌else◌, Bool-cases,
}
use opauque_stellar.Base.Exec.{Result, ok, err, Ends}
use opauque_stellar.Frontend.PoolSweep.{
  Chain, Sweep, PoolConfig, PoolSweepPlan, plan_pool_sweep, preset_chunk_stroops, preset_set,
  sweep_stealth_into_pool, is_index_race,
}
use opauque_stellar.Frontend.PoolSweep.Plan.{IsAffordable, IsFull, plan_pool_sweep_lem}
use opauque_stellar.Frontend.PoolSweep.Kept.{
  Landed, IsFaithful, Ended, sweep_stealth_into_pool-Ended,
}

abbrev World : Type 0
World = List Landed

abbrev take_deposit : ℕ → List ℕ → ℕ → World → Result Text Text × World
take_deposit value commitment index w =
    if ltb (length w) 2
    then (
      ok (codes "hash"),
      w ++ (record { value = value; commitment = commitment; index = index } ∷ []),
    )
    else (err (codes "busy"), w)

abbrev network : Chain World
network = record {
  fetch_next_leaf_index = λ w. (ok (length w), w);
  new_note_secrets = λ w. ((11, 12), w);
  derive_commitment = λ value scope leaf_index nullifier secret. value + leaf_index;
  deposit = take_deposit;
  now = λ w. 1_700_000_000_000;
}

network-IsFaithful : IsFaithful network (λ w. w)
network-IsFaithful = (λ w. refl, λ w. refl, taken)
  where
    taken :
        (value : ℕ) (commitment : List ℕ) (index : ℕ) (w : World)
        → let r = take_deposit value commitment index w in
          ((hash : Text) × (r.0 ≡ ok hash)
            × (r.1 ≡ w ++ (record { value = value; commitment = commitment; index = index } ∷ [])))
          ⊎ ((e : Text) × (r.0 ≡ err e)
              × ((r.1 ≡ w)
                  ⊎ ((is_index_race e ≡ false)
                      × (r.1
                          ≡ w
                            ++ (record { value = value; commitment = commitment; index = index }
                                ∷ [])))))
    taken value commitment index w = elim (Bool-cases (ltb (length w) 2)) [
      | inl room ↦ rw room (inl (codes "hash", refl, refl))
      | inr full ↦ rw full (inr (codes "busy", refl, inl refl))
    ]

-- Three notes of 10 XLM.
abbrev plan : PoolSweepPlan
plan = record {
  spendable = 310_000_000;
  minimum_balance = 20_000_000;
  chunk = 100_000_000;
  chunk_count = 3;
  total_deposit = 300_000_000;
  remainder = 4_000_000;
}

plans : plan_pool_sweep 310_000_000 20_000_000 (some 100_000_000) ≡ plan
unfolding plan_pool_sweep
plans = refl

plan_pool_sweep_lem_example :
    IsAffordable 310_000_000 (plan_pool_sweep 310_000_000 20_000_000 (some 100_000_000))
    × IsFull 310_000_000
        (some 100_000_000)
        (plan_pool_sweep 310_000_000 20_000_000 (some 100_000_000))
plan_pool_sweep_lem_example = plan_pool_sweep_lem 310_000_000 20_000_000 (some 100_000_000)

presets :
    preset_chunk_stroops (some 10 ∷ none ∷ some 1 ∷ some 10 ∷ some 0 ∷ [])
    ≡ 10_000_000 ∷ 100_000_000 ∷ []
unfolding preset_chunk_stroops preset_set
presets = refl

abbrev start : Sweep World
start = record { world = []; store = record { notes = []; active_account = none } }

abbrev config : Option PoolConfig
config = some (record { scope = 7; pool_id = codes "CPOOL" })

interrupted_sweep :
    Ends
      (Ended network (λ w. w) start)
      (sweep_stealth_into_pool network config (codes "testnet") plan start)
interrupted_sweep =
    sweep_stealth_into_pool-Ended network (λ w. w) network-IsFaithful config (codes "testnet") plan
      start
