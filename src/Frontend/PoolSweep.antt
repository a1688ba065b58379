-- ===== src/Frontend/PoolSweep.antt =====
-- frontend/src/lib/poolSweep.ts: how a stealth balance is split into pool deposits, and the deposits.
-- Amounts are stroops. The stealth account's chain is a record of calls on a state `W`; an error is
-- its message. Progress reports are left out.
pub mod Plan
pub mod Kept
pub mod Submitted
pub mod Tests
use opauque_stellar.Base.{
  ℕ, zero, suc, ◌+◌, ◌-◌, ◌*◌, ◌/◌, ◌%◌, Text, codes, to_lower, Bool, true, false, ◌&&◌, ◌||◌, not,
  Option, none, some, List, [], ◌∷◌, ◌++◌, map, keep, any, ltb, leb, ◌==◌, if◌then◌else◌,
}
use opauque_stellar.Base.Strings.{contains}
use opauque_stellar.Base.Exec.{
  Result, ok, err, Exec, pure, throw, gets, modify, attempt, ◌>>=◌, ◌>>◌,
}
use opauque_stellar.Base.Numerals.{to_text, pad_start}
use opauque_stellar.Frontend.NoteStore.{PoolNote, PoolNoteState, add_note}

abbrev pub deposit_fee_buffer : ℕ
deposit_fee_buffer = 2_000_000

abbrev pub min_deposit : ℕ
min_deposit = 1_000_000

abbrev pub stroops_per_xlm : ℕ
stroops_per_xlm = 10_000_000

-- A preset is a positive whole number of XLM, or none (`none`).
abbrev insert_sorted : ℕ → List ℕ → List ℕ
insert_sorted x [] = x ∷ []
insert_sorted x (y ∷ ys) = if leb x y then x ∷ y ∷ ys else y ∷ insert_sorted x ys

-- Without repetitions, in ascending order.
pub preset_set : List (Option ℕ) → List ℕ
preset_set [] = []
preset_set (none ∷ ps) = preset_set ps
preset_set (some p ∷ ps) =
    let rest = preset_set ps in
    if p == 0 then rest else (if any (λ q. q == p) rest then rest else insert_sorted p rest)

pub preset_chunk_stroops : List (Option ℕ) → List ℕ
unfolding preset_set
preset_chunk_stroops presets = map (λ xlm. xlm * stroops_per_xlm) (preset_set presets)

pub record PoolSweepPlan : Type 0 where
  pub spendable : ℕ
  pub minimum_balance : ℕ
  pub chunk : ℕ
  pub chunk_count : ℕ
  pub total_deposit : ℕ
  pub remainder : ℕ

abbrev pub base_plan : ℕ → ℕ → PoolSweepPlan
base_plan spendable minimum = record {
  spendable = spendable;
  minimum_balance = minimum;
  chunk = 0;
  chunk_count = 0;
  total_deposit = 0;
  remainder = spendable;
}

abbrev pub one_note : ℕ → ℕ → PoolSweepPlan
one_note spendable minimum =
    let value = spendable - deposit_fee_buffer in
    record (base_plan spendable minimum) {
      chunk = value;
      chunk_count = 1;
      total_deposit = value;
      remainder = spendable - value;
    }

abbrev pub equal_notes : ℕ → ℕ → ℕ → ℕ → PoolSweepPlan
equal_notes spendable minimum chunk count = record (base_plan spendable minimum) {
  chunk = chunk;
  chunk_count = count;
  total_deposit = count * chunk;
  remainder = spendable - count * (chunk + deposit_fee_buffer);
}

-- The test of the single note is on integers, so that a balance below the buffer fails it.
pub plan_pool_sweep : ℕ → ℕ → Option ℕ → PoolSweepPlan
plan_pool_sweep spendable minimum none =
    if ltb spendable (min_deposit + deposit_fee_buffer)
    then base_plan spendable minimum
    else one_note spendable minimum
plan_pool_sweep spendable minimum (some chunk) =
    let count = spendable / (chunk + deposit_fee_buffer) in
    if ltb chunk min_deposit
    then base_plan spendable minimum
    else (if ltb count 1
        then base_plan spendable minimum
        else equal_notes spendable minimum chunk count)

-- The calls that leave this file. The commitment of a deposit is a number.
pub record Chain (W : Type 0) : Type 0 where
  pub fetch_next_leaf_index : W → Result Text ℕ × W
  pub new_note_secrets : W → (ℕ × ℕ) × W
  pub derive_commitment : (value scope leaf_index nullifier secret : ℕ) → ℕ
  pub deposit : (value : ℕ) (commitment : List ℕ) (expected_index : ℕ) → W → Result Text Text × W
  pub now : W → ℕ

pub record PoolConfig : Type 0 where
  pub scope : ℕ
  pub pool_id : Text

pub record Sweep (W : Type 0) : Type 0 where
  pub world : W
  pub store : PoolNoteState

-- The big-endian bytes of a number, `n` of them.
pub be_from : ℕ → ℕ → List ℕ
be_from zero v = []
be_from (suc n) v = be_from n (v / 256) ++ (v % 256 ∷ [])

pub be32 : ℕ → List ℕ
unfolding be_from
be32 v = be_from 32 v

abbrev hex_digit : ℕ → ℕ
hex_digit d = if ltb d 10 then b'0' + d else b'a' + (d - 10)

-- v.toString(16), with fuel for the digits.
hex_digits : ℕ → ℕ → Text
hex_digits zero v = []
hex_digits (suc f) v =
    let rest = hex_digits f (v / 16) in
    if ltb v 16 then hex_digit v ∷ [] else rest ++ (hex_digit (v % 16) ∷ [])

pub to_hex32 : ℕ → Text
unfolding hex_digits
to_hex32 v = codes "0x" ++ pad_start 64 b'0' (hex_digits (suc v) v)

-- /IndexMismatch|ContractError/i
pub is_index_race : Text → Bool
is_index_race message =
    contains (codes "indexmismatch") (to_lower message)
    || contains (codes "contracterror") (to_lower message)

abbrev pub on_world : {W A : Type 0} → (W → Result Text A × W) → Exec Text (Sweep W) A
on_world f s = ((f s.world).0, record s { world = (f s.world).1 })

abbrev pub run_world : {W A : Type 0} → (W → A × W) → Exec Text (Sweep W) A
run_world f s = (ok (f s.world).0, record s { world = (f s.world).1 })

abbrev pub add_to_store : {W : Type 0} → PoolNote → Sweep W → Sweep W
add_to_store note s = record s { store = add_note note s.store }

-- What the sweep returns.
pub record PoolSweepResult : Type 0 where
  pub hashes : List Text
  pub notes_added : ℕ
  pub total_deposit : ℕ

-- What `depositChunk` is called with.
pub record ChunkOpts : Type 0 where
  pub value : ℕ
  pub scope : ℕ
  pub pool_id : Text
  pub cluster : Text

module _ {W : Type 0} (chain : Chain W) where
  abbrev pub note_of : ChunkOpts → (leaf_index nullifier secret commitment at : ℕ) → PoolNote
  note_of opts leaf_index nullifier secret commitment at = record {
    cluster = opts.cluster;
    pool_id = some opts.pool_id;
    account = none;
    value = to_text opts.value;
    scope = opts.scope;
    leaf_index = leaf_index;
    nullifier = to_text nullifier;
    secret = to_text secret;
    commitment = to_hex32 commitment;
    spent = false;
    created_at = at;
  }

  abbrev pub submit :
      ChunkOpts → (leaf_index : ℕ) → (secrets : ℕ × ℕ) → Exec Text (Sweep W) (Text × PoolNote)
  submit opts leaf_index secrets = do
    let commitment = chain.derive_commitment opts.value opts.scope leaf_index secrets.0 secrets.1
    hash ← on_world (chain.deposit opts.value (be32 commitment) leaf_index)
    at ← gets (λ s. chain.now s.world)
    pure (hash, note_of opts leaf_index secrets.0 secrets.1 commitment at)

  -- A failure that is no index race, or the third one, is thrown on.
  abbrev pub after_failure :
      ℕ → Exec Text (Sweep W) (Text × PoolNote) → Text → Exec Text (Sweep W) (Text × PoolNote)
  after_failure attempt_no again e =
      if not (is_index_race e) || attempt_no == 2 then throw e else again

  abbrev pub submit_once :
      ℕ
      → Exec Text (Sweep W) (Text × PoolNote)
      → ChunkOpts
      → ℕ
      → ℕ × ℕ
      → Exec Text (Sweep W) (Text × PoolNote)
  submit_once attempt_no again opts leaf_index secrets =
      attempt (submit opts leaf_index secrets) (after_failure attempt_no again)

  abbrev pub with_index :
      ℕ
      → Exec Text (Sweep W) (Text × PoolNote)
      → ChunkOpts
      → ℕ
      → Exec Text (Sweep W) (Text × PoolNote)
  with_index attempt_no again opts leaf_index =
      run_world chain.new_note_secrets >>= submit_once attempt_no again opts leaf_index

  -- `left` is 3 less the attempt.
  pub deposit_from : (left attempt_no : ℕ) → ChunkOpts → Exec Text (Sweep W) (Text × PoolNote)
  deposit_from zero attempt_no opts = throw (codes "Pool deposit failed.")
  deposit_from (suc left) attempt_no opts =
      let again = deposit_from left (suc attempt_no) opts in
      on_world chain.fetch_next_leaf_index >>= with_index attempt_no again opts

  pub deposit_chunk : ChunkOpts → Exec Text (Sweep W) (Text × PoolNote)
  unfolding deposit_from
  deposit_chunk opts = deposit_from 3 0 opts

  -- A note is stored as soon as its deposit is in.
  abbrev pub stored :
      Exec Text (Sweep W) (List Text) → Text × PoolNote → Exec Text (Sweep W) (List Text)
  stored rest made = modify (add_to_store made.1) >> (rest >>= λ hashes. pure (made.0 ∷ hashes))

  -- The loop over the chunks.
  pub deposit_all : ℕ → ChunkOpts → Exec Text (Sweep W) (List Text)
  deposit_all zero opts = pure []
  deposit_all (suc n) opts = let rest = deposit_all n opts in deposit_chunk opts >>= stored rest

  abbrev pub swept : PoolSweepPlan → List Text → Exec Text (Sweep W) PoolSweepResult
  swept plan hashes = pure record {
    hashes = hashes;
    notes_added = plan.chunk_count;
    total_deposit = plan.chunk * plan.chunk_count;
  }

  -- `none` is a network without a pool.
  pub sweep_stealth_into_pool :
      Option PoolConfig → Text → PoolSweepPlan → Exec Text (Sweep W) PoolSweepResult
  sweep_stealth_into_pool none cluster plan =
      throw (codes "Privacy pool is not deployed on this network.")
  sweep_stealth_into_pool (some cfg) cluster plan =
      if ltb plan.chunk_count 1 || ltb plan.chunk min_deposit
      then throw (codes "Balance is too small to deposit into the pool.")
      else (deposit_all plan.chunk_count (record {
        value = plan.chunk;
        scope = cfg.scope;
        pool_id = cfg.pool_id;
        cluster = cluster;
      })
          >>= swept plan)
