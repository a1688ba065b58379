-- ===== src/Frontend/Submission.antt =====
-- How the client has a contract called by a key that it holds: invokeContractWithKeypair and
-- pollTransactionStatus of frontend/src/lib/stellar.ts, simulateAndDecode of sorobanErrors.ts and
-- invokePoolDepositWithKeypair of programs.ts beside it. The RPC server and the transactions of the
-- Stellar SDK are records of calls; an error is its message. Metrics are left out, and so is the
-- option of not simulating, which a deposit does not take.
pub mod Polling
use opauque_stellar.Base.{
  ℕ, zero, suc, ◌+◌, ◌-◌, Text, codes, Bool, true, false, Option, none, some, List, [], ◌∷◌, ◌++◌,
  ltb, if◌then◌else◌,
}
use opauque_stellar.Base.Exec.{Result, ok, err, Exec, pure, throw, gets, modify, ◌>>=◌, ◌>>◌}

abbrev pub tx_poll_timeout_ms : ℕ
tx_poll_timeout_ms = 60_000

abbrev pub tx_poll_interval_ms : ℕ
tx_poll_interval_ms = 1_000

pub data ScVal : Type 0 where
  address : Text → ScVal
  i128 u64 : ℕ → ScVal
  bytes : List ℕ → ScVal

-- new Contract(contractId).call(method, ...args)
pub record Call : Type 0 where
  pub contract_id : Text
  pub method : Text
  pub args : List ScVal

pub data SendStatus : Type 0 where
  pending duplicate try_again_later error : SendStatus

-- `text` is the answer as JSON.
pub record Sent : Type 0 where
  pub status : SendStatus
  pub hash : Text
  pub text : Text

pub data TxStatus : Type 0 where
  not_found success failed : TxStatus

-- A refusal comes with its decoded error.
pub data Simulation : Type 0 where
  simulated : Simulation
  refused : Text → Simulation

pub record Server (W Account Tx : Type 0) : Type 0 where
  pub get_account : Text → W → Result Text Account × W
  pub build : Account → Call → Tx
  pub prepare_transaction : Tx → W → Result Text Tx × W
  pub simulate_transaction : Tx → W → Result Text Simulation × W
  pub sign : Tx → Tx
  pub send_transaction : Tx → W → Result Text Sent × W
  pub get_transaction : Text → W → Result Text TxStatus × W
  pub now : W → ℕ
  pub sleep : ℕ → W → W

abbrev pub is_error : SendStatus → Bool
is_error error = true
is_error _ = false

abbrev pub simulation_failed : Text → Text
simulation_failed e = codes "Simulation failed: " ++ e

abbrev pub rejected : Text → Text
rejected text = codes "Transaction rejected by the RPC node: " ++ text

abbrev pub timed_out : Text → Text
timed_out hash =
    codes "Transaction polling timed out after 60000ms. Hash: "
    ++ (hash ++ codes ". Check status manually or retry later.")

abbrev pub with_status : TxStatus → Text
with_status not_found = codes "Transaction NOT_FOUND ("
with_status success = codes "Transaction SUCCESS ("
with_status failed = codes "Transaction FAILED ("

abbrev pub tx_failed : TxStatus → Text → Text
tx_failed status hash = with_status status ++ (hash ++ codes ")")

-- What simulateAndDecode gives as its error, if there is one: it throws none.
abbrev pub decoded : Result Text Simulation → Option Text
decoded (ok simulated) = none
decoded (ok (refused e)) = some e
decoded (err e) = some e

module _ {W Account Tx : Type 0} (server : Server W Account Tx) where
  abbrev pub simulate_and_decode : Tx → Exec Text W (Option Text)
  simulate_and_decode tx w =
      (ok (decoded (server.simulate_transaction tx w).0), (server.simulate_transaction tx w).1)

  abbrev pub look_again : Exec Text W TxStatus → TxStatus → Exec Text W TxStatus
  look_again rest not_found = modify (server.sleep tx_poll_interval_ms) >> rest
  look_again rest success = pure success
  look_again rest failed = pure failed

  -- `left` is the number of rounds: the time is over after 60 of them, a second each.
  unfoldable pub poll : (left start : ℕ) (hash : Text) → Exec Text W TxStatus
  poll zero start hash w = (err (timed_out hash), w)
  poll (suc left) start hash w =
      let rest = poll left start hash in
      if ltb (server.now w - start) tx_poll_timeout_ms
      then (server.get_transaction hash >>= look_again rest) w
      else (err (timed_out hash), w)

  unfoldable pub poll_transaction_status : Text → Exec Text W TxStatus
  unfolding poll
  poll_transaction_status hash w = poll 60 (server.now w) hash w

  abbrev pub confirmed : Text → TxStatus → Exec Text W Text
  confirmed hash success = pure hash
  confirmed hash failed = throw (tx_failed failed hash)
  confirmed hash not_found = throw (tx_failed not_found hash)

  abbrev pub after_send : Sent → Exec Text W Text
  after_send sent =
      if is_error sent.status
      then throw (rejected sent.text)
      else poll_transaction_status sent.hash >>= confirmed sent.hash

  abbrev pub sign_and_send : Tx → Option Text → Exec Text W Text
  sign_and_send tx none = server.send_transaction (server.sign tx) >>= after_send
  sign_and_send tx (some e) = throw (simulation_failed e)

  abbrev pub simulate_first : Tx → Exec Text W Text
  simulate_first tx = simulate_and_decode tx >>= sign_and_send tx

  abbrev pub with_account : Call → Account → Exec Text W Text
  with_account call account =
      server.prepare_transaction (server.build account call) >>= simulate_first

  unfoldable pub invoke_contract_with_keypair : (public_key : Text) → Call → Exec Text W Text
  invoke_contract_with_keypair public_key call = server.get_account public_key >>= with_account call

abbrev pub deposit_call :
    (pool_id public_key : Text) (value : ℕ) (commitment : List ℕ) (expected_index : ℕ) → Call
deposit_call pool_id public_key value commitment expected_index = record {
  contract_id = pool_id;
  method = codes "deposit";
  args = address public_key ∷ i128 value ∷ bytes commitment ∷ u64 expected_index ∷ [];
}

unfoldable pub invoke_pool_deposit_with_keypair :
    {W Account Tx : Type 0}
    → Server W Account Tx
    → (pool_id public_key : Text) (value : ℕ) (commitment : List ℕ) (expected_index : ℕ)
    → Exec Text W Text
unfolding invoke_contract_with_keypair
invoke_pool_deposit_with_keypair server pool_id public_key value commitment expected_index =
    invoke_contract_with_keypair server public_key
      (deposit_call pool_id public_key value commitment expected_index)
