-- ===== src/Frontend/PoolSweep/Submitted.antt =====
-- A sweep whose deposits go through invokePoolDepositWithKeypair of frontend/src/lib/programs.ts.
pub mod Messages
pub mod Tests
use mathlib.Core.List.{append_assoc}
use opauque_stellar.Base.{
  ℕ, zero, suc, ◌-◌, ◌≡◌, refl, sym, ap, subst, ◌∙◌, ◌⊎◌, inl, inr, Text, codes, same, same_refl,
  to_lower, Bool, true, false, ◌&&◌, Option, none, some, List, [], ◌∷◌, ◌++◌, ltb, every,
  Bool-cases, if◌then◌else◌, arith,
}
use opauque_stellar.Base.Exec.{
  Result, ok, err, Exec, Result-cases, pure, throw, modify, ◌>>=◌, ◌>>◌, Ends, bind-Ends,
}
use opauque_stellar.Frontend.Submission.{
  Server, Call, Sent, SendStatus, is_error, TxStatus, not_found, success, failed, Simulation, ScVal,
  address, i128, u64, bytes, tx_poll_timeout_ms, timed_out, tx_failed, look_again, poll,
  poll_transaction_status, confirmed, after_send, decoded, simulate_and_decode, sign_and_send,
  simulate_first, with_account, deposit_call, invoke_contract_with_keypair,
  invoke_pool_deposit_with_keypair,
}
use opauque_stellar.Frontend.PoolSweep.{
  Chain, Sweep, PoolConfig, PoolSweepPlan, is_index_race, sweep_stealth_into_pool,
}
use opauque_stellar.Frontend.PoolSweep.Kept.{
  Landed, IsFaithful, Ended, sweep_stealth_into_pool-Ended,
}
use opauque_stellar.Frontend.PoolSweep.Submitted.Messages.{is_hex, timed_out-race, tx_failed-race}

-- The deposits into a pool among calls.
abbrev deposit_in : Text → List ScVal → List Landed
deposit_in method (address key ∷ i128 v ∷ bytes c ∷ u64 i ∷ []) =
    record { value = v; commitment = c; index = i } ∷ []
deposit_in method _ = []

abbrev deposits_of : Text → Call → List Landed
deposits_of pool_id call =
    if same call.contract_id pool_id && same call.method (codes "deposit")
    then deposit_in call.method call.args
    else []

unfoldable pub deposits : Text → List Call → List Landed
deposits pool_id [] = []
deposits pool_id (call ∷ calls) = deposits_of pool_id call ++ deposits pool_id calls

deposits-append :
    (pool_id : Text) (xs ys : List Call)
    → deposits pool_id (xs ++ ys) ≡ deposits pool_id xs ++ deposits pool_id ys
unfolding deposits
deposits-append pool_id [] ys = refl
deposits-append pool_id (x ∷ xs) ys =
    ap (λ zs. deposits_of pool_id x ++ zs) (deposits-append pool_id xs ys)
    ∙ sym (append_assoc (deposits_of pool_id x) (deposits pool_id xs) (deposits pool_id ys))

deposits-deposit_call :
    (pool_id key : Text) (v : ℕ) (c : List ℕ) (i : ℕ)
    → deposits pool_id (deposit_call pool_id key v c i ∷ [])
      ≡ record { value = v; commitment = c; index = i } ∷ []
unfolding deposits
deposits-deposit_call pool_id key v c i = rw (same_refl pool_id) refl

-- The deposits among the calls that were sent.
abbrev pub landed : {W : Type 0} → (W → List Call) → Text → W → List Landed
landed sent pool_id w = deposits pool_id (sent w)

-- The sweep's calls, its deposits being those of programs.ts.
abbrev pub stellar :
    {W Account Tx : Type 0} → Server W Account Tx → (pool_id key : Text) → Chain W → Chain W
stellar server pool_id key chain = record chain {
  deposit = invoke_pool_deposit_with_keypair server pool_id key;
}

module _ {W Account Tx : Type 0} (server : Server W Account Tx) (sent : W → List Call)
    (call_of : Tx → Call) where
  abbrev pub Quiet : {A : Type 0} → Exec Text W A → Type 0
  Quiet {A} m = (w : W) → sent (m w).1 ≡ sent w

  abbrev pub Prepared : Call → Result Text Tx → Type 0
  Prepared call (ok tx) = call_of tx ≡ call
  Prepared call (err e) = Unit

  -- A transaction that is not refused is sent, under a hexadecimal hash; where the answer is lost it
  -- may have been sent, and the error is none of the contract's.
  abbrev pub Delivered : Call → W → Result Text Sent → W → Type 0
  Delivered call w (ok s) t =
      (if is_error s.status then sent t ≡ sent w else (sent t ≡ sent w ++ call ∷ []))
      × (every is_hex (to_lower s.hash) ≡ true)
  Delivered call w (err e) t =
      (sent t ≡ sent w) ⊎ ((is_index_race e ≡ false) × (sent t ≡ sent w ++ call ∷ []))

  abbrev pub NoRace : {A : Type 0} → Result Text A → Type 0
  NoRace {A} (ok a) = Unit
  NoRace {A} (err e) = is_index_race e ≡ false

  -- What the RPC server and the SDK do; `sent` has the calls of the transactions that the network was
  -- given and did not refuse at once.
  pub record IsDocumented : Type 0 where
    pub account_quiet : (key : Text) → Quiet (server.get_account key)
    pub prepare_quiet : (tx : Tx) → Quiet (server.prepare_transaction tx)
    pub simulate_quiet : (tx : Tx) → Quiet (server.simulate_transaction tx)
    pub status_quiet : (hash : Text) → Quiet (server.get_transaction hash)
    pub sleep_quiet : (ms : ℕ) (w : W) → sent (server.sleep ms w) ≡ sent w
    pub build_call : (a : Account) (c : Call) → call_of (server.build a c) ≡ c
    pub prepared : (tx : Tx) (w : W) → Prepared (call_of tx) (server.prepare_transaction tx w).0
    pub sign_call : (tx : Tx) → call_of (server.sign tx) ≡ call_of tx
    pub send : (tx : Tx) (w : W) → Ends (Delivered (call_of tx) w) (server.send_transaction tx w)
    pub status_error : (hash : Text) (w : W) → NoRace (server.get_transaction hash w).0

  -- The state is as far as before, and an error is no index race.
  abbrev Polled : {A : Type 0} → W → Result Text A → W → Type 0
  Polled {A} w r t = (sent t ≡ sent w) × NoRace r

  poll-Polled :
      IsDocumented
      → (left start : ℕ) (hash : Text) → every is_hex (to_lower hash) ≡ true
      → (w : W) → Ends (Polled w) (poll server left start hash w)
  unfolding poll
  poll-Polled doc zero start hash hex w = (refl, timed_out-race hash hex)
  poll-Polled doc (suc left) start hash hex w =
      elim (Bool-cases (ltb (server.now w - start) tx_poll_timeout_ms)) [
        | inl early ↦ rw early (
            bind-Ends (Polled w) (Polled w) (server.get_transaction hash)
              (look_again server (poll server left start hash)) w
              (doc.status_quiet hash w, doc.status_error hash w)
              (look (poll-Polled doc left start hash hex)) (λ e t p. p))
        | inr late ↦ rw late (refl, timed_out-race hash hex)
      ]
    where
      look :
          ((t : W) → Ends (Polled t) (poll server left start hash t))
          → (st : TxStatus) (t : W) → Polled {A = TxStatus} w (ok st) t
          → Ends (Polled w) (look_again server (poll server left start hash) st t)
      look rest not_found t p =
          let r = rest (server.sleep 1_000 t) in (r.0 ∙ doc.sleep_quiet 1_000 t ∙ p.0, r.1)
      look rest success t p = p
      look rest failed t p = p

  -- What a call of a contract comes to: it was sent if it returns; if not it was sent or not, and
  -- an error after it was sent is no index race.
  abbrev pub Called : Call → W → Result Text Text → W → Type 0
  Called call w (ok hash) t = sent t ≡ sent w ++ call ∷ []
  Called call w (err e) t =
      (sent t ≡ sent w) ⊎ ((is_index_race e ≡ false) × (sent t ≡ sent w ++ call ∷ []))

  after_send-Called :
      IsDocumented
      → (call : Call) (w : W) (s : Sent) (t : W) → Delivered call w (ok s) t
      → Ends (Called call w) (after_send server s t)
  unfolding poll_transaction_status
  after_send-Called doc call w s t (d, hex) = elim (Bool-cases (is_error s.status)) [
    | inl refused ↦ rw refused (inl (rw refused at d))
    | inr taken ↦ rw taken (
        bind-Ends (Called call w) (Polled t) (poll_transaction_status server s.hash)
          (confirmed server s.hash) t (poll-Polled doc 60 (server.now t) s.hash hex t)
          (settled (rw taken at d)) (λ e u p. inr (p.1, p.0 ∙ (rw taken at d))))
  ]
    where
      settled :
          sent t ≡ sent w ++ call ∷ []
          → (st : TxStatus) (u : W) → Polled {A = TxStatus} t (ok st) u
          → Ends (Called call w) (confirmed server s.hash st u)
      settled l success u p = p.0 ∙ l
      settled l failed u p = inr (tx_failed-race failed s.hash hex, p.0 ∙ l)
      settled l not_found u p = inr (tx_failed-race not_found s.hash hex, p.0 ∙ l)

  -- What a first step that sends nothing leaves of it.
  Called-Quiet :
      (call : Call) (w t u : W) (r : Result Text Text)
      → sent t ≡ sent w
      → Called call t r u
      → Called call w r u
  Called-Quiet call w t u (ok hash) q c = c ∙ ap (λ x. x ++ call ∷ []) q
  Called-Quiet call w t u (err e) q (inl c) = inl (c ∙ q)
  Called-Quiet call w t u (err e) q (inr (n, c)) = inr (n, c ∙ ap (λ x. x ++ call ∷ []) q)

  sign_and_send-Called :
      IsDocumented
      → (call : Call) (tx : Tx) (failure : Option Text) (w : W) → call_of tx ≡ call
      → Ends (Called call w) (sign_and_send server tx failure w)
  sign_and_send-Called doc call tx (some e) w h = inl refl
  sign_and_send-Called doc call tx none w h =
      bind-Ends (Called call w) (Delivered call w) (server.send_transaction (server.sign tx))
        (after_send server) w
        (subst (λ c. Ends (Delivered c w) (server.send_transaction (server.sign tx) w))
          (doc.sign_call tx ∙ h) (doc.send (server.sign tx) w))
        (after_send-Called doc call w) (λ e t d. d)

  simulate_first-Called :
      IsDocumented
      → (call : Call) (tx : Tx) (w : W) → call_of tx ≡ call
      → Ends (Called call w) (simulate_first server tx w)
  simulate_first-Called doc call tx w h =
      bind-Ends (Called call w) (λ r t. sent t ≡ sent w) (simulate_and_decode server tx)
        (sign_and_send server tx) w (doc.simulate_quiet tx w)
        (λ f t q. Called-Quiet call w t _ _ q (sign_and_send-Called doc call tx f t h))
        (λ e t q. inl q)

  with_account-Called :
      IsDocumented
      → (call : Call) (account : Account) (w : W)
      → Ends (Called call w) (with_account server call account w)
  with_account-Called doc call account w =
      let tx = server.build account call in
      bind-Ends (Called call w) (λ r t. Prepared call r × (sent t ≡ sent w))
        (server.prepare_transaction tx) (simulate_first server) w
        (
          subst (λ c. Prepared c (server.prepare_transaction tx w).0) (doc.build_call account call)
              (doc.prepared tx w),
          doc.prepare_quiet tx w,
        )
        (λ ready t q. Called-Quiet call w t _ _ q.1 (simulate_first-Called doc call ready t q.0))
        (λ e t q. inl q.1)

  -- A call of a contract that returns was sent; one that fails was sent or not, and if it was, its
  -- error is no index race.
  pub invoke_contract_with_keypair-Called :
      IsDocumented
      → (key : Text) (call : Call) (w : W)
      → Ends (Called call w) (invoke_contract_with_keypair server key call w)
  unfolding invoke_contract_with_keypair
  invoke_contract_with_keypair-Called doc key call w =
      bind-Ends (Called call w) (λ r t. sent t ≡ sent w) (server.get_account key)
        (with_account server call) w (doc.account_quiet key w)
        (λ account t q. Called-Quiet call w t _ _ q (with_account-Called doc call account t))
        (λ e t q. inl q)

  module _ (pool_id key : Text) (chain : Chain W) where
    landed-sent :
        (v : ℕ) (c : List ℕ) (i : ℕ) (w t : W)
        → sent t ≡ sent w ++ deposit_call pool_id key v c i ∷ []
        → landed sent pool_id t
          ≡ landed sent pool_id w ++ record { value = v; commitment = c; index = i } ∷ []
    landed-sent v c i w t h =
        ap (deposits pool_id) h
        ∙ deposits-append pool_id (sent w) (deposit_call pool_id key v c i ∷ [])
        ∙ ap (λ x. landed sent pool_id w ++ x) (deposits-deposit_call pool_id key v c i)

    stellar-IsFaithful :
        IsDocumented
        → Quiet chain.fetch_next_leaf_index
        → ((w : W) → sent (chain.new_note_secrets w).1 ≡ sent w)
        → IsFaithful (stellar server pool_id key chain) (landed sent pool_id)
    unfolding invoke_pool_deposit_with_keypair
    stellar-IsFaithful doc fetch secrets = (
      λ w. ap (deposits pool_id) (fetch w),
      λ w. ap (deposits pool_id) (secrets w),
      λ v c i w.
          submitted v c i w
            (invoke_contract_with_keypair server key (deposit_call pool_id key v c i) w).0
            (invoke_contract_with_keypair server key (deposit_call pool_id key v c i) w).1
            (invoke_contract_with_keypair-Called doc key (deposit_call pool_id key v c i) w),
    )
      where
        submitted :
            (v : ℕ) (c : List ℕ) (i : ℕ) (w : W) (r : Result Text Text) (t : W)
            → Called (deposit_call pool_id key v c i) w r t
            → ((hash : Text) × (r ≡ ok hash)
                × (landed sent pool_id t
                    ≡ landed sent pool_id w
                      ++ record { value = v; commitment = c; index = i } ∷ []))
              ⊎ ((e : Text) × (r ≡ err e)
                  × ((landed sent pool_id t ≡ landed sent pool_id w)
                      ⊎ ((is_index_race e ≡ false)
                          × (landed sent pool_id t
                              ≡ landed sent pool_id w
                                ++ record { value = v; commitment = c; index = i } ∷ []))))
        submitted v c i w (ok hash) t l = inl (hash, refl, landed-sent v c i w t l)
        submitted v c i w (err e) t (inl l) = inr (e, refl, inl (ap (deposits pool_id) l))
        submitted v c i w (err e) t (inr (n, l)) = inr (e, refl, inr (n, landed-sent v c i w t l))

    -- With the deposits made through invokePoolDepositWithKeypair, on an RPC server as documented,
    -- and where the read of the leaf index and the drawing of secrets send nothing: whether a
    -- sweep returns or is broken off by an error at any chunk, the deposits that it has sent to
    -- the network are matched one by one, in order, by the notes that were put into the store, but
    -- for one last deposit at most. If the sweep returns, all have their notes, as many as it
    -- reports, and as many hashes; a deposit without a note is that of a submission whose error is
    -- no index race and is what the sweep throws.
    pub sweep_stealth_into_pool-Submitted :
        IsDocumented
        → Quiet chain.fetch_next_leaf_index
        → ((w : W) → sent (chain.new_note_secrets w).1 ≡ sent w)
        → (cfg : Option PoolConfig) (cluster : Text) (plan : PoolSweepPlan) (s : Sweep W)
        → Ends
            (Ended (stellar server pool_id key chain) (landed sent pool_id) s)
            (sweep_stealth_into_pool (stellar server pool_id key chain) cfg cluster plan s)
    sweep_stealth_into_pool-Submitted doc fetch secrets =
        sweep_stealth_into_pool-Ended (stellar server pool_id key chain) (landed sent pool_id)
          (stellar-IsFaithful doc fetch secrets)
