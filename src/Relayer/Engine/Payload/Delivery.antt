-- ===== src/Relayer/Engine/Payload/Delivery.antt =====
-- A delivery keeps every job that the chain shows as accepted by this operator, and not submitted,
-- in the stored queue.
use opauque_stellar.Base.{
  ℕ, ◌+◌, ◌≡◌, inl, inr, refl, sym, subst, ◌∙◌, Text, Bool, true, false, not, Option, none, some,
  same, if◌then◌else◌, to_lower, Option-cases,
}
use opauque_stellar.Base.Dict.{set}
use opauque_stellar.Base.Exec.{
  attempt-Ends, attempt, Result, ok, err, Exec, pure, throw, lift, modify, ◌>>=◌, Ends, bind-Ends,
}
use opauque_stellar.Relayer.Types.{
  JobResult, OnChainJob, AcceptedJobEntry, JobLedgerEntry, EncryptedPayload, Submission,
}
use opauque_stellar.Relayer.Queue.{AcceptedJobQueue, enqueue}
use opauque_stellar.Relayer.Queue.Laws.{HasStore, Saved, enqueue-Saved, enqueue-Keeps}
use opauque_stellar.Relayer.Engine.{
  RelayerEngineConfig, RelayerEngine, call, queued, mark, count, note_rejected, note_declined,
  note_error, record_submission, open_job, has_deadline_headroom, get_job_or_null, notify_settled,
  reconcile_acceptance,
}
use opauque_stellar.Relayer.Engine.Payload.{
  submit_with_retry, accept_or_reconcile, accept_with_intent, accept_matching, accept_payload,
  accept_open, given_or_throw, submit_accepted, settle, process_payload, handle_payload,
  remember_result, remember_under, forget_key, report_failed, reject, deliver, drop_job, mark_as,
  accept_saved, unless_kept, kept_result, Accepted, key_of, intent,
}
use opauque_stellar.Relayer.Engine.Payload.Safety.{
  IsFaithful, Safe, Good, Safe-mark, Safe-resolve, bind-Good, attempt-Good, Preserves-call,
  headroom-Preserves, Done, get_job-Read, get_job_or_null-Preserves, submit_with_retry-Done,
}

module _ {W : Type 0} (bonded : W → Text → Type 0) where
  module _ {P : Type 0} (cfg : RelayerEngineConfig W P) (faithful : IsFaithful bonded cfg) where
    -- As Safe, with the job saved already.
    abbrev pub Ready : Text → RelayerEngine W → Type 0
    Ready j s =
        (q : AcceptedJobQueue) × (s.queue ≡ some q)
        × HasStore q
        × ((k : Text) → bonded s.chain k → Saved k q)
        × Saved (to_lower j) q

    pub still-Ready :
        (j : Text) (q : AcceptedJobQueue) (t : RelayerEngine W)
        → t.queue ≡ some q
        → Saved (to_lower j) q
        → Good bonded t
        → Ready j t
    still-Ready j q t x v (r, y, h, f) =
        let same_queue : some q ≡ some r = sym x ∙ y in
        let e : q ≡ r = cc in (r, y, h, f, subst (Saved (to_lower j)) e v)

    pub get_job_or_null-queue :
        (j : Text) (s : RelayerEngine W) → (get_job_or_null cfg j s).1.queue ≡ s.queue
    unfolding get_job_or_null
    get_job_or_null-queue j s =
        attempt-Ends (λ r t. t.queue ≡ s.queue) (λ r t. t.queue ≡ s.queue)
          (call (cfg.chain.get_job j)) (λ e. pure none) s refl (λ a t x. x) (λ e t x. x)

    enqueue-Ready :
        (e : AcceptedJobEntry) (s : RelayerEngine W)
        → Good bonded s
        → Ends (λ r t. Ready e.job_id t) (queued (enqueue e) s)
    enqueue-Ready e s (q, x, h, g) = rw x (
      enqueue e q,
      refl,
      (enqueue-Keeps e q h).0,
      (λ k b. (enqueue-Keeps e q h).1 k (g k b)),
      enqueue-Saved e q h,
    )

    pub accept_job-Good :
        (j : Text) (s : RelayerEngine W)
        → Ready j s
        → Ends (λ r t. Good bonded t) (call (cfg.chain.accept_job j) s)
    accept_job-Good j s (q, x, h, g, v) = (
      q,
      x,
      h,
      λ k b. elim (faithful.accepts j s.chain k b) [
        | inl old ↦ g k old
        | inr e ↦ subst (λ i. Saved i q) (sym e) v
      ],
    )

    reconcile-Good :
        (j : Text) (s : RelayerEngine W)
        → Good bonded s
        → Ends (λ r t. Good bonded t) (reconcile_acceptance cfg j s)
    unfolding reconcile_acceptance
    reconcile-Good j s g =
        bind-Good bonded (get_job_or_null cfg j) _ s
          (get_job_or_null-Preserves bonded cfg faithful j s g) (λ a t h. h)

    given_or_throw-Good :
        (e : Text) (o : Option Text) (s : RelayerEngine W)
        → Good bonded s
        → Ends (λ r t. Good bonded t) (given_or_throw e o s)
    given_or_throw-Good e none s g = g
    given_or_throw-Good e (some tx) s g = g

    accept_or_reconcile-Good :
        (j : Text) (s : RelayerEngine W)
        → Ready j s
        → Ends (λ r t. Good bonded t) (accept_or_reconcile cfg j s)
    unfolding accept_or_reconcile
    accept_or_reconcile-Good j s r =
        attempt-Good bonded (call (cfg.chain.accept_job j))
          (λ e. reconcile_acceptance cfg j >>= λ o. given_or_throw e o) s (accept_job-Good j s r)
          (λ e t g.
            bind-Good bonded (reconcile_acceptance cfg j) _ t (reconcile-Good j t g)
              (given_or_throw-Good e))

    pub mark-Good :
        (j tx : Text) (s : RelayerEngine W)
        → Good bonded s
        → Ends (λ r t. Good bonded t) (mark j tx s)
    unfolding mark
    mark-Good j tx s g = Safe-mark bonded s.chain s.queue j tx g

    accept_with_intent-Good :
        (j : Text) (p : P) (job : OnChainJob) (s : RelayerEngine W)
        → Good bonded s
        → Ends (λ r t. Good bonded t) (accept_with_intent cfg j p job s)
    unfolding accept_with_intent
    accept_with_intent-Good j p job s g =
        bind-Ends (λ r t. Good bonded t) (λ r t. Ready j t) (queued (enqueue (intent cfg j p job)))
          (λ x. accept_saved cfg j) s (enqueue-Ready (intent cfg j p job) s g)
          (λ x t r.
            bind-Good bonded (accept_or_reconcile cfg j) (mark_as j) t
              (accept_or_reconcile-Good j t r)
              (λ tx u h.
                bind-Good bonded (mark j tx) (λ y. pure tx) u (mark-Good j tx u h) (λ y v i. i)))
          (λ e t (q, x, h, f, v). (q, x, h, f))

    when-Good :
        {A : Type 0} (b : Bool) (m n : Exec Text (RelayerEngine W) A) (s : RelayerEngine W)
        → Ends (λ r t. Good bonded t) (m s)
        → Ends (λ r t. Good bonded t) (n s)
        → Ends (λ r t. Good bonded t) ((if b then m else n) s)
    when-Good true m n s p q = p
    when-Good false m n s p q = q

    accept_matching-Good :
        (j : Text) (p : P) (job : OnChainJob) (s : RelayerEngine W)
        → Good bonded s
        → Ends (λ r t. Good bonded t) (accept_matching cfg j p job s)
    unfolding accept_matching note_declined
    accept_matching-Good j p job s g =
        when-Good (not (same (to_lower (cfg.hash_payload p)) (to_lower job.payload_hash))) _ _ s g (
          bind-Good bonded (has_deadline_headroom cfg job.deadline) _ s
            (headroom-Preserves bonded cfg faithful job.deadline s g)
            λ room t h. when-Good (not room) _ _ t h (
              bind-Good bonded (call (cfg.chain.simulate_pool_withdraw p)) _ t
                (Preserves-call bonded (cfg.chain.simulate_pool_withdraw p) (faithful.simulates p) t
                  h)
                λ y u i.
                  bind-Good bonded (accept_with_intent cfg j p job) _ u
                    (accept_with_intent-Good j p job u i) (λ tx v k. k)))

    open-Good :
        (msg : EncryptedPayload) (p : P) (o : Option OnChainJob) (s : RelayerEngine W)
        → Good bonded s
        → Ends (λ r t. Good bonded t) (accept_open cfg msg.job_id p o s)
    open-Good msg p none s g = g
    open-Good msg p (some job) s g = accept_matching-Good msg.job_id p job s g

    lift-Good :
        {A B : Type 0} (r : Result Text A) (f : A → Exec Text (RelayerEngine W) B)
        (s : RelayerEngine W)
        → Good bonded s
        → ((a : A) → Ends (λ r t. Good bonded t) (f a s))
        → Ends (λ r t. Good bonded t) ((lift r >>= f) s)
    lift-Good (ok a) f s g h = h a
    lift-Good (err e) f s g h = g

    accept_payload-Good :
        (msg : EncryptedPayload) (s : RelayerEngine W)
        → Good bonded s
        → Ends (λ r t. Good bonded t) (accept_payload cfg msg s)
    unfolding accept_payload
    accept_payload-Good msg s g = lift-Good (cfg.decode msg.box msg.job_id) _ s g λ p.
        bind-Good bonded (call (cfg.chain.get_job msg.job_id)) _ s
          (get_job-Read bonded cfg faithful msg.job_id s g).0
          (λ found t h. open-Good msg p (open_job found) t h)

    pub notify-Good :
        (j : Text) (r : JobResult) (s : RelayerEngine W)
        → Good bonded s
        → Ends (λ x t. Good bonded t) (notify_settled cfg j r s)
    unfolding notify_settled note_error
    notify-Good j r s g = elim (Option-cases cfg.on_settled) [
      | inl e ↦ rw e g
      | inr (hook, e) ↦ rw e (
          attempt-Good bonded (call (hook j r)) (λ x. modify (note_error x)) s
            (Preserves-call bonded (hook j r) (faithful.settles hook e j r) s g) (λ x t h. h))
    ]

    pub record_submission-Good :
        (e : JobLedgerEntry) (s : RelayerEngine W)
        → Good bonded s
        → Good bonded (record_submission e s)
    unfolding record_submission
    record_submission-Good e s g = g

    remember-Good :
        (now : ℕ) (r : Submission) (k : Option Text) (s : RelayerEngine W)
        → Good bonded s
        → Good bonded (remember_under now r k s)
    remember-Good now r none s g = g
    remember-Good now r (some k) s g = g

    forget-Good :
        (k : Option Text) (s : RelayerEngine W) → Good bonded s → Good bonded (forget_key k s)
    forget-Good none s g = g
    forget-Good (some k) s g = g

    submit_accepted-Good :
        (msg : EncryptedPayload) (a : Accepted P) (s : RelayerEngine W)
        → Good bonded s
        → Ends (λ r t. Good bonded t) (submit_accepted cfg msg a s)
    unfolding submit_accepted remember_result
    submit_accepted-Good msg a s g =
        bind-Ends (λ r t. Good bonded t) (Done bonded cfg faithful msg.job_id)
          (submit_with_retry cfg msg.job_id a.payload a.job.deadline) _ s
          (submit_with_retry-Done bonded cfg faithful msg.job_id a.payload a.job.deadline s g)
          (λ tx t (h, n).
            bind-Good bonded (notify_settled cfg msg.job_id JobResult.completed) _ _
              (notify-Good msg.job_id JobResult.completed _
                (record_submission-Good _ _ (Safe-resolve bonded t.chain t.queue msg.job_id n h)))
              (λ y u i. remember-Good cfg.now _ (key_of msg) u i))
          (λ e t x. x.0)

    settle-Good :
        (msg : EncryptedPayload) (o : Option (Accepted P)) (s : RelayerEngine W)
        → Good bonded s
        → Ends (λ r t. Good bonded t) (settle cfg msg o s)
    unfolding note_rejected
    settle-Good msg none s g = g
    settle-Good msg (some a) s g =
        attempt-Good bonded (submit_accepted cfg msg a >>= λ r. pure (some r))
          (report_failed cfg msg.job_id) s
          (bind-Good bonded (submit_accepted cfg msg a) _ s (submit_accepted-Good msg a s g)
            (λ r t h. h))
          (λ e t h.
            bind-Good bonded (notify_settled cfg msg.job_id JobResult.failed)
              (λ x. throw {A = Option Submission} e) (note_rejected e t)
              (notify-Good msg.job_id JobResult.failed (note_rejected e t) h) (λ x u i. i))

    deliver-Good :
        (msg : EncryptedPayload) (s : RelayerEngine W)
        → Good bonded s
        → Ends (λ r t. Good bonded t) (deliver cfg msg s)
    unfolding note_rejected
    deliver-Good msg s g =
        bind-Good bonded (attempt (accept_payload cfg msg) reject) (settle cfg msg) s
          (attempt-Good bonded (accept_payload cfg msg) reject s (accept_payload-Good msg s g)
            (λ e t h. h))
          (λ o t h. settle-Good msg o t h)

    process_payload-Good :
        (msg : EncryptedPayload) (s : RelayerEngine W)
        → Good bonded s
        → Ends (λ r t. Good bonded t) (process_payload cfg msg s)
    unfolding process_payload
    process_payload-Good msg s g =
        bind-Good bonded (attempt (deliver cfg msg) (drop_job msg.job_id)) _
          (record s { pending_jobs = set (to_lower msg.job_id) cfg.now s.pending_jobs })
          (attempt-Good bonded (deliver cfg msg) (drop_job msg.job_id) _
            (deliver-Good msg
              (record s { pending_jobs = set (to_lower msg.job_id) cfg.now s.pending_jobs }) g)
            (λ e t h. h))
          (λ r t h. h)

    unless_kept-Good :
        (msg : EncryptedPayload) (o : Option Submission) (s : RelayerEngine W)
        → Good bonded s
        → Ends (λ r t. Good bonded t) (unless_kept cfg msg o s)
    unless_kept-Good msg (some r) s g = g
    unless_kept-Good msg none s g =
        process_payload-Good msg (forget_key (key_of msg) s) (forget-Good (key_of msg) s g)

    -- Whatever becomes of a delivery, returned or thrown: if the queue has a store that has saved every
    -- job which the chain shows as accepted by this operator and not submitted, it has saved every such
    -- job afterwards too.
    pub handle_payload-Safe :
        (msg : EncryptedPayload) (s : RelayerEngine W)
        → Safe bonded s.chain s.queue
        → Ends (λ r t. Safe bonded t.chain t.queue) (handle_payload cfg msg s)
    unfolding handle_payload
    handle_payload-Safe msg s g =
        when-Good (not (same (to_lower msg.to) (to_lower cfg.x25519_public_key))) _ _ _ g (
          unless_kept-Good msg
            (kept_result cfg.now msg
              (count (λ c. record c { payloads_seen = c.payloads_seen + 1 }) s))
            (count (λ c. record c { payloads_seen = c.payloads_seen + 1 }) s) g)
