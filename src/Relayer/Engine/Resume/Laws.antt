-- ===== src/Relayer/Engine/Resume/Laws.antt =====
-- What finishing an entry leaves in the queue.
use opauque_stellar.Base.{
  ◌≡◌, inl, inr, ◌∙◌, Text, codes, Bool, true, false, Option, some, ◌++◌, to_lower, Bool-cases,
}
use opauque_stellar.Base.Exec.{attempt-Ends, Result, ok, err, pure, lift, ◌>>=◌, Ends, bind-Ends}
use opauque_stellar.Relayer.Types.{JobResult, OnChainJob, AcceptedJobEntry}
use opauque_stellar.Relayer.Queue.{AcceptedJobQueue}
use opauque_stellar.Relayer.Queue.Laws.{Saved}
use opauque_stellar.Relayer.Engine.{
  RelayerEngineConfig, RelayerEngine, call, mark, is_submitted, is_accepted_by,
  has_deadline_headroom, get_job_or_null, notify_settled, note_error,
}
use opauque_stellar.Relayer.Engine.Payload.Safety.{
  IsFaithful, Safe, Good, Read, Done, bind-Good, Safe-resolve, headroom-Preserves,
  get_job_or_null-Read, submit_with_retry-Done, record_failure-Preserves,
}
use opauque_stellar.Relayer.Engine.Payload.Delivery.{
  Ready, still-Ready, get_job_or_null-queue, notify-Good, record_submission-Good, mark-Good,
  accept_job-Good,
}
use opauque_stellar.Relayer.Engine.Resume.{
  Outcome, Step, stop, go, needs_accept, is_open, settle_submitted, accept_again, stay_failed,
  accept_intent, first_part, settle_entry, submit_parsed, submit_entry, keep_failed, with_room,
  second_part, resume_from, resume_entry,
}

module _ {W : Type 0} (bonded : W → Text → Type 0) where
  -- Safe, unless the entry is reported as abandoned.
  abbrev pub Kept : Result Text Outcome → RelayerEngine W → Type 0
  Kept (ok Outcome.abandoned) t = Unit
  Kept (ok Outcome.submitted) t = Safe bonded t.chain t.queue
  Kept (ok Outcome.failed) t = Safe bonded t.chain t.queue
  Kept (err e) t = Safe bonded t.chain t.queue

  abbrev KeptStep : Result Text Step → RelayerEngine W → Type 0
  KeptStep (ok (stop o)) t = Kept (ok o) t
  KeptStep (ok (go tx)) t = Safe bonded t.chain t.queue
  KeptStep (err e) t = Safe bonded t.chain t.queue

  Safe→Kept : (r : Result Text Outcome) (t : RelayerEngine W) → Good bonded t → Kept r t
  Safe→Kept (ok Outcome.abandoned) t g = tt
  Safe→Kept (ok Outcome.submitted) t g = g
  Safe→Kept (ok Outcome.failed) t g = g
  Safe→Kept (err e) t g = g

  Safe→KeptStep : (r : Result Text Step) (t : RelayerEngine W) → Good bonded t → KeptStep r t
  Safe→KeptStep (ok (stop o)) t g = Safe→Kept (ok o) t g
  Safe→KeptStep (ok (go tx)) t g = g
  Safe→KeptStep (err e) t g = g

  module _ {P : Type 0} (cfg : RelayerEngineConfig W P) (faithful : IsFaithful bonded cfg) where
    settled-Good :
        (e : AcceptedJobEntry) (t : RelayerEngine W)
        → Good bonded t
        → ¬ bonded t.chain (to_lower e.job_id)
        → Ends (λ r u. Good bonded u) (settle_submitted cfg e t)
    unfolding settle_submitted
    settled-Good e t g n =
        bind-Good bonded (notify_settled cfg e.job_id JobResult.completed) _ _
          (notify-Good bonded cfg faithful e.job_id JobResult.completed _ (
            record_submission-Good bonded cfg faithful _ _
              (Safe-resolve bonded t.chain t.queue e.job_id n g)))
          (λ x u h. h)

    settle_entry-Good :
        (e : AcceptedJobEntry) (a : Option Text) (tx : Text) (t : RelayerEngine W)
        → Good bonded t
        → ¬ bonded t.chain (to_lower e.job_id)
        → Ends (λ r u. Good bonded u) (settle_entry cfg e a tx t)
    settle_entry-Good e a tx t g n =
        bind-Good bonded (notify_settled cfg e.job_id JobResult.completed)
          (λ x. pure Outcome.submitted) _
          (notify-Good bonded cfg faithful e.job_id JobResult.completed _ (
            record_submission-Good bonded cfg faithful _ _
              (Safe-resolve bonded t.chain t.queue e.job_id n g)))
          (λ x u h. h)

    parsed-Done :
        (e : AcceptedJobEntry) (r : Result Text P) (t : RelayerEngine W)
        → Good bonded t
        → Ends (Done bonded cfg faithful e.job_id) ((lift r >>= submit_parsed cfg e) t)
    parsed-Done e (ok p) t g = submit_with_retry-Done bonded cfg faithful e.job_id p e.deadline t g
    parsed-Done e (err x) t g = (g, tt)

    submit_entry-Good :
        (e : AcceptedJobEntry) (a : Option Text) (t : RelayerEngine W)
        → Good bonded t
        → Ends (λ r u. Good bonded u) (submit_entry cfg e a t)
    submit_entry-Good e a t g =
        bind-Ends (λ r u. Good bonded u) (Done bonded cfg faithful e.job_id)
          (lift (cfg.parse e.payload) >>= submit_parsed cfg e) (settle_entry cfg e a) t
          (parsed-Done e (cfg.parse e.payload) t g) (λ tx u x. settle_entry-Good e a tx u x.0 x.1)
          (λ x u y. y.0)

    with_room-Kept :
        (e : AcceptedJobEntry) (a : Option Text) (room : Bool) (t : RelayerEngine W)
        → Good bonded t
        → Ends Kept (with_room cfg e a room t)
    unfolding note_error
    with_room-Kept e a true t g =
        attempt-Ends Kept (λ r u. Good bonded u) (submit_entry cfg e a) keep_failed t
          (submit_entry-Good e a t g) (λ o u h. Safe→Kept (ok o) u h) (λ x u h. h)
    with_room-Kept e a false t g = tt

    second_part-Kept :
        (e : AcceptedJobEntry) (step : Step) (t : RelayerEngine W)
        → KeptStep (ok step) t
        → Ends Kept (second_part cfg e step t)
    second_part-Kept e (stop o) t k = k
    second_part-Kept e (go a) t g =
        bind-Ends Kept (λ r u. Good bonded u) (has_deadline_headroom cfg e.deadline)
          (with_room cfg e a) t (headroom-Preserves bonded cfg faithful e.deadline t g)
          (λ room u h. with_room-Kept e a room u h) (λ x u h. h)

    accept_again-Good :
        (e : AcceptedJobEntry) (t : RelayerEngine W)
        → Ready bonded cfg faithful e.job_id t
        → Ends (λ r u. Good bonded u) (accept_again cfg e t)
    accept_again-Good e t r =
        bind-Good bonded (call (cfg.chain.accept_job e.job_id) >>= mark e.job_id) _ t
          (bind-Good bonded (call (cfg.chain.accept_job e.job_id)) (mark e.job_id) t
            (accept_job-Good bonded cfg faithful e.job_id t r)
            (λ tx u h. mark-Good bonded cfg faithful e.job_id tx u h))
          (λ x u h. h)

    accept_intent-Kept :
        (e : AcceptedJobEntry) (o : Option OnChainJob) (t : RelayerEngine W)
        → Ready bonded cfg faithful e.job_id t
        → Ends KeptStep (accept_intent cfg e o t)
    unfolding accept_intent
    accept_intent-Kept e o t (q, x, h, f, v) = elim (Bool-cases (is_accepted_by cfg.operator o)) [
      | inl b ↦ rw b (
          bind-Ends KeptStep (λ r u. Good bonded u)
            (mark e.job_id (codes "on-chain-accept:" ++ e.job_id)) _ t
            (mark-Good bonded cfg faithful e.job_id _ t (q, x, h, f)) (λ y u g. g) (λ y u g. g))
      | inr b ↦ rw b (elim (Bool-cases (is_open o)) [
        | inl c ↦ rw c (
            attempt-Ends KeptStep (λ r u. Good bonded u) (accept_again cfg e) (stay_failed e) t
              (accept_again-Good e t (q, x, h, f, v)) (λ y u g. Safe→KeptStep (ok y) u g)
              (λ y u g. record_failure-Preserves bonded cfg faithful e.job_id y u g))
        | inr c ↦ rw c tt
      ])
    ]

    resume_from-Kept :
        (e : AcceptedJobEntry) (o : Option OnChainJob) (t : RelayerEngine W)
        → Read bonded cfg faithful e.job_id (ok o) t
        → Ready bonded cfg faithful e.job_id t
        → Ends Kept (resume_from cfg e o t)
    resume_from-Kept e o t x r = elim (Bool-cases (is_submitted o)) [
      | inl b ↦ rw b (Safe→Kept _ _ (settled-Good e t x.0 (x.1 b)))
      | inr b ↦ rw b (
          bind-Ends Kept KeptStep (first_part cfg e o) (second_part cfg e) t (first r)
            (λ step u k. second_part-Kept e step u k) (λ y u g. g))
    ]
      where
        first : Ready bonded cfg faithful e.job_id t → Ends KeptStep (first_part cfg e o t)
        first r = elim (Bool-cases (needs_accept e)) [
          | inl b ↦ rw b (accept_intent-Kept e o t r)
          | inr b ↦ rw b x.0
        ]

    -- Finishing one entry that the queue has saved: if the queue had saved every job which the chain
    -- shows as accepted by this operator and not submitted, it has saved every such job afterwards too,
    -- returned or thrown, unless the entry is reported as abandoned.
    pub resume_entry-Kept :
        (e : AcceptedJobEntry) (q : AcceptedJobQueue) (s : RelayerEngine W)
        → s.queue ≡ some q
        → Saved (to_lower e.job_id) q
        → Safe bonded s.chain s.queue
        → Ends Kept (resume_entry cfg e s)
    unfolding resume_entry
    resume_entry-Kept e q s x v g =
        bind-Ends Kept (λ r t. Read bonded cfg faithful e.job_id r t × (t.queue ≡ s.queue))
          (get_job_or_null cfg e.job_id) (resume_from cfg e) s
          (
            get_job_or_null-Read bonded cfg faithful e.job_id s g,
            get_job_or_null-queue bonded cfg faithful e.job_id s,
          )
          (λ o t (y, z).
            resume_from-Kept e o t y (still-Ready bonded cfg faithful e.job_id q t (z ∙ x) v y.0))
          (λ y u z. z.0.0)
