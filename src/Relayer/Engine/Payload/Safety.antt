-- ===== src/Relayer/Engine/Payload/Safety.antt =====
-- The invariant of a delivery: the stored queue has every job that the chain shows as accepted by
-- this operator and not submitted. Here for the calls of the chain and the submission loop.
use opauque_stellar.Base.{
  ℕ, zero, suc, ◌≡◌, ◌⊎◌, inl, inr, refl, sym, subst, Text, codes, Bool, true, false, Option, none,
  some, ◌++◌, same, if◌then◌else◌, to_lower, Bool-cases, same→eq,
}
use opauque_stellar.Base.Exec.{
  attempt-Ends, attempt, Result, ok, err, Exec, pure, throw, ◌>>=◌, Ends, IfOk, bind-Ends,
}
use opauque_stellar.Relayer.Types.{JobResult, OnChainJob}
use opauque_stellar.Relayer.Queue.{AcceptedJobQueue, resolve, record_failure, mark_accepted}
use opauque_stellar.Relayer.Queue.Laws.{
  HasStore, Saved, Keeps, IfMarked, record_failure-Keeps, mark_accepted-Keeps, resolve-Keeps,
  resolve-HasStore,
}
use opauque_stellar.Relayer.Engine.{
  RelayerEngineConfig, RelayerEngine, call, queued, marked, mark_in, on_queue, is_submitted,
  has_room, has_deadline_headroom, get_job_or_null, try_submit,
}
use opauque_stellar.Relayer.Engine.Payload.{after_failure, submit_from, submit_with_retry}

module _ {W : Type 0} (bonded : W → Text → Type 0) where
  abbrev pub NoMore : W → W → Type 0
  NoMore w w' = (k : Text) → bonded w' k → bonded w k

  -- What the adapter's calls do to the jobs that are accepted by this operator and not submitted,
  -- whether they return or throw: only acceptJob adds one, the job it is called for; a job that is
  -- read as submitted, or whose submission returns, is none.
  pub record IsFaithful {P : Type 0} (cfg : RelayerEngineConfig W P) : Type 0 where
    pub reads_job :
        (j : Text) (w : W)
        → Ends
            (λ r w'.
              NoMore w w' × IfOk (λ o u. is_submitted o ≡ true → ¬ bonded u (to_lower j)) r w')
            (cfg.chain.get_job j w)
    pub reads_ledger : (w : W) → Ends (λ r w'. NoMore w w') (cfg.chain.latest_ledger w)
    pub simulates :
        (p : P) (w : W) → Ends (λ r w'. NoMore w w') (cfg.chain.simulate_pool_withdraw p w)
    pub accepts :
        (j : Text) (w : W)
        → Ends
            (λ r w'. (k : Text) → bonded w' k → bonded w k ⊎ (k ≡ to_lower j))
            (cfg.chain.accept_job j w)
    pub submits :
        (j : Text) (p : P) (w : W)
        → Ends
            (λ r w'. NoMore w w' × IfOk (λ tx u. ¬ bonded u (to_lower j)) r w')
            (cfg.chain.submit_pool_withdraw j p w)
    pub settles :
        (hook : Text → JobResult → Exec Text W (Unit {0}))
        → cfg.on_settled ≡ some hook
        → (j : Text) (r : JobResult) (w : W) → Ends (λ x w'. NoMore w w') (hook j r w)

  -- There is a queue with a store, and it has saved every such job.
  abbrev pub Safe : W → Option AcceptedJobQueue → Type 0
  Safe w o =
      (q : AcceptedJobQueue) × (o ≡ some q) × HasStore q × ((k : Text) → bonded w k → Saved k q)

  abbrev pub Good : RelayerEngine W → Type 0
  Good s = Safe s.chain s.queue

  abbrev pub Preserves : {A : Type 0} → Exec Text (RelayerEngine W) A → Type 0
  Preserves m = (s : RelayerEngine W) → Good s → Ends (λ r t. Good t) (m s)

  pub Safe-less : (w w' : W) (o : Option AcceptedJobQueue) → NoMore w w' → Safe w o → Safe w' o
  Safe-less w w' o n (q, e, h, f) = (q, e, h, λ k b. f k (n k b))

  pub Safe-step :
      (w : W) (o : Option AcceptedJobQueue) (f : AcceptedJobQueue → AcceptedJobQueue)
      → ((q : AcceptedJobQueue) → HasStore q → Keeps q (f q))
      → Safe w o
      → Safe w (on_queue f o)
  Safe-step w o f p (q, e, h, g) = rw e (f q, refl, (p q h).0, λ k b. (p q h).1 k (g k b))

  pub marked-Safe :
      (w : W) (q : AcceptedJobQueue) (r : Result Text AcceptedJobQueue)
      → HasStore q
      → IfMarked q r
      → ((k : Text) → bonded w k → Saved k q)
      → Safe w (marked q r).1
  marked-Safe w q (ok r) h m g = (r, refl, m.0, λ k b. m.1 k (g k b))
  marked-Safe w q (err e) h m g = (q, refl, h, g)

  pub Safe-mark :
      (w : W) (o : Option AcceptedJobQueue) (j tx : Text) → Safe w o → Safe w (mark_in j tx o).1
  Safe-mark w o j tx (q, e, h, g) =
      rw e (marked-Safe w q (mark_accepted j tx q) h (mark_accepted-Keeps j tx q h) g)

  pub Safe-resolve :
      (w : W) (o : Option AcceptedJobQueue) (j : Text)
      → ¬ bonded w (to_lower j)
      → Safe w o
      → Safe w (on_queue (resolve j) o)
  Safe-resolve w o j n (q, e, h, g) = rw e (
    resolve j q,
    refl,
    resolve-HasStore j q h,
    λ k b. elim (Bool-cases (same (to_lower j) k)) [
      | inl t ↦ absurd (n (subst (bonded w) (sym (same→eq (to_lower j) k t)) b))
      | inr f ↦ resolve-Keeps j k q h f (g k b)
    ],
  )

  pub bind-Good :
      {A B : Type 0} (m : Exec Text (RelayerEngine W) A) (f : A → Exec Text (RelayerEngine W) B)
      (s : RelayerEngine W)
      → Ends (λ r t. Good t) (m s)
      → ((a : A) (t : RelayerEngine W) → Good t → Ends (λ r u. Good u) (f a t))
      → Ends (λ r t. Good t) ((m >>= f) s)
  bind-Good m f s p q = bind-Ends (λ r t. Good t) (λ r t. Good t) m f s p q (λ e t h. h)

  pub attempt-Good :
      {A : Type 0} (m : Exec Text (RelayerEngine W) A) (h : Text → Exec Text (RelayerEngine W) A)
      (s : RelayerEngine W)
      → Ends (λ r t. Good t) (m s)
      → ((e : Text) (t : RelayerEngine W) → Good t → Ends (λ r u. Good u) (h e t))
      → Ends (λ r t. Good t) (attempt m h s)
  attempt-Good m h s p q = attempt-Ends (λ r t. Good t) (λ r t. Good t) m h s p (λ a t x. x) q

  pub Preserves-call :
      {A : Type 0} (m : Exec Text W A)
      → ((w : W) → Ends (λ r w'. NoMore w w') (m w))
      → Preserves (call m)
  Preserves-call m n s g = Safe-less s.chain (m s.chain).1 s.queue (n s.chain) g

  module _ {P : Type 0} (cfg : RelayerEngineConfig W P) (faithful : IsFaithful cfg) where
    pub headroom-Preserves : (d : ℕ) → Preserves (has_deadline_headroom cfg d)
    unfolding has_deadline_headroom
    headroom-Preserves d s g =
        attempt-Good (call cfg.chain.latest_ledger >>= λ latest. pure (has_room cfg d latest))
          (λ e. pure true) s
          (bind-Good (call cfg.chain.latest_ledger) _ s
            (Preserves-call cfg.chain.latest_ledger faithful.reads_ledger s g) (λ a t h. h))
          (λ e t h. h)

    -- A job that is read as submitted is not bonded.
    abbrev pub Read : Text → Result Text (Option OnChainJob) → RelayerEngine W → Type 0
    Read j r t = Good t × IfOk (λ o u. is_submitted o ≡ true → ¬ bonded u.chain (to_lower j)) r t

    abbrev pub Done : Text → Result Text Text → RelayerEngine W → Type 0
    Done j r t = Good t × IfOk (λ tx u. ¬ bonded u.chain (to_lower j)) r t

    pub get_job-Read :
        (j : Text) (s : RelayerEngine W) → Good s → Ends (Read j) (call (cfg.chain.get_job j) s)
    get_job-Read j s g = (
      Safe-less s.chain (cfg.chain.get_job j s.chain).1 s.queue (faithful.reads_job j s.chain).0 g,
      lift_read (cfg.chain.get_job j s.chain).0 (faithful.reads_job j s.chain).1,
    )
      where
        lift_read :
            (r : Result Text (Option OnChainJob))
            → IfOk
                (λ o u. is_submitted o ≡ true → ¬ bonded u (to_lower j))
                r
                (cfg.chain.get_job j s.chain).1
            → IfOk
                (λ o u. is_submitted o ≡ true → ¬ bonded u.chain (to_lower j))
                r
                (call (cfg.chain.get_job j) s).1
        lift_read (ok o) h = h
        lift_read (err e) h = tt

    pub null-Read : (j : Text) (t : RelayerEngine W) → Good t → Read j (ok none) t
    unfolding is_submitted
    null-Read j t g = (g, λ h b. cc)

    pub get_job_or_null-Read :
        (j : Text) (s : RelayerEngine W) → Good s → Ends (Read j) (get_job_or_null cfg j s)
    unfolding get_job_or_null
    get_job_or_null-Read j s g =
        attempt-Ends (Read j) (Read j) (call (cfg.chain.get_job j)) (λ e. pure none) s
          (get_job-Read j s g) (λ a t x. x) (λ e t x. null-Read j t x.0)

    pub get_job_or_null-Preserves : (j : Text) → Preserves (get_job_or_null cfg j)
    get_job_or_null-Preserves j s g = (get_job_or_null-Read j s g).0

    pub submit-Done :
        (j : Text) (p : P) (s : RelayerEngine W)
        → Good s
        → Ends (Done j) (call (cfg.chain.submit_pool_withdraw j p) s)
    submit-Done j p s g = (
      Safe-less s.chain (cfg.chain.submit_pool_withdraw j p s.chain).1 s.queue
          (faithful.submits j p s.chain).0 g,
      lift_done (cfg.chain.submit_pool_withdraw j p s.chain).0 (faithful.submits j p s.chain).1,
    )
      where
        lift_done :
            (r : Result Text Text)
            → IfOk
                (λ tx u. ¬ bonded u (to_lower j))
                r
                (cfg.chain.submit_pool_withdraw j p s.chain).1
            → IfOk
                (λ tx u. ¬ bonded u.chain (to_lower j))
                r
                (call (cfg.chain.submit_pool_withdraw j p) s).1
        lift_done (ok o) h = h
        lift_done (err e) h = tt

    pub submit_unless-Done :
        (j : Text) (p : P) (o : Option OnChainJob) (t : RelayerEngine W)
        → Read j (ok o) t
        → Ends (Done j) (
            (if is_submitted o
                then pure (codes "on-chain:" ++ j)
                else call (cfg.chain.submit_pool_withdraw j p))
              t)
    submit_unless-Done j p o t x = elim (Bool-cases (is_submitted o)) [
      | inl e ↦ rw e (x.0, x.1 e)
      | inr e ↦ rw e (submit-Done j p t x.0)
    ]

    pub try_submit-Done :
        (j : Text) (p : P) (s : RelayerEngine W) → Good s → Ends (Done j) (try_submit cfg j p s)
    unfolding try_submit
    try_submit-Done j p s g =
        bind-Ends (Done j) (Read j) (call (cfg.chain.get_job j)) _ s (get_job-Read j s g)
          (λ o t x. submit_unless-Done j p o t x) (λ e t x. (x.0, tt))

    pub record_failure-Preserves : (j e : Text) → Preserves (queued (record_failure j e))
    record_failure-Preserves j e s g =
        Safe-step s.chain s.queue (record_failure j e) (record_failure-Keeps j e) g

    abbrev pub next_attempt :
        ℕ → Text → Option (Exec Text (RelayerEngine W) Text) → Exec Text (RelayerEngine W) Text
    next_attempt d e next = elim next [
      | none ↦ throw e
      | some again ↦ do room ← has_deadline_headroom cfg d; if room then again else throw e
    ]

    -- A loop that is done when it returns.
    abbrev pub AllDone : Text → Option (Exec Text (RelayerEngine W) Text) → Type 0
    AllDone j none = Unit
    AllDone j (some m) = (t : RelayerEngine W) → Good t → Ends (Done j) (m t)

    pub next_attempt-Done :
        (j : Text) (d : ℕ) (e : Text) (next : Option (Exec Text (RelayerEngine W) Text))
        (s : RelayerEngine W)
        → AllDone j next
        → Good s
        → Ends (Done j) (next_attempt d e next s)
    next_attempt-Done j d e none s n g = (g, tt)
    next_attempt-Done j d e (some again) s n g =
        bind-Ends (Done j) (λ r t. Good t) (has_deadline_headroom cfg d) _ s
          (headroom-Preserves d s g) (λ room t h. when_room room t h) (λ x t h. (h, tt))
      where
        when_room :
            (room : Bool) (t : RelayerEngine W)
            → Good t
            → Ends (Done j) ((if room then again else throw e) t)
        when_room true t h = n t h
        when_room false t h = (h, tt)

    pub after_failure-Done :
        (j : Text) (d : ℕ) (e : Text) (next : Option (Exec Text (RelayerEngine W) Text))
        (s : RelayerEngine W)
        → AllDone j next
        → Good s
        → Ends (Done j) (after_failure cfg j d e next s)
    unfolding after_failure
    after_failure-Done j d e next s n g =
        bind-Ends (Done j) (λ r t. Good t) (queued (record_failure j e)) _ s
          (record_failure-Preserves j e s g)
          (λ x t h.
            bind-Ends (Done j) (Read j) (get_job_or_null cfg j) _ t (get_job_or_null-Read j t h)
              (λ o u y. unless_submitted o u y) (λ x u y. (y.0, tt)))
          (λ x t h. (h, tt))
      where
        unless_submitted :
            (o : Option OnChainJob) (t : RelayerEngine W)
            → Read j (ok o) t
            → Ends (Done j) (
                (if is_submitted o then pure (codes "on-chain:" ++ j) else next_attempt d e next) t)
        unless_submitted o t x = elim (Bool-cases (is_submitted o)) [
          | inl f ↦ rw f (x.0, x.1 f)
          | inr f ↦ rw f (next_attempt-Done j d e next t n x.0)
        ]

    pub submit_from-Done :
        (j : Text) (p : P) (d n : ℕ) (s : RelayerEngine W)
        → Good s
        → Ends (Done j) (submit_from cfg j p d n s)
    unfolding submit_from
    submit_from-Done j p d zero s g =
        attempt-Ends (Done j) (Done j) (try_submit cfg j p) (λ e. after_failure cfg j d e none) s
          (try_submit-Done j p s g) (λ a t x. x) (λ e t x. after_failure-Done j d e none t tt x.0)
    submit_from-Done j p d (suc n) s g =
        attempt-Ends (Done j) (Done j) (try_submit cfg j p)
          (λ e. after_failure cfg j d e (some (submit_from cfg j p d n))) s
          (try_submit-Done j p s g) (λ a t x. x)
          (λ e t x.
            after_failure-Done j d e (some (submit_from cfg j p d n)) t (submit_from-Done j p d n)
              x.0)

    pub submit_with_retry-Done :
        (j : Text) (p : P) (d : ℕ) (s : RelayerEngine W)
        → Good s
        → Ends (Done j) (submit_with_retry cfg j p d s)
    unfolding submit_with_retry
    submit_with_retry-Done j p d s g = submit_from-Done j p d _ s g
