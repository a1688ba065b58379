-- ===== src/Sdk/WorkerPool/Invariant.antt =====
-- sdk/src/prove/worker-pool.ts: workers and promises are neither lost nor doubled.
use opauque_stellar.Base.{
  ℕ, ◌≡◌, refl, ◌∙◌, ◌⊎◌, inl, inr, List, [], ◌∷◌, count, ltb, if◌then◌else◌, arith, Option-cases,
  keep, ◌==◌,
}
use opauque_stellar.Sdk.WorkerPool.{
  Flight, Pool, take_flight, new_pool, exec, finish, fire, answer, Event, execs, answers, step, run,
}
use opauque_stellar.Sdk.WorkerPool.Moves.{
  workers_at, promises_at, CannotPump, Settles, exec-Takes, finish-Settles,
}

module _ {J O : Type 0} where
  -- What holds of a pool at all times: each worker is idle or busy as often as it was given, each
  -- promise made is waiting, in flight or settled, once, and no call waits while a worker is idle.
  abbrev pub IsValid : List ℕ → Pool J O → Type 0
  IsValid workers p =
      ((w : ℕ) → workers_at w p ≡ count w workers)
      × ((t : ℕ) → promises_at t p ≡ (if ltb t p.next_ticket then 1 else 0))
      × CannotPump p

  pub new_pool-IsValid :
      (workers : List ℕ) (p : Pool J O) → p ≡ new_pool workers → IsValid workers p
  unfolding new_pool
  new_pool-IsValid workers p e = rw e (λ w. omega arith, λ t. ground arith, inr refl)

  pub exec-IsValid :
      (workers : List ℕ) (job : J) (p : Pool J O) → IsValid workers p → IsValid workers (exec job p)
  exec-IsValid workers job p (hw, ht, h) = (
    λ w. (exec-Takes w 0 job p).0 ∙ hw w,
    λ t. ground (arith, exec-Takes 0 t job p, ht t),
    (exec-Takes 0 0 job p).4,
  )

  -- What a finished call does to every count, and to the other parts.
  abbrev pub SettlesAll : Pool J O → Pool J O → Type 0
  SettlesAll p q = (w t : ℕ) → Settles w t p q

  pub finish-SettlesAll :
      (s : ℕ) (o : O) (p : Pool J O) → (finish s o p ≡ p) ⊎ SettlesAll p (finish s o p)
  unfolding finish
  finish-SettlesAll s o p = elim (Option-cases (take_flight s p.flights)) [
    | inl e ↦ inl (rw e refl)
    | inr (r, e) ↦
        inr λ w t. elim (finish-Settles w t s o p) [
          | inl n ↦ absurd (ground (arith, n, e))
          | inr h ↦ h
        ]
  ]

  finish-IsValid :
      (workers : List ℕ) (s : ℕ) (o : O) (p : Pool J O)
      → IsValid workers p
      → IsValid workers (finish s o p)
  finish-IsValid workers s o p (hw, ht, h) = elim (finish-SettlesAll s o p) [
    | inl e ↦ rw e (hw, ht, h)
    | inr k ↦ (λ w. (k w 0).0 ∙ hw w, λ t. ground (arith, k 0 t, ht t), (k 0 0).4)
  ]

  fire-IsValid :
      (workers : List ℕ) (prove : J → O) (fs : List (Flight J)) (p : Pool J O)
      → IsValid workers p
      → IsValid workers (fire prove fs p)
  unfolding fire
  fire-IsValid workers prove [] p h = h
  fire-IsValid workers prove (f ∷ fs) p h =
      fire-IsValid workers prove fs _ (finish-IsValid workers f.call.ticket (prove f.call.job) p h)

  pub answer-IsValid :
      (workers : List ℕ) (prove : J → O) (w : ℕ) (p : Pool J O)
      → IsValid workers p
      → IsValid workers (answer prove w p)
  unfolding answer
  answer-IsValid workers prove w p h =
      fire-IsValid workers prove (keep (λ f. f.worker == w) p.flights) p h

  step-IsValid :
      (workers : List ℕ) (p : Pool J O) (e : Event J O)
      → IsValid workers p
      → IsValid workers (step p e)
  unfolding step
  step-IsValid workers p (execs job) h = exec-IsValid workers job p h
  step-IsValid workers p (answers prove w) h = answer-IsValid workers prove w p h

  pub run-IsValid :
      (workers : List ℕ) (p : Pool J O) (es : List (Event J O))
      → IsValid workers p
      → IsValid workers (run p es)
  unfolding run
  run-IsValid workers p [] h = h
  run-IsValid workers p (e ∷ es) h = run-IsValid workers (step p e) es (step-IsValid workers p e h)

  -- Whatever jobs are handed in and whatever answers come, in any order, each worker stays idle or busy
  -- as often as the pool was given it, each promise made is waiting, in flight or settled, exactly one
  -- of the three and once, and no call waits while a worker is idle.
  pub run-new_pool-IsValid :
      (workers : List ℕ) (es : List (Event J O)) → IsValid workers (run (new_pool workers) es)
  run-new_pool-IsValid workers es =
      run-IsValid workers (new_pool workers) es (new_pool-IsValid workers _ refl)
