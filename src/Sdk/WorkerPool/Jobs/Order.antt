-- ===== src/Sdk/WorkerPool/Jobs/Order.antt =====
-- sdk/src/prove/worker-pool.ts: the pool gives what proving the jobs one after another gives.
use mathlib.Core.List.{append_assoc, append-nil}
use native.Mathlib.Nat.{zero-add}
use opauque_stellar.Base.{
  ℕ, zero, suc, ◌+◌, ◌<◌, ◌≡◌, refl, sym, ap, subst, ◌∙◌, inl, inr, Bool, Option, none, some, List,
  [], ◌∷◌, ◌++◌, map, count, All, length, length-append, get_elem?, get_elem?-append, ◌==◌, max,
  arith, Bool-cases,
}
use opauque_stellar.Base.Exec.{Result, ok, err}
use opauque_stellar.Sdk.WorkerPool.{Pool, new_pool, exec, exec_all}
use opauque_stellar.Sdk.WorkerPool.Jobs.{
  first_rejection, value_of, values_from, promise_all, run_serial, range, run_pooled,
  run_proof_jobs,
}
use opauque_stellar.Sdk.WorkerPool.Moves.{done, outstanding, exec-Takes}
use opauque_stellar.Sdk.WorkerPool.Outcomes.{IsSettled, IsTracked, drain-IsTracked, exec-IsTracked}
use opauque_stellar.Sdk.WorkerPool.Invariant.{IsValid, new_pool-IsValid, exec-IsValid}
use opauque_stellar.Sdk.WorkerPool.Liveness.{PicksBusy, drain_lem}

module _ {J E R : Type 0} (at : ℕ → Option J) (f : J → R) where
  abbrev Proves : J → Result E R
  Proves j = ok (f j)

  rejection-none :
      (settled : List (ℕ × Result E R))
      → All (IsSettled at Proves) settled
      → first_rejection settled ≡ none
  unfolding first_rejection
  rejection-none [] h = refl
  rejection-none ((t, ok r) ∷ settled) h = rejection-none settled h.1
  rejection-none ((t, err e) ∷ settled) ((j, _, e'), h) = absurd cc

  -- A promise that is settled has the value of its job.
  value_of-settled :
      (t : ℕ) (j : J) (settled : List (ℕ × Result E R))
      → All (IsSettled at Proves) settled
      → at t ≡ some j
      → 0 < count t (done settled)
      → value_of t settled ≡ some (f j)
  unfolding value_of
  value_of-settled t j [] h e l = absurd (omega arith)
  value_of-settled t j ((s, err x) ∷ settled) ((k, _, p), h) e l = absurd cc
  value_of-settled t j ((s, ok r) ∷ settled) ((k, q, p), h) e l = elim (Bool-cases (s == t)) [
    | inl here ↦ rw here (ground (arith, here, q, p, e))
    | inr there ↦ rw there (value_of-settled t j settled h e (ground (arith, there)))
  ]

  values_from-settled :
      (t : ℕ) (jobs : List J) (settled : List (ℕ × Result E R))
      → All (IsSettled at Proves) settled
      → ((i : ℕ) (j : J) → get_elem? jobs i ≡ some j → at (t + i) ≡ some j)
      → ((i : ℕ) → i < length jobs → 0 < count (t + i) (done settled))
      → values_from t (length jobs) settled ≡ some (map f jobs)
  unfolding values_from
  values_from-settled t [] settled h a d = refl
  values_from-settled t (j ∷ jobs) settled h a d =
      rw
        (
          value_of-settled t j settled h (ground (arith, a 0 j refl))
              (ground (arith, d 0 (omega arith))),
          values_from-settled (suc t) jobs settled h
              (λ i k e. subst (λ n. at n ≡ some k) (suc_plus t i) (a (suc i) k e))
              (λ i l.
                subst (λ n. 0 < count n (done settled)) (suc_plus t i) (d (suc i) (omega arith))),
        )
        refl
    where
      suc_plus : (m n : ℕ) → m + suc n ≡ suc m + n
      suc_plus m n = omega arith

module _ {J O : Type 0} where
  -- Handing in jobs makes their promises and keeps the pool in order.
  abbrev Handed : List ℕ → (ℕ → Option J) → (J → O) → ℕ → Pool J O → Type 0
  Handed workers at prove n p = IsValid workers p × IsTracked at prove p × (p.next_ticket ≡ n)

  exec_all-Handed :
      (workers : List ℕ) (prove : J → O) (before jobs : List J) (p : Pool J O)
      → Handed workers (get_elem? (before ++ jobs)) prove (length before) p
      → Handed workers
          (get_elem? (before ++ jobs))
          prove
          (length (before ++ jobs))
          (exec_all jobs p)
  unfolding exec_all
  exec_all-Handed workers prove before [] p (v, k, n) =
      (v, k, n ∙ ap length (sym (append-nil before)))
  exec_all-Handed workers prove before (job ∷ jobs) p (v, k, n) =
      subst (λ l. Handed workers (get_elem? l) prove (length l) (exec_all jobs (exec job p)))
        (append_assoc before (job ∷ []) jobs)
        (exec_all-Handed workers prove (before ++ job ∷ []) jobs (exec job p)
          (exec-IsValid workers job p v, tracked, numbered))
    where
      here : get_elem? ((before ++ job ∷ []) ++ jobs) p.next_ticket ≡ some job
      here =
          ap (λ l. get_elem? l p.next_ticket) (append_assoc before (job ∷ []) jobs)
          ∙ ap (get_elem? (before ++ job ∷ jobs)) n
          ∙ get_elem?-append before job jobs

      tracked : IsTracked (get_elem? ((before ++ job ∷ []) ++ jobs)) prove (exec job p)
      tracked = exec-IsTracked (get_elem? ((before ++ job ∷ []) ++ jobs)) prove job p here (
          subst (λ l. IsTracked (get_elem? l) prove p) (sym (append_assoc before (job ∷ []) jobs))
            k)

      numbered : (exec job p).next_ticket ≡ length (before ++ job ∷ [])
      numbered = omega (arith, (exec-Takes 0 0 job p).3, n, length-append before (job ∷ []))

  new_pool-Handed :
      (workers : List ℕ) (jobs : List J) (prove : J → O) (p : Pool J O)
      → p ≡ new_pool workers
      → Handed workers (get_elem? jobs) prove 0 p
  unfolding new_pool
  new_pool-Handed workers jobs prove p e =
      rw e (new_pool-IsValid {O = O} workers _ refl, (tt, tt, tt), refl)

module _ {J E R : Type 0} where
  run_pooled_lem :
      (f : J → R) (pick : Pool J (Result E R) → ℕ) (size : ℕ) (jobs : List J)
      → 0 < size
      → PicksBusy pick
      → run_pooled (λ j. ok (f j)) pick size jobs ≡ some (ok (map f jobs))
  unfolding run_pooled promise_all
  run_pooled_lem f pick size jobs l b =
      let workers = range 0 size in
      let (v, k, n) =
        exec_all-Handed workers (λ j. ok (f j)) [] jobs (new_pool workers)
          (new_pool-Handed workers jobs (λ j. ok (f j)) (new_pool workers) refl) in
      let p = exec_all jobs (new_pool workers) in
      let tracked = drain-IsTracked (get_elem? jobs) (λ j. ok (f j)) pick (outstanding p) p k in
      let (_, _, once) = drain_lem workers (λ j. ok (f j)) pick p (range_positive size l) b v in
      rw
        (
          rejection-none (get_elem? jobs) f _ tracked.2,
          values_from-settled (get_elem? jobs) f 0 jobs _ tracked.2
              (λ i j e. ap (get_elem? jobs) (zero-add i) ∙ e)
              (λ i lt. ground (arith, once (0 + i), n, lt)),
        )
        refl
    where
      range_positive : (m : ℕ) → 0 < m → 0 < length (range 0 m)
      range_positive zero h = h
      range_positive (suc m) h = omega arith

  run_serial_lem :
      (f : J → R) (jobs : List J) → run_serial {E = E} (λ j. ok (f j)) jobs ≡ ok (map f jobs)
  unfolding run_serial
  run_serial_lem f [] = refl
  run_serial_lem f (j ∷ jobs) = rw (run_serial_lem f jobs) refl

  -- If every job can be proved, all of them are, whatever the options and whichever busy worker answers
  -- next, and the results come in the order of the jobs, those that one proof after another gives.
  pub run_proof_jobs_lem :
      (f : J → R) (pooled : Bool) (size : ℕ) (transport : Bool) (pick : Pool J (Result E R) → ℕ)
      (jobs : List J)
      → PicksBusy pick
      → run_proof_jobs (λ j. ok (f j)) pooled size transport pick jobs ≡ some (ok (map f jobs))
  unfolding run_proof_jobs
  run_proof_jobs_lem f pooled size transport pick [] b = refl
  run_proof_jobs_lem f pooled size transport pick (j ∷ []) b = ap some (run_serial_lem f (j ∷ []))
  run_proof_jobs_lem f pooled size transport pick (j ∷ k ∷ jobs) b = ground (
    arith,
    run_pooled_lem f pick (max 1 size) (j ∷ k ∷ jobs) (omega arith) b,
    run_serial_lem f (j ∷ k ∷ jobs),
  )
