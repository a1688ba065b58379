-- ===== src/Sdk/WorkerPool/Tests.antt =====
-- sdk/src/prove/worker-pool.ts on a pool of two workers.
use opauque_stellar.Base.{
  ℕ, ◌*◌, ◌<◌, ◌≡◌, ◌≢◌, refl, true, Text, some, List, [], ◌∷◌, count, arith,
}
use opauque_stellar.Base.Exec.{ok}
use opauque_stellar.Sdk.WorkerPool.{
  Flight, Pool, Event, execs, answers, new_pool, run, drain, step, exec, pump, pump_from, answer,
  fire, finish, take_flight,
}
use opauque_stellar.Sdk.WorkerPool.Jobs.{run_proof_jobs}
use opauque_stellar.Sdk.WorkerPool.Moves.{busy, outstanding, done}
use opauque_stellar.Sdk.WorkerPool.Invariant.{IsValid, run-new_pool-IsValid}
use opauque_stellar.Sdk.WorkerPool.Liveness.{drain_lem}
use opauque_stellar.Sdk.WorkerPool.Jobs.Order.{run_proof_jobs_lem}

abbrev workers : List ℕ
workers = 1 ∷ 2 ∷ []

-- Three jobs for two workers, and an answer of the first.
abbrev events : List (Event ℕ ℕ)
events = execs 10 ∷ execs 20 ∷ execs 30 ∷ answers (λ j. j * 2) 1 ∷ []

abbrev first_worker : {J : Type 0} → List (Flight J) → ℕ
first_worker [] = 0
first_worker (f ∷ fs) = f.worker

abbrev pick_first : {J O : Type 0} → Pool J O → ℕ
pick_first p = first_worker p.flights

first_worker-busy :
    {J : Type 0} (fs : List (Flight J)) → fs ≢ [] → 0 < count (first_worker fs) (busy fs)
first_worker-busy [] h = absurd (h refl)
first_worker-busy (f ∷ fs) h = ground arith

pick_first-PicksBusy :
    {J O : Type 0} → (p : Pool J O) → p.flights ≢ [] → 0 < count (pick_first p) (busy p.flights)
pick_first-PicksBusy p h = first_worker-busy p.flights h

reuses : (run (new_pool workers) events).settled ≡ (0, 20) ∷ []
unfolding run step exec pump pump_from answer fire finish take_flight new_pool
reuses = refl

run-new_pool-IsValid_example : IsValid workers (run (new_pool workers) events)
run-new_pool-IsValid_example = run-new_pool-IsValid workers events

drain_lem_example :
    let p = run (new_pool workers) events in
    let q = drain (λ j. j * 2) pick_first (outstanding p) p in
    (q.queue ≡ []) × (q.flights ≡ []) × ((t : ℕ) → t < p.next_ticket → count t (done q.settled) ≡ 1)
drain_lem_example =
    drain_lem workers (λ j. j * 2) pick_first (run (new_pool workers) events) (omega arith)
      pick_first-PicksBusy (run-new_pool-IsValid workers events)

run_proof_jobs_lem_example :
    run_proof_jobs {E = Text} (λ j. ok (j * 2)) true 2 true pick_first (1 ∷ 2 ∷ 3 ∷ [])
    ≡ some (ok (2 ∷ 4 ∷ 6 ∷ []))
run_proof_jobs_lem_example =
    run_proof_jobs_lem (λ j. j * 2) true 2 true pick_first (1 ∷ 2 ∷ 3 ∷ []) pick_first-PicksBusy
