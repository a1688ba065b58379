-- ===== src/Sdk/WorkerPool/Jobs.antt =====
-- runProofJobs with its two paths, and the default number of workers (sdk/src/prove/pool-size.ts).
pub mod Order
use opauque_stellar.Base.{
  ℕ, zero, suc, ◌+◌, ◌-◌, Bool, Option, none, some, List, [], ◌∷◌, max, ◌==◌, if◌then◌else◌, length,
}
use opauque_stellar.Base.Exec.{Result, ok, err}
use opauque_stellar.Sdk.WorkerPool.{Pool, new_pool, drain, exec_all}

-- The workers of a pool.
abbrev pub range : ℕ → ℕ → List ℕ
range from zero = []
range from (suc n) = from ∷ range (suc from) n

abbrev pub cons_some : {R : Type 0} → Option R → Option (List R) → Option (List R)
cons_some (some r) (some rs) = some (r ∷ rs)
cons_some _ _ = none

module _ {E R : Type 0} where
  abbrev cons_ok : R → Result E (List R) → Result E (List R)
  cons_ok r (ok rs) = ok (r ∷ rs)
  cons_ok r (err e) = err e

  -- Promise.all of the promises from `t` on, `n` of them: the first rejection in time, or the values
  -- in the order of the promises; `none` while one of them is pending.
  pub first_rejection : List (ℕ × Result E R) → Option E
  first_rejection [] = none
  first_rejection ((t, ok r) ∷ settled) = first_rejection settled
  first_rejection ((t, err e) ∷ settled) = some e

  pub value_of : ℕ → List (ℕ × Result E R) → Option R
  value_of t [] = none
  value_of t ((s, ok r) ∷ settled) =
      let rest = value_of t settled in if s == t then some r else rest
  value_of t ((s, err e) ∷ settled) = value_of t settled

  pub values_from : ℕ → ℕ → List (ℕ × Result E R) → Option (List R)
  values_from t zero settled = some []
  values_from t (suc n) settled = cons_some (value_of t settled) (values_from (suc t) n settled)

  abbrev pub all_values : Option (List R) → Option (Result E (List R))
  all_values none = none
  all_values (some rs) = some (ok rs)

  abbrev pub reject_or : Option E → Option (List R) → Option (Result E (List R))
  reject_or (some e) rs = some (err e)
  reject_or none rs = all_values rs

  pub promise_all : ℕ → List (ℕ × Result E R) → Option (Result E (List R))
  promise_all n settled = reject_or (first_rejection settled) (values_from 0 n settled)

  module _ {J : Type 0} (prove : J → Result E R) where
    -- One job after another, up to the first that fails.
    abbrev after : Result E R → Result E (List R) → Result E (List R)
    after (ok r) rest = cons_ok r rest
    after (err e) rest = err e

    pub run_serial : List J → Result E (List R)
    run_serial [] = ok []
    run_serial (job ∷ jobs) = after (prove job) (run_serial jobs)

    -- Which busy worker answers next is `pick`.
    pub run_pooled : (Pool J (Result E R) → ℕ) → ℕ → List J → Option (Result E (List R))
    run_pooled pick size jobs =
        let p = exec_all jobs (new_pool (range 0 size)) in
        promise_all (length jobs) (drain prove pick (length p.queue + length p.flights) p).settled

    -- `pooled` is `opts.pool !== false`, `size` the size asked for or the default one, and `transport`
    -- whether a worker runtime is there.
    pub run_proof_jobs :
        (pooled : Bool) (size : ℕ) (transport : Bool)
        → (Pool J (Result E R) → ℕ)
        → List J
        → Option (Result E (List R))
    run_proof_jobs pooled size transport pick [] = some (ok [])
    run_proof_jobs pooled size transport pick (job ∷ []) = some (run_serial (job ∷ []))
    run_proof_jobs pooled size transport pick (job ∷ next ∷ jobs) =
        if pooled
        then (if transport
            then run_pooled pick (max 1 size) (job ∷ next ∷ jobs)
            else some (run_serial (job ∷ next ∷ jobs)))
        else some (run_serial (job ∷ next ∷ jobs))

-- `some n` is a finite number of cores above 0 with its fraction cut off.
pub pool_size_from_core_count : Option ℕ → ℕ
pool_size_from_core_count none = 1
pool_size_from_core_count (some cores) = if cores == 0 then 1 else max 1 (cores - 1)
