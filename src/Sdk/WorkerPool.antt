-- ===== src/Sdk/WorkerPool.antt =====
-- WorkerLikePool and runProofJobs of sdk/src/prove/worker-pool.ts, and poolSizeFromCoreCount of
-- sdk/src/prove/pool-size.ts. A worker is a number, a promise is the number of its call. Two listeners
-- with one `settled` flag wait for each dispatched call: they stand in `flights` while the flag is not
-- set, and do nothing afterwards. Messages and errors of a worker are events.
pub mod Moves
pub mod Invariant
pub mod Liveness
pub mod Jobs
pub mod Outcomes
pub mod Tests
use opauque_stellar.Base.{
  ℕ, zero, suc, ◌+◌, ◌-◌, Bool, true, false, Option, none, some, List, [], ◌∷◌, ◌++◌, max, map,
  keep, ◌==◌, if◌then◌else◌, length, ltb, Text,
}

pub record Call (J : Type 0) : Type 0 where
  pub ticket : ℕ
  pub job : J

pub record Flight (J : Type 0) : Type 0 where
  pub worker : ℕ
  pub call : Call J

-- `settled` has what each promise was settled with, in the order of time.
pub record Pool (J O : Type 0) : Type 0 where
  pub idle : List ℕ
  pub queue : List (Call J)
  pub flights : List (Flight J)
  pub settled : List (ℕ × O)
  pub next_ticket : ℕ

-- What happens to a pool: a job is handed in, or a worker answers.
pub data Event (J O : Type 0) : Type 0 where
  execs : J → Event J O
  answers : (J → O) → ℕ → Event J O

abbrev pub Slots : Type 0 → Type 0
Slots J = List ℕ × List (Call J) × List (Flight J)

module _ {J : Type 0} where
  -- The loop of `pump`: each round dispatches the oldest call to the worker idle the longest.
  pub pump_from : List ℕ → List (Call J) → List (Flight J) → Slots J
  pump_from [] queue flights = ([], queue, flights)
  pump_from (w ∷ idle) [] flights = (w ∷ idle, [], flights)
  pump_from (w ∷ idle) (c ∷ queue) flights =
      pump_from idle queue (flights ++ (record { worker = w; call = c } ∷ []))

  abbrev pub found :
      Flight J → Option (Flight J × List (Flight J)) → Option (Flight J × List (Flight J))
  found g none = none
  found g (some (f, rest)) = some (f, g ∷ rest)

  -- The listeners of a call that is not settled, and the others.
  pub take_flight : ℕ → List (Flight J) → Option (Flight J × List (Flight J))
  take_flight t [] = none
  take_flight t (f ∷ fs) =
      let rest = take_flight t fs in if f.call.ticket == t then some (f, fs) else found f rest

module _ {J O : Type 0} where
  -- new WorkerLikePool(workers)
  pub new_pool : List ℕ → Pool J O
  new_pool workers = record {
    idle = workers;
    queue = [];
    flights = [];
    settled = [];
    next_ticket = 0;
  }

  pub pump : Pool J O → Pool J O
  unfolding pump_from
  pump p =
      let (idle, queue, flights) = pump_from p.idle p.queue p.flights in
      record p { idle = idle; queue = queue; flights = flights }

  pub exec : J → Pool J O → Pool J O
  unfolding pump
  exec job p = pump record p {
    queue = p.queue ++ (record { ticket = p.next_ticket; job = job } ∷ []);
    next_ticket = suc p.next_ticket;
  }

  abbrev pub finish_taken : O → Pool J O → Option (Flight J × List (Flight J)) → Pool J O
  finish_taken outcome p none = p
  finish_taken outcome p (some (f, rest)) = pump record p {
    idle = p.idle ++ (f.worker ∷ []);
    flights = rest;
    settled = p.settled ++ ((f.call.ticket, outcome) ∷ []);
  }

  -- The closure `finish` of a call, with what it hands to resolve or reject.
  pub finish : ℕ → O → Pool J O → Pool J O
  unfolding take_flight
  finish t outcome p = finish_taken outcome p (take_flight t p.flights)

  -- An event fires the listeners that were there when it came; what a worker makes of a job is
  -- `prove`.
  pub fire : (J → O) → List (Flight J) → Pool J O → Pool J O
  unfolding finish
  fire prove [] p = p
  fire prove (f ∷ fs) p = fire prove fs (finish f.call.ticket (prove f.call.job) p)

  pub answer : (J → O) → ℕ → Pool J O → Pool J O
  unfolding fire
  answer prove w p = fire prove (keep (λ f. f.worker == w) p.flights) p

  pub step : Pool J O → Event J O → Pool J O
  unfolding exec answer
  step p (execs job) = exec job p
  step p (answers prove w) = answer prove w p

  pub run : Pool J O → List (Event J O) → Pool J O
  unfolding step
  run p [] = p
  run p (e ∷ es) = run (step p e) es

-- `n` answers, each of the worker that `pick` names.
module _ {J O : Type 0} where
  pub drain : (J → O) → (Pool J O → ℕ) → ℕ → Pool J O → Pool J O
  unfolding answer
  drain prove pick zero p = p
  drain prove pick (suc n) p = drain prove pick n (answer prove (pick p) p)

  -- jobs.map((job) => transport.exec(job))
  pub exec_all : List J → Pool J O → Pool J O
  unfolding exec
  exec_all [] p = p
  exec_all (job ∷ jobs) p = exec_all jobs (exec job p)
