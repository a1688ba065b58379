-- ===== src/Relayer/Queue/Durable/Tests.antt =====
-- AcceptedJobQueue (relayer/src/job-queue.ts) over a restart.
use opauque_stellar.Base.{◌≡◌, refl, codes, none, some, List, [], ◌∷◌, to_lower}
use opauque_stellar.Base.Dict.{get, set, values}
use opauque_stellar.Relayer.Types.{AcceptedJobEntry, Phase}
use opauque_stellar.Relayer.Queue.{
  new_queue, enqueue, mark_accepted, record_failure, hydrate, persist, pending, by_age, with_phase,
  lookup,
}
use opauque_stellar.Relayer.Queue.Durable.{
  Op, enqueues, marks, fails, restarts, view, step, run, spec_run, run-new_queue,
}

abbrev intent : AcceptedJobEntry
intent = record {
  job_id = codes "0xAB";
  accepted_tx = none;
  phase = none;
  payload = codes "{}";
  deadline = 900;
  fee = 100;
  accepted_at = 5;
  attempts = 0;
  last_error = none;
}

-- An intent is saved, the process ends, the acceptance is confirmed and a submission fails.
abbrev history : List Op
history =
    enqueues intent
    ∷ restarts
    ∷ marks (codes "0xab") (codes "tx")
    ∷ fails (codes "0xab") (codes "busy")
    ∷ restarts
    ∷ []

run-new_queue_example : view (run (new_queue (some none)) history) ≡ spec_run (λ k. none) history
run-new_queue_example = run-new_queue history

recovered :
    view (run (new_queue (some none)) history) (codes "0xab")
    ≡ some record intent {
      accepted_tx = some (codes "tx");
      phase = some Phase.accepted;
      attempts = 1;
      last_error = some (codes "busy");
    }
unfolding run step new_queue enqueue mark_accepted record_failure hydrate persist pending by_age
    with_phase lookup get set values to_lower
recovered = refl
