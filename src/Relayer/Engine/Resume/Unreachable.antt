-- ===== src/Relayer/Engine/Resume/Unreachable.antt =====
-- What a chain that cannot be read on boot does to an entry.
use opauque_stellar.Base.{◌≡◌, refl, Text, true, Option, none, some}
use opauque_stellar.Base.Dict.{get-delete_self}
use opauque_stellar.Base.Exec.{Result, ok, err}
use opauque_stellar.Relayer.Types.{AcceptedJobEntry, OnChainJob}
use opauque_stellar.Relayer.Queue.{AcceptedJobQueue, resolve, lookup}
use opauque_stellar.Relayer.Engine.{
  RelayerEngineConfig, RelayerEngine, get_job_or_null, is_submitted, is_accepted_by,
}
use opauque_stellar.Relayer.Engine.Resume.{
  Outcome, needs_accept, is_open, accept_intent, resume_entry,
}

resolved-lookup : (j : Text) (q : AcceptedJobQueue) → lookup j (resolve j q) ≡ none
unfolding resolve lookup
resolved-lookup j q = get-delete_self _ q.entries

caught-none :
    {S : Type 0} (r : Result Text (Option OnChainJob)) (t : S) (message : Text)
    → r ≡ err message
    → ◌≡◌ {A = Result Text (Option OnChainJob) × S}
        (elim r [ ok a ↦ (ok a, t) | err e ↦ (ok none, t) ])
        (ok none, t)
caught-none (ok a) t message h = absurd cc
caught-none (err e) t message h = refl

unread :
    {W P : Type 0} (cfg : RelayerEngineConfig W P) (j : Text) (s : RelayerEngine W) (message : Text)
    → (cfg.chain.get_job j s.chain).0 ≡ err message
    → get_job_or_null cfg j s ≡ (ok none, record s { chain = (cfg.chain.get_job j s.chain).1 })
unfolding get_job_or_null
unread cfg j s message h = caught-none (cfg.chain.get_job j s.chain).0 _ message h

-- If the job of an entry whose acceptance is not known to have landed cannot be read, because the
-- call throws, the entry is reported as abandoned and is in the queue no more, whatever the chain
-- holds.
pub resume_entry_unreachable :
    {W P : Type 0} (cfg : RelayerEngineConfig W P) (e : AcceptedJobEntry) (q : AcceptedJobQueue)
    (s : RelayerEngine W) (message : Text)
    → s.queue ≡ some q
    → needs_accept e ≡ true
    → (cfg.chain.get_job e.job_id s.chain).0 ≡ err message
    → ((resume_entry cfg e s).0 ≡ ok Outcome.abandoned)
      × ((resume_entry cfg e s).1.queue ≡ some (resolve e.job_id q))
      × (lookup e.job_id (resolve e.job_id q) ≡ none)
unfolding resume_entry is_submitted is_accepted_by is_open accept_intent
resume_entry_unreachable cfg e q s message x n h =
    rw (unread cfg e.job_id s message h, n, x) (refl, refl, resolved-lookup e.job_id q)
