-- ===== src/Relayer/Queue.antt =====
-- AcceptedJobQueue of relayer/src/job-queue.ts over MemoryAcceptedJobStore of store.ts. `store` is
-- absent for a queue with no store; a store that was never saved to holds `none`.
pub mod Laws
pub mod Entries
pub mod Durable
use opauque_stellar.Base.{
  ℕ, ◌+◌, Text, codes, Bool, true, false, Option, none, some, List, [], ◌∷◌, ◌++◌, length, leb,
  if◌then◌else◌, to_lower,
}
use opauque_stellar.Base.Dict.{get, set, delete, values}
use opauque_stellar.Base.Exec.{Result, ok, err}
use opauque_stellar.Relayer.Types.{AcceptedJobEntry, Phase}

pub record AcceptedJobQueue : Type 0 where
  pub entries : List (Text × AcceptedJobEntry)
  pub loaded : Bool
  pub store : Option (Option (List AcceptedJobEntry))

pub new_queue : Option (Option (List AcceptedJobEntry)) → AcceptedJobQueue
new_queue store = record { entries = []; loaded = false; store = store }

abbrev phase_of : Option Text → Phase
phase_of none = Phase.accepting
phase_of (some []) = Phase.accepting
phase_of (some (c ∷ tx)) = Phase.accepted

-- entry.phase ??= entry.acceptedTx ? "accepted" : "accepting"
unfoldable pub with_phase : AcceptedJobEntry → AcceptedJobEntry
with_phase e = elim e.phase [
  | none ↦ record e { phase = some (phase_of e.accepted_tx) }
  | some p ↦ e
]

abbrev pub insert_by_age : AcceptedJobEntry → List AcceptedJobEntry → List AcceptedJobEntry
insert_by_age e [] = e ∷ []
insert_by_age e (f ∷ es) =
    if leb e.accepted_at f.accepted_at then e ∷ f ∷ es else f ∷ insert_by_age e es

-- A stable sort by the time of acceptance.
unfoldable pub by_age : List AcceptedJobEntry → List AcceptedJobEntry
by_age [] = []
by_age (e ∷ es) = insert_by_age e (by_age es)

unfoldable pub pending : AcceptedJobQueue → List AcceptedJobEntry
unfolding by_age
pending q = by_age (values q.entries)

abbrev saved_by :
    AcceptedJobQueue
    → Option (Option (List AcceptedJobEntry))
    → Option (Option (List AcceptedJobEntry))
saved_by q none = none
saved_by q (some old) = some (some (pending q))

unfoldable pub persist : AcceptedJobQueue → AcceptedJobQueue
persist q = record q { store = saved_by q q.store }

abbrev pub set_all :
    List AcceptedJobEntry → List (Text × AcceptedJobEntry) → List (Text × AcceptedJobEntry)
set_all [] m = m
set_all (e ∷ es) m = set_all es (set (to_lower e.job_id) (with_phase e) m)

abbrev hydrate_from : Option (Option (List AcceptedJobEntry)) → AcceptedJobQueue → AcceptedJobQueue
hydrate_from none q = q
hydrate_from (some none) q = record q { loaded = true }
hydrate_from (some (some es)) q = record q { loaded = true; entries = set_all es q.entries }

unfoldable pub hydrate : AcceptedJobQueue → AcceptedJobQueue
unfolding with_phase
hydrate q = if q.loaded then q else hydrate_from q.store q

unfoldable pub lookup : Text → AcceptedJobQueue → Option AcceptedJobEntry
lookup job_id q = get (to_lower job_id) q.entries

pub size : AcceptedJobQueue → ℕ
size q = length q.entries

unfoldable pub enqueue : AcceptedJobEntry → AcceptedJobQueue → AcceptedJobQueue
unfolding persist with_phase
enqueue e q = persist (record q { entries = set (to_lower e.job_id) (with_phase e) q.entries })

abbrev update :
    Text
    → (AcceptedJobEntry → AcceptedJobEntry)
    → AcceptedJobEntry
    → AcceptedJobQueue
    → AcceptedJobQueue
update job_id f e q = persist (record q { entries = set (to_lower job_id) (f e) q.entries })

abbrev mark_found :
    Text → Text → Option AcceptedJobEntry → AcceptedJobQueue → Result Text AcceptedJobQueue
mark_found job_id tx none q = err (codes "accepted job intent missing: " ++ job_id)
mark_found job_id tx (some e) q =
    ok (update job_id (λ f. record f { accepted_tx = some tx; phase = some Phase.accepted }) e q)

unfoldable pub mark_accepted : Text → Text → AcceptedJobQueue → Result Text AcceptedJobQueue
unfolding lookup persist
mark_accepted job_id tx q = mark_found job_id tx (lookup job_id q) q

unfoldable pub resolve : Text → AcceptedJobQueue → AcceptedJobQueue
unfolding persist
resolve job_id q = persist (record q { entries = delete (to_lower job_id) q.entries })

abbrev fail_found : Text → Text → Option AcceptedJobEntry → AcceptedJobQueue → AcceptedJobQueue
fail_found job_id message none q = q
fail_found job_id message (some e) q =
    update job_id (λ f. record f { attempts = f.attempts + 1; last_error = some message }) e q

unfoldable pub record_failure : Text → Text → AcceptedJobQueue → AcceptedJobQueue
unfolding lookup persist
record_failure job_id message q = fail_found job_id message (lookup job_id q) q
