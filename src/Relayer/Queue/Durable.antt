-- ===== src/Relayer/Queue/Durable.antt =====
-- AcceptedJobQueue (relayer/src/job-queue.ts) as a durable map: a restart changes nothing.
pub mod Tests
use mathlib.Core.Path.{fun_ext}
use opauque_stellar.Base.{
  ◌+◌, ◌≡◌, refl, ap, ◌∙◌, ◌⊎◌, inl, inr, Text, same, Option, none, some, List, [], ◌∷◌, to_lower,
  if◌then◌else◌, Option-cases,
}
use opauque_stellar.Base.Dict.{get, set, delete, values, get-set, get-delete, get-nil}
use opauque_stellar.Base.Exec.{Result, ok, err}
use opauque_stellar.Relayer.Types.{AcceptedJobEntry, Phase}
use opauque_stellar.Relayer.Queue.{
  AcceptedJobQueue, new_queue, with_phase, by_age, pending, persist, set_all, hydrate, lookup,
  enqueue, mark_accepted, resolve, record_failure,
}
use opauque_stellar.Relayer.Queue.Entries.{
  key_of, HasPhase, Entries, IsWellFormed, set-IsWellFormed, delete-IsWellFormed, get-reloaded,
  get-keyed, with_phase-HasPhase, with_phase-key_of, set_all-IsWellFormed, nil-IsWellFormed,
}

-- The specification: a map from lower-case job ids to entries.
abbrev pub View : Type 0
View = Text → Option AcceptedJobEntry

abbrev pub view : AcceptedJobQueue → View
view q = λ k. get k q.entries

abbrev pub put : Text → AcceptedJobEntry → View → View
put k e v = λ j. if same k j then some e else v j

abbrev pub drop : Text → View → View
drop k v = λ j. if same k j then none else v j

abbrev pub alter :
    Text → (AcceptedJobEntry → AcceptedJobEntry) → Option AcceptedJobEntry → View → View
alter k f none v = v
alter k f (some e) v = put k (f e) v

abbrev pub with_tx : Text → AcceptedJobEntry → AcceptedJobEntry
with_tx tx e = record e { accepted_tx = some tx; phase = some Phase.accepted }

abbrev pub with_error : Text → AcceptedJobEntry → AcceptedJobEntry
with_error message e = record e { attempts = e.attempts + 1; last_error = some message }

-- The calls of the queue, and the end of the process with a new one on the same store.
pub data Op : Type 0 where
  enqueues : AcceptedJobEntry → Op
  marks fails : (job_id text : Text) → Op
  resolves : Text → Op
  restarts : Op

abbrev pub or_same : AcceptedJobQueue → Result Text AcceptedJobQueue → AcceptedJobQueue
or_same q (ok r) = r
or_same q (err e) = q

pub step : AcceptedJobQueue → Op → AcceptedJobQueue
step q (enqueues e) = enqueue e q
step q (marks job_id tx) = or_same q (mark_accepted job_id tx q)
step q (fails job_id message) = record_failure job_id message q
step q (resolves job_id) = resolve job_id q
step q restarts = hydrate (new_queue q.store)

pub spec_step : View → Op → View
spec_step v (enqueues e) = put (key_of e) (with_phase e) v
spec_step v (marks job_id tx) = alter (to_lower job_id) (with_tx tx) (v (to_lower job_id)) v
spec_step v (fails job_id message) =
    alter (to_lower job_id) (with_error message) (v (to_lower job_id)) v
spec_step v (resolves job_id) = drop (to_lower job_id) v
spec_step v restarts = v

pub run : AcceptedJobQueue → List Op → AcceptedJobQueue
run q [] = q
run q (o ∷ os) = run (step q o) os

pub spec_run : View → List Op → View
spec_run v [] = v
spec_run v (o ∷ os) = spec_run (spec_step v o) os

-- Loading the store gives the entries of the queue, or it has never been saved to.
abbrev pub IsStored : AcceptedJobQueue → Type 0
IsStored q =
    ((saved : List AcceptedJobEntry) × (q.store ≡ some (some saved))
      × ((k : Text) → get k (set_all saved []) ≡ get k q.entries))
    ⊎ (q.store ≡ some none) × (q.entries ≡ [])

abbrev pub IsDurable : AcceptedJobQueue → Type 0
IsDurable q = IsWellFormed q.entries × IsStored q

abbrev Refines : AcceptedJobQueue → View → Type 0
Refines q v = IsDurable q × (view q ≡ v)

persist-IsStored :
    (q : AcceptedJobQueue) (m : Entries)
    → IsWellFormed m
    → IsStored q
    → IsStored (persist (record q { entries = m }))
unfolding persist pending
persist-IsStored q m w (inl (saved, e, h)) =
    inl (by_age (values m), rw e refl, λ k. get-reloaded k m w)
persist-IsStored q m w (inr (e, _)) = inl (by_age (values m), rw e refl, λ k. get-reloaded k m w)

write-Refines :
    (q : AcceptedJobQueue) (j : Text) (e : AcceptedJobEntry)
    → key_of e ≡ j
    → HasPhase e
    → IsDurable q
    → Refines (persist (record q { entries = set j e q.entries })) (put j e (view q))
unfolding persist
write-Refines q j e h p (w, s) =
    let w2 = set-IsWellFormed j e q.entries h p w in
    ((w2, persist-IsStored q (set j e q.entries) w2 s), fun_ext λ k. get-set j k e q.entries)

mark-Refines :
    (q : AcceptedJobQueue) (job_id tx : Text)
    → IsDurable q
    → Refines (step q (marks job_id tx)) (spec_step (view q) (marks job_id tx))
unfolding step spec_step mark_accepted lookup
mark-Refines q job_id tx h = elim (Option-cases (lookup job_id q)) [
  | inl e ↦ rw e (h, refl)
  | inr (f, e) ↦ rw e (
      write-Refines q (to_lower job_id) (with_tx tx f)
        (get-keyed (to_lower job_id) q.entries f h.0 e).0 (Phase.accepted, refl) h)
]

fail-Refines :
    (q : AcceptedJobQueue) (job_id message : Text)
    → IsDurable q
    → Refines (step q (fails job_id message)) (spec_step (view q) (fails job_id message))
unfolding step spec_step record_failure lookup
fail-Refines q job_id message h = elim (Option-cases (lookup job_id q)) [
  | inl e ↦ rw e (h, refl)
  | inr (f, e) ↦
      let (k, p) = get-keyed (to_lower job_id) q.entries f h.0 e in
      rw e (write-Refines q (to_lower job_id) (with_error message f) k p h)
]

resolve-Refines :
    (q : AcceptedJobQueue) (job_id : Text)
    → IsDurable q
    → Refines (step q (resolves job_id)) (spec_step (view q) (resolves job_id))
unfolding step spec_step resolve persist
resolve-Refines q job_id (w, s) =
    let w2 = delete-IsWellFormed (to_lower job_id) q.entries w in
    (
      (w2, persist-IsStored q (delete (to_lower job_id) q.entries) w2 s),
      fun_ext λ k. get-delete (to_lower job_id) k q.entries,
    )

enqueue-Refines :
    (q : AcceptedJobQueue) (e : AcceptedJobEntry)
    → IsDurable q
    → Refines (step q (enqueues e)) (spec_step (view q) (enqueues e))
unfolding step spec_step enqueue
enqueue-Refines q e h =
    write-Refines q (key_of e) (with_phase e) (with_phase-key_of e) (with_phase-HasPhase e) h

restart-Refines : (q : AcceptedJobQueue) → IsDurable q → Refines (step q restarts) (view q)
unfolding step hydrate new_queue
restart-Refines q (w, inl (saved, e, h)) =
    rw e ((set_all-IsWellFormed saved [] nil-IsWellFormed, inl (saved, refl, λ k. refl)), fun_ext h)
restart-Refines q (w, inr (e, n)) = rw (e, n) ((nil-IsWellFormed, inr (refl, refl)), refl)

step-Refines :
    (q : AcceptedJobQueue) (o : Op) → IsDurable q → Refines (step q o) (spec_step (view q) o)
unfolding spec_step
step-Refines q (enqueues e) h = enqueue-Refines q e h
step-Refines q (marks job_id tx) h = mark-Refines q job_id tx h
step-Refines q (fails job_id message) h = fail-Refines q job_id message h
step-Refines q (resolves job_id) h = resolve-Refines q job_id h
step-Refines q restarts h = restart-Refines q h

run-Refines :
    (q : AcceptedJobQueue) (os : List Op) → IsDurable q → view (run q os) ≡ spec_run (view q) os
unfolding run spec_run
run-Refines q [] h = refl
run-Refines q (o ∷ os) h =
    let (d, e) = step-Refines q o h in run-Refines (step q o) os d ∙ ap (λ v. spec_run v os) e

-- A queue on a store that was never saved to is a map: after any calls, and any ends of the process in
-- between after which a new queue loads the store, it has under each job id what the same calls leave
-- in a map for which a restart does nothing.
pub run-new_queue : (os : List Op) → view (run (new_queue (some none)) os) ≡ spec_run (λ k. none) os
unfolding new_queue
run-new_queue os =
    run-Refines (new_queue (some none)) os (nil-IsWellFormed, inr (refl, refl))
    ∙ ap (λ v. spec_run v os) (fun_ext get-nil)
