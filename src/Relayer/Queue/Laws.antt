-- ===== src/Relayer/Queue/Laws.antt =====
-- What the operations leave in the queue and in its store.
use opauque_stellar.Base.{
  ◌≡◌, inl, inr, refl, Text, false, Option, some, List, same, to_lower, Bool-cases, Option-cases,
}
use opauque_stellar.Base.Dict.{get, set, delete, get-set, get-set_self, get-delete}
use opauque_stellar.Base.Exec.{Result, ok, err}
use opauque_stellar.Relayer.Types.{AcceptedJobEntry}
use opauque_stellar.Relayer.Queue.{
  AcceptedJobQueue, pending, persist, enqueue, resolve, record_failure, mark_accepted, lookup,
  with_phase,
}

abbrev pub HasStore : AcceptedJobQueue → Type 0
HasStore q = (saved : Option (List AcceptedJobEntry)) × (q.store ≡ some saved)

-- The queue has an entry under the key, and its store holds the whole queue.
abbrev pub Saved : Text → AcceptedJobQueue → Type 0
Saved k q =
    (q.store ≡ some (some (pending q))) × (e : AcceptedJobEntry) × (get k q.entries ≡ some e)

-- A step after which nothing that was saved is missing.
abbrev pub Keeps : AcceptedJobQueue → AcceptedJobQueue → Type 0
Keeps q r = HasStore r × ((k : Text) → Saved k q → Saved k r)

persisted :
    (q : AcceptedJobQueue) → HasStore q → (persist q).store ≡ some (some (pending (persist q)))
unfolding persist pending
persisted q (o, e) = rw e refl

persist-HasStore : (q : AcceptedJobQueue) → HasStore q → HasStore (persist q)
persist-HasStore q h = (_, persisted q h)

set-found :
    {V : Type 0} (k j : Text) (v w : V) (m : List (Text × V))
    → get k m ≡ some w
    → (x : V) × (get k (set j v m) ≡ some x)
set-found k j v w m e = elim (Bool-cases (same j k)) [
  | inl t ↦ (v, rw (get-set j k v m, t) refl)
  | inr f ↦ (w, rw (get-set j k v m, f, e) refl)
]

abbrev written : Text → AcceptedJobEntry → AcceptedJobQueue → AcceptedJobQueue
written j e q = record q { entries = set j e q.entries }

write-Saved :
    (j : Text) (e : AcceptedJobEntry) (q : AcceptedJobQueue)
    → HasStore q
    → Saved j (persist (written j e q))
unfolding persist
write-Saved j e q h = (persisted (written j e q) h, e, get-set_self j e q.entries)

write-Keeps :
    (j : Text) (e : AcceptedJobEntry) (q : AcceptedJobQueue)
    → HasStore q
    → Keeps q (persist (written j e q))
unfolding persist
write-Keeps j e q h = (
  persist-HasStore (written j e q) h,
  λ k s.
      let found = set-found k j e s.1 q.entries s.2 in
      (persisted (written j e q) h, found.0, found.1),
)

pub enqueue-Saved :
    (e : AcceptedJobEntry) (q : AcceptedJobQueue)
    → HasStore q
    → Saved (to_lower e.job_id) (enqueue e q)
unfolding enqueue
enqueue-Saved e q h = write-Saved (to_lower e.job_id) (with_phase e) q h

pub enqueue-Keeps :
    (e : AcceptedJobEntry) (q : AcceptedJobQueue) → HasStore q → Keeps q (enqueue e q)
unfolding enqueue
enqueue-Keeps e q h = write-Keeps (to_lower e.job_id) (with_phase e) q h

pub record_failure-Keeps :
    (j message : Text) (q : AcceptedJobQueue) → HasStore q → Keeps q (record_failure j message q)
unfolding record_failure
record_failure-Keeps j message q h = elim (Option-cases (lookup j q)) [
  | inl e ↦ rw e (h, λ k s. s)
  | inr (f, e) ↦ rw e (write-Keeps (to_lower j) _ q h)
]

abbrev pub IfMarked : AcceptedJobQueue → Result Text AcceptedJobQueue → Type 0
IfMarked q (ok r) = Keeps q r
IfMarked q (err e) = Unit

pub mark_accepted-Keeps :
    (j tx : Text) (q : AcceptedJobQueue) → HasStore q → IfMarked q (mark_accepted j tx q)
unfolding mark_accepted
mark_accepted-Keeps j tx q h = elim (Option-cases (lookup j q)) [
  | inl e ↦ rw e tt
  | inr (f, e) ↦ rw e (write-Keeps (to_lower j) _ q h)
]

pub resolve-Keeps :
    (j k : Text) (q : AcceptedJobQueue)
    → HasStore q
    → same (to_lower j) k ≡ false
    → Saved k q
    → Saved k (resolve j q)
unfolding resolve
resolve-Keeps j k q h f s = (
  persisted (record q { entries = delete (to_lower j) q.entries }) h,
  s.1,
  rw (get-delete (to_lower j) k q.entries, f) s.2,
)

pub resolve-HasStore : (j : Text) (q : AcceptedJobQueue) → HasStore q → HasStore (resolve j q)
unfolding resolve
resolve-HasStore j q h = persist-HasStore (record q { entries = delete (to_lower j) q.entries }) h
