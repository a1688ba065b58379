-- ===== src/Relayer/Queue/Entries.antt =====
-- The entries of AcceptedJobQueue (relayer/src/job-queue.ts): each key stands once, under its own
-- entry, so that sorting and loading them again finds the same.
use opauque_stellar.Base.{
  ℕ, suc, ◌≤◌, ◌≡◌, refl, sym, ap, ◌∙◌, ◌⊎◌, inl, inr, Text, same, same→eq, same_refl, true, false,
  Option, none, some, List, [], ◌∷◌, All, to_lower, max, leb, if◌then◌else◌, arith, Bool-cases,
  Option-cases,
}
use opauque_stellar.Base.Dict.{get, set, delete, values, get-set, get-nil}
use opauque_stellar.Relayer.Types.{AcceptedJobEntry, Phase}
use opauque_stellar.Relayer.Queue.{with_phase, by_age, insert_by_age, set_all}

abbrev pub key_of : AcceptedJobEntry → Text
key_of e = to_lower e.job_id

abbrev pub HasPhase : AcceptedJobEntry → Type 0
HasPhase e = (p : Phase) × (e.phase ≡ some p)

with_phase_self : (e : AcceptedJobEntry) → HasPhase e → with_phase e ≡ e
unfolding with_phase
with_phase_self e (p, h) = rw h (ground (arith, h))

abbrev pub Entries : Type 0
Entries = List (Text × AcceptedJobEntry)

-- Each entry stands under its key and has a phase.
abbrev pub IsKeyed : Entries → Type 0
IsKeyed = All (λ p. (key_of p.1 ≡ p.0) × HasPhase p.1)

-- How many entries have a key, and the first of them.
abbrev pub occurrences : Text → List AcceptedJobEntry → ℕ
occurrences k [] = 0
occurrences k (e ∷ es) = if same (key_of e) k then suc (occurrences k es) else occurrences k es

abbrev pub find_key : Text → List AcceptedJobEntry → Option AcceptedJobEntry
find_key k [] = none
find_key k (e ∷ es) = if same (key_of e) k then some e else find_key k es

pub get-find_key : (k : Text) (m : Entries) → IsKeyed m → get k m ≡ find_key k (values m)
unfolding get values
get-find_key k [] h = refl
get-find_key k ((j, e) ∷ m) h = rw (h.0.0) (ground (arith, get-find_key k m h.1))

find_key-insert :
    (k : Text) (e : AcceptedJobEntry) (es : List AcceptedJobEntry)
    → occurrences k (e ∷ es) ≤ 1
    → find_key k (insert_by_age e es) ≡ find_key k (e ∷ es)
find_key-insert k e [] h = refl
find_key-insert k e (f ∷ es) h = elim (Bool-cases (leb e.accepted_at f.accepted_at)) [
  | inl older ↦ rw older refl
  | inr younger ↦ rw younger (ground (arith, find_key-insert k e es))
]

occurrences-insert :
    (k : Text) (e : AcceptedJobEntry) (es : List AcceptedJobEntry)
    → occurrences k (insert_by_age e es) ≡ occurrences k (e ∷ es)
occurrences-insert k e [] = refl
occurrences-insert k e (f ∷ es) = ground (arith, occurrences-insert k e es)

occurrences-by_age :
    (k : Text) (es : List AcceptedJobEntry) → occurrences k (by_age es) ≡ occurrences k es
unfolding by_age
occurrences-by_age k [] = refl
occurrences-by_age k (e ∷ es) =
    occurrences-insert k e (by_age es) ∙ ground (arith, occurrences-by_age k es)

find_key-by_age :
    (k : Text) (es : List AcceptedJobEntry)
    → occurrences k es ≤ 1
    → find_key k (by_age es) ≡ find_key k es
unfolding by_age
find_key-by_age k [] h = refl
find_key-by_age k (e ∷ es) h =
    find_key-insert k e (by_age es) (ground (arith, occurrences-by_age k es))
    ∙ ground (arith, find_key-by_age k es)

find_key-none :
    (k : Text) (es : List AcceptedJobEntry) → occurrences k es ≡ 0 → find_key k es ≡ none
find_key-none k [] h = refl
find_key-none k (e ∷ es) h = ground (arith, find_key-none k es)

abbrev or_else : Option AcceptedJobEntry → Option AcceptedJobEntry → Option AcceptedJobEntry
or_else none b = b
or_else (some a) b = some a

get-set_all :
    (k : Text) (es : List AcceptedJobEntry) (m : Entries)
    → All HasPhase es
    → occurrences k es ≤ 1
    → get k (set_all es m) ≡ or_else (find_key k es) (get k m)
get-set_all k [] m h o = refl
get-set_all k (e ∷ es) m h o =
    get-set_all k es (set (key_of e) (with_phase e) m) h.1 (ground arith)
    ∙ ap (or_else (find_key k es)) (get-set (key_of e) k (with_phase e) m)
    ∙ last_one (Bool-cases (same (key_of e) k))
  where
    absent : occurrences k es ≡ 0 → find_key k es ≡ none
    absent z = find_key-none k es z

    last_one :
        (same (key_of e) k ≡ true) ⊎ (same (key_of e) k ≡ false)
        → or_else (find_key k es) (if same (key_of e) k then some (with_phase e) else get k m)
          ≡ or_else (find_key k (e ∷ es)) (get k m)
    last_one (inl here) = rw (here, absent (ground (arith, here, o)), with_phase_self e h.0) refl
    last_one (inr there) = rw there refl

-- Writing under a key adds at most one entry of that key, and deleting adds none.
occurrences-set :
    (j k : Text) (e : AcceptedJobEntry) (m : Entries)
    → key_of e ≡ j
    → IsKeyed m
    → occurrences k (values (set j e m))
      ≤ max (occurrences k (values m)) (if same j k then 1 else 0)
unfolding set values
occurrences-set j k e [] h keyed = rw h (ground arith)
occurrences-set j k e ((i, f) ∷ m) h keyed = elim (Bool-cases (same i j)) [
  | inl here ↦ rw here (ground (arith, h, keyed.0.0, same→eq i j here))
  | inr there ↦ rw there (
      ground (
        arith,
        keyed.0.0,
        same→eq i k,
        same→eq j k,
        same_refl j,
        occurrences-set j k e m h keyed.1,
      ))
]

occurrences-delete :
    (j k : Text) (m : Entries) → occurrences k (values (delete j m)) ≤ occurrences k (values m)
unfolding delete values
occurrences-delete j k [] = omega arith
occurrences-delete j k ((i, f) ∷ m) = ground (arith, occurrences-delete j k m)

set-IsKeyed :
    (j : Text) (e : AcceptedJobEntry) (m : Entries)
    → key_of e ≡ j
    → HasPhase e
    → IsKeyed m
    → IsKeyed (set j e m)
unfolding set
set-IsKeyed j e [] h p keyed = ((h, p), tt)
set-IsKeyed j e ((i, f) ∷ m) h p keyed = elim (Bool-cases (same i j)) [
  | inl here ↦ rw here ((h ∙ sym (same→eq i j here), p), keyed.1)
  | inr there ↦ rw there (keyed.0, set-IsKeyed j e m h p keyed.1)
]

delete-IsKeyed : (j : Text) (m : Entries) → IsKeyed m → IsKeyed (delete j m)
unfolding delete
delete-IsKeyed j [] h = tt
delete-IsKeyed j ((i, f) ∷ m) h = elim (Bool-cases (same i j)) [
  | inl here ↦ rw here (delete-IsKeyed j m h.1)
  | inr there ↦ rw there (h.0, delete-IsKeyed j m h.1)
]

-- What holds of the entries at all times.
abbrev pub IsWellFormed : Entries → Type 0
IsWellFormed m = IsKeyed m × ((k : Text) → occurrences k (values m) ≤ 1)

pub set-IsWellFormed :
    (j : Text) (e : AcceptedJobEntry) (m : Entries)
    → key_of e ≡ j
    → HasPhase e
    → IsWellFormed m
    → IsWellFormed (set j e m)
set-IsWellFormed j e m h p (keyed, once) =
    (set-IsKeyed j e m h p keyed, λ k. ground (arith, occurrences-set j k e m h keyed, once k))

pub delete-IsWellFormed : (j : Text) (m : Entries) → IsWellFormed m → IsWellFormed (delete j m)
delete-IsWellFormed j m (keyed, once) =
    (delete-IsKeyed j m keyed, λ k. omega (arith, occurrences-delete j k m, once k))

values-HasPhase : (m : Entries) → IsKeyed m → All HasPhase (values m)
unfolding values
values-HasPhase [] h = tt
values-HasPhase ((j, e) ∷ m) h = (h.0.1, values-HasPhase m h.1)

insert-HasPhase :
    (e : AcceptedJobEntry) (es : List AcceptedJobEntry)
    → HasPhase e
    → All HasPhase es
    → All HasPhase (insert_by_age e es)
insert-HasPhase e [] p h = (p, tt)
insert-HasPhase e (f ∷ es) p h = elim (Bool-cases (leb e.accepted_at f.accepted_at)) [
  | inl older ↦ rw older (p, h)
  | inr younger ↦ rw younger (h.0, insert-HasPhase e es p h.1)
]

by_age-HasPhase : (es : List AcceptedJobEntry) → All HasPhase es → All HasPhase (by_age es)
unfolding by_age
by_age-HasPhase [] h = tt
by_age-HasPhase (e ∷ es) h = insert-HasPhase e (by_age es) h.0 (by_age-HasPhase es h.1)

-- Loading what was saved finds under each key what stood there.
pub get-reloaded :
    (k : Text) (m : Entries) → IsWellFormed m → get k (set_all (by_age (values m)) []) ≡ get k m
get-reloaded k m (keyed, once) =
    get-set_all k (by_age (values m)) [] (by_age-HasPhase (values m) (values-HasPhase m keyed))
      (omega (arith, occurrences-by_age k (values m), once k))
    ∙ ap (or_else (find_key k (by_age (values m)))) (get-nil k)
    ∙ or_else-none (find_key k (by_age (values m)))
    ∙ find_key-by_age k (values m) (once k)
    ∙ sym (get-find_key k m keyed)
  where
    or_else-none : (o : Option AcceptedJobEntry) → or_else o none ≡ o
    or_else-none none = refl
    or_else-none (some e) = refl

pub get-keyed :
    (k : Text) (m : Entries) (e : AcceptedJobEntry)
    → IsWellFormed m
    → get k m ≡ some e
    → (key_of e ≡ k) × HasPhase e
unfolding get values
get-keyed k [] e h g = absurd cc
get-keyed k ((j, f) ∷ m) e (keyed, once) g = elim (Bool-cases (same j k)) [
  | inl here ↦ (
    ground (arith, keyed.0.0, here, g, same→eq j k here),
    (keyed.0.1.0, ground (arith, here, g, keyed.0.1.1)),
  )
  | inr there ↦ get-keyed k m e (keyed.1, λ l. at_most l (once l)) (ground (arith, there, g))
]
  where
    at_most : (l : Text) → occurrences l (f ∷ values m) ≤ 1 → occurrences l (values m) ≤ 1
    at_most l h = ground arith

pub with_phase-HasPhase : (e : AcceptedJobEntry) → HasPhase (with_phase e)
unfolding with_phase
with_phase-HasPhase e = elim (Option-cases e.phase) [
  | inl h ↦ rw h (_, refl)
  | inr (p, h) ↦ rw h (p, refl)
]

pub with_phase-key_of : (e : AcceptedJobEntry) → key_of (with_phase e) ≡ key_of e
unfolding with_phase
with_phase-key_of e = ground arith

pub set_phased-IsWellFormed :
    (e : AcceptedJobEntry) (m : Entries)
    → IsWellFormed m
    → IsWellFormed (set (key_of e) (with_phase e) m)
set_phased-IsWellFormed e m =
    set-IsWellFormed (key_of e) (with_phase e) m (with_phase-key_of e) (with_phase-HasPhase e)

pub set_all-IsWellFormed :
    (es : List AcceptedJobEntry) (m : Entries) → IsWellFormed m → IsWellFormed (set_all es m)
set_all-IsWellFormed [] m h = h
set_all-IsWellFormed (e ∷ es) m h =
    set_all-IsWellFormed es (set (key_of e) (with_phase e) m) (set_phased-IsWellFormed e m h)

pub nil-IsWellFormed : IsWellFormed []
unfolding values
nil-IsWellFormed = (tt, λ k. omega arith)
