-- ===== src/Frontend/NoteStore/Import.antt =====
-- importNotes of frontend/src/store/poolNoteStore.ts: a local spend is never undone.
use opauque_stellar.Base.{
  ℕ, suc, ◌+◌, ◌≡◌, refl, sym, ◌∙◌, Text, same, same→eq, Bool, true, ◌&&◌, not, Option, none, some,
  List, [], ◌∷◌, any, All, length, arith, Bool-cases, inl, inr,
}
use opauque_stellar.Base.Dict.{get, set, values, get-set}
use opauque_stellar.Frontend.NoteStore.{
  PoolNote, PoolNoteState, Index, Merge, note_key, enriched, is_spent, kept_note, index_from,
  merge_at, import_one, import_all, import_notes,
}

-- Every note stands under its own key.
abbrev pub IsKeyed : Index → Type 0
IsKeyed = All (λ p. note_key p.1 ≡ p.0)

get-IsKeyed : (k : Text) (m : Index) (n : PoolNote) → IsKeyed m → get k m ≡ some n → note_key n ≡ k
unfolding get
get-IsKeyed k [] n h e = absurd cc
get-IsKeyed k ((j, v) ∷ m) n h e = ground (arith, same→eq j k, get-IsKeyed k m n h.1, h.0)

set-IsKeyed :
    (k : Text) (v : PoolNote) (m : Index) → note_key v ≡ k → IsKeyed m → IsKeyed (set k v m)
unfolding set
set-IsKeyed k v [] e h = (e, tt)
set-IsKeyed k v ((j, w) ∷ m) e h = elim (Bool-cases (same j k)) [
  | inl here ↦ rw here (e ∙ sym (same→eq j k here), h.1)
  | inr there ↦ rw there (h.0, set-IsKeyed k v m e h.1)
]

index_from-IsKeyed : (ns : List PoolNote) (m : Index) → IsKeyed m → IsKeyed (index_from ns m)
unfolding index_from
index_from-IsKeyed [] m h = h
index_from-IsKeyed (n ∷ ns) m h =
    index_from-IsKeyed ns (set (note_key n) n m) (set-IsKeyed (note_key n) n m refl h)

abbrev counted : Merge → ℕ
counted m = m.conflict.spent_preserved + m.conflict.imported

-- A round keeps the keys and every local spend, and counts its note once.
abbrev Keeps : Text → Merge → Merge → Type 0
Keeps k m q =
    IsKeyed q.by_key
    × (is_spent (get k m.by_key) ≡ true → is_spent (get k q.by_key) ≡ true)
    × (counted q ≡ suc (counted m))

kept_note-key :
    (key : Text) (incoming : PoolNote) (existing : Option PoolNote) (m : Index)
    → IsKeyed m
    → note_key incoming ≡ key
    → get key m ≡ existing
    → note_key (kept_note existing incoming) ≡ key
kept_note-key key incoming none m h e g = e
kept_note-key key incoming (some n) m h e g = ground (arith, get-IsKeyed key m n h g)

is_spent-kept_note :
    (incoming : PoolNote) (existing : Option PoolNote)
    → is_spent existing ≡ true
    → is_spent (some (kept_note existing incoming)) ≡ true
is_spent-kept_note incoming none h = absurd cc
is_spent-kept_note incoming (some n) h = ground arith

merge_at-Keeps :
    (k key : Text) (incoming : PoolNote) (existing : Option PoolNote) (m : Merge)
    → IsKeyed m.by_key
    → note_key incoming ≡ key
    → get key m.by_key ≡ existing
    → Keeps k m (merge_at key incoming existing m)
merge_at-Keeps k key incoming existing m h e g =
    elim (Bool-cases (is_spent existing && not incoming.spent)) [
      | inl skip ↦ rw skip (h, λ s. s, omega arith)
      | inr take_it ↦ rw take_it (
        set-IsKeyed key (kept_note existing incoming) m.by_key
            (kept_note-key key incoming existing m.by_key h e g) h,
        λ s. ground (
          arith,
          get-set key k (kept_note existing incoming) m.by_key,
          same→eq key k,
          g,
          is_spent-kept_note incoming existing,
        ),
        omega arith,
      )
    ]

import_all-Keeps :
    (k : Text) (active : Option Text) (ns : List PoolNote) (m : Merge)
    → IsKeyed m.by_key
    → let q = import_all active ns m in
      IsKeyed q.by_key
      × (is_spent (get k m.by_key) ≡ true → is_spent (get k q.by_key) ≡ true)
      × (counted q ≡ length ns + counted m)
unfolding import_all import_one
import_all-Keeps k active [] m h = (h, λ s. s, omega arith)
import_all-Keeps k active (n ∷ ns) m h =
    let incoming = enriched active n in
    let step = merge_at-Keeps k (note_key incoming) incoming _ m h refl refl in
    let rest = import_all-Keeps k active ns (import_one active n m) step.0 in
    (rest.0, λ s. rest.1 (step.1 s), omega (arith, rest.2, step.2))

-- Whether a list has a spent note of a key.
abbrev pub has_spent : Text → List PoolNote → Bool
has_spent k ns = any (λ n. same (note_key n) k && n.spent) ns

has_spent-values :
    (k : Text) (m : Index) → IsKeyed m → is_spent (get k m) ≡ true → has_spent k (values m) ≡ true
unfolding get values
has_spent-values k [] h s = absurd cc
has_spent-values k ((j, v) ∷ m) h s = elim (Bool-cases (same j k)) [
  | inl here ↦ rw (h.0, here) (ground (arith, here))
  | inr there ↦ ground (arith, there, has_spent-values k m h.1)
]

-- If the last local note of a key is spent, an import of any notes leaves a spent note of that key,
-- and it counts every imported note once, as imported or as a spend preserved.
pub import_notes-has_spent :
    (k : Text) (ns : List PoolNote) (s : PoolNoteState)
    → is_spent (get k (index_from s.notes [])) ≡ true
    → let (conflict, after) = import_notes ns s in
      (has_spent k after.notes ≡ true) × (conflict.spent_preserved + conflict.imported ≡ length ns)
unfolding import_notes
import_notes-has_spent k ns s h =
    let keyed = index_from-IsKeyed s.notes [] tt in
    let q = import_all-Keeps k s.active_account ns _ keyed in
    (has_spent-values k _ q.0 (q.1 h), omega (arith, q.2))
