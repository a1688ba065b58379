-- ===== src/Frontend/NoteStore.antt =====
-- frontend/src/store/poolNoteStore.ts: the client's pool notes, by account. Persistence and its
-- encryption are left out.
pub mod Laws
pub mod Import
pub mod Tests
use opauque_stellar.Base.{
  ℕ, zero, suc, ◌+◌, Text, codes, same, Bool, true, false, ◌&&◌, ◌||◌, not, Option, none, some,
  List, [], ◌∷◌, ◌++◌, map, keep, length, ◌==◌, if◌then◌else◌,
}
use opauque_stellar.Base.Dict.{get, set, values}
use opauque_stellar.Base.Numerals.{to_text}

pub record PoolNote : Type 0 where
  pub cluster : Text
  pub pool_id : Option Text
  pub account : Option Text
  pub value : Text
  pub scope : ℕ
  pub leaf_index : ℕ
  pub nullifier : Text
  pub secret : Text
  pub commitment : Text
  pub spent : Bool
  pub created_at : ℕ

pub record PoolNoteState : Type 0 where
  pub notes : List PoolNote
  pub active_account : Option Text

pub record ImportConflict : Type 0 where
  pub spent_preserved : ℕ
  pub imported : ℕ

-- `text ?? ""`
abbrev pub or_empty : Option Text → Text
or_empty none = []
or_empty (some s) = s

-- `a ?? b`
abbrev pub or_else : Option Text → Option Text → Option Text
or_else none b = b
or_else (some a) b = some a

pub note_key : PoolNote → Text
note_key n = n.cluster ++ b':' ∷ (or_empty n.pool_id ++ b':' ∷ to_text n.leaf_index)

pub set_active_account : Option Text → PoolNoteState → PoolNoteState
set_active_account account s = record s { active_account = account }

abbrev pub enriched : Option Text → PoolNote → PoolNote
enriched active n = record n { account = or_else n.account active }

-- Two notes of one deposit under one account.
abbrev pub is_same_note : PoolNote → PoolNote → Bool
is_same_note e n =
    same n.cluster e.cluster
    && (same (or_empty n.pool_id) (or_empty e.pool_id)
        && (n.leaf_index == e.leaf_index && same (or_empty n.account) (or_empty e.account)))

unfoldable pub add_note : PoolNote → PoolNoteState → PoolNoteState
add_note note s =
    let e = enriched s.active_account note in
    record s { notes = keep (λ n. not (is_same_note e n)) s.notes ++ (e ∷ []) }

abbrev pub is_marked : Text → Option Text → ℕ → Option Text → PoolNote → Bool
is_marked cluster pool_id leaf_index active n =
    same n.cluster cluster
    && (same (or_empty n.pool_id) (or_empty pool_id)
        && (n.leaf_index == leaf_index && same (or_empty n.account) (or_empty active)))

pub mark_spent : Text → Option Text → ℕ → PoolNoteState → PoolNoteState
mark_spent cluster pool_id leaf_index s = record s {
  notes =
      map
        (λ n.
          if is_marked cluster pool_id leaf_index s.active_account n
          then record n { spent = true }
          else n)
        s.notes;
}

-- A text that is missing or empty counts as no account.
abbrev pub is_blank : Option Text → Bool
is_blank none = true
is_blank (some []) = true
is_blank (some (c ∷ s)) = false

abbrev pub is_visible : Option Text → PoolNote → Bool
is_visible active n =
    is_blank active || (is_blank n.account || same (or_empty n.account) (or_empty active))

pub get_for_cluster : Text → PoolNoteState → List PoolNote
get_for_cluster cluster s =
    keep (λ n. same n.cluster cluster && is_visible s.active_account n) s.notes

pub export_notes : PoolNoteState → List PoolNote
export_notes s = keep (is_visible s.active_account) s.notes

abbrev pub Index : Type 0
Index = List (Text × PoolNote)

-- The map seeded with the notes that are there.
pub index_from : List PoolNote → Index → Index
index_from [] by_key = by_key
index_from (n ∷ ns) by_key = index_from ns (set (note_key n) n by_key)

pub record Merge : Type 0 where
  pub by_key : Index
  pub conflict : ImportConflict

abbrev pub is_spent : Option PoolNote → Bool
is_spent none = false
is_spent (some n) = n.spent

abbrev pub kept_note : Option PoolNote → PoolNote → PoolNote
kept_note none incoming = incoming
kept_note (some n) incoming = if n.spent then n else incoming

-- One round of the loop: `existing` is the local note of that key.
abbrev pub merge_at : Text → PoolNote → Option PoolNote → Merge → Merge
merge_at key incoming existing m =
    if is_spent existing && not incoming.spent
    then record m {
      conflict = record (m.conflict) { spent_preserved = suc m.conflict.spent_preserved };
    }
    else record {
      by_key = set key (kept_note existing incoming) m.by_key;
      conflict = record (m.conflict) { imported = suc m.conflict.imported };
    }

pub import_one : Option Text → PoolNote → Merge → Merge
import_one active raw m =
    let incoming = enriched active raw in
    let key = note_key incoming in merge_at key incoming (get key m.by_key) m

pub import_all : Option Text → List PoolNote → Merge → Merge
import_all active [] m = m
import_all active (n ∷ ns) m = import_all active ns (import_one active n m)

pub import_notes : List PoolNote → PoolNoteState → ImportConflict × PoolNoteState
import_notes ns s =
    let m = import_all s.active_account ns record {
      by_key = index_from s.notes [];
      conflict = record { spent_preserved = 0; imported = 0 };
    } in
    (m.conflict, record s { notes = values m.by_key })

-- Whether `clear` leaves a note: one of another account, or of another cluster than the one named.
abbrev is_left : Option Text → Option Text → PoolNote → Bool
is_left active cluster n =
    (not (is_blank active)
      && (not (is_blank n.account) && not (same (or_empty n.account) (or_empty active))))
    || (not (is_blank cluster) && not (same n.cluster (or_empty cluster)))

pub clear : (all_accounts : Bool) → Option Text → PoolNoteState → PoolNoteState
clear all_accounts cluster s =
    if all_accounts
    then record s { notes = [] }
    else record s { notes = keep (is_left s.active_account cluster) s.notes }
