-- ===== src/Frontend/NoteStore/Tests.antt =====
-- frontend/src/store/poolNoteStore.ts on two notes.
use opauque_stellar.Base.{◌+◌, ◌≡◌, refl, codes, true, false, not, none, some, [], ◌∷◌, keep}
use opauque_stellar.Base.Dict.{get, set, values}
use opauque_stellar.Base.Numerals.{to_text, digits}
use opauque_stellar.Frontend.NoteStore.{
  PoolNote, PoolNoteState, note_key, is_same_note, is_blank, add_note, mark_spent, index_from,
  import_all, import_notes, get_for_cluster,
}
use opauque_stellar.Frontend.NoteStore.Laws.{add_note_lem, mark_spent-legacy}
use opauque_stellar.Frontend.NoteStore.Import.{has_spent, import_notes-has_spent}

-- A note that no account owns, and the same under an account, spent.
abbrev legacy : PoolNote
legacy = record {
  cluster = codes "testnet";
  pool_id = none;
  account = none;
  value = codes "10000000";
  scope = 7;
  leaf_index = 3;
  nullifier = codes "11";
  secret = codes "12";
  commitment = codes "0x0d";
  spent = false;
  created_at = 1_700_000_000_000;
}

abbrev owned : PoolNote
owned = record legacy { account = some (codes "GA"); spent = true }

abbrev store : PoolNoteState
store = record { notes = legacy ∷ owned ∷ []; active_account = some (codes "GA") }

added_beside :
    (keep (is_same_note owned) (add_note legacy store).notes ≡ record owned { spent = false } ∷ [])
    × (keep (λ n. not (is_same_note owned n)) (add_note legacy store).notes ≡ legacy ∷ [])
added_beside = add_note_lem legacy store

mark_spent-legacy_example :
    let after = mark_spent (codes "testnet") none 3 store in
    (keep (λ n. is_blank n.account) after.notes ≡ legacy ∷ [])
    × (keep (λ n. is_blank n.account) (get_for_cluster (codes "testnet") after) ≡ legacy ∷ [])
mark_spent-legacy_example =
    mark_spent-legacy (codes "testnet") none 3 b'G' (codes "A") (codes "testnet") store refl

listed : get_for_cluster (codes "testnet") store ≡ legacy ∷ owned ∷ []
unfolding get_for_cluster
listed = refl

import_notes-has_spent_example :
    let (conflict, after) = import_notes (legacy ∷ []) store in
    (has_spent (note_key owned) after.notes ≡ true)
    × (conflict.spent_preserved + conflict.imported ≡ 1)
unfolding note_key to_text digits index_from get set
import_notes-has_spent_example = import_notes-has_spent (note_key owned) (legacy ∷ []) store refl

-- Importing nothing leaves one of two notes that differ in their accounts.
merged : (import_notes [] store).1.notes ≡ owned ∷ []
unfolding import_notes import_all index_from values get set note_key to_text digits
merged = refl
