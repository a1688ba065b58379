-- ===== src/Sdk/Notes/Tests.antt =====
-- sdk/src/crypto/note-codec.ts at concrete notes.
use opauque_stellar.Base.{◌≡◌, refl, codes, true, false, none, some, [], ◌∷◌}
use opauque_stellar.Base.Dict.{get}
use opauque_stellar.Base.Exec.{ok, err}
use opauque_stellar.Sdk.Notes.{
  whole, PoolNote, number, Raw, object, is_finite, decode_at, serialize_note, deserialize_raw,
  deserialize_note, serialize_notes, deserialize_notes, decode_note_json, unsupported_version,
  not_json, ◌>>=◌,
}
use opauque_stellar.Sdk.Notes.Laws.{
  IsFinite, Decodes, deserialize-serialize, deserialize_notes-serialize_notes,
  deserialize_note-Decodes,
}

abbrev legacy : PoolNote
legacy = record {
  cluster = codes "testnet";
  pool_id = none;
  value = codes "10000000";
  scope = whole 7;
  leaf_index = whole 3;
  nullifier = codes "11";
  secret = codes "12";
  commitment = codes "0x0d";
  spent = false;
  created_at = whole 1_700_000_000_000;
}

abbrev pooled : PoolNote
pooled = record legacy { pool_id = some (codes "CPOOL"); spent = true }

finite : IsFinite legacy
unfolding is_finite
finite = (refl, refl, refl)

reads : deserialize_note (object (serialize_note pooled)) ≡ ok pooled
reads = deserialize-serialize pooled finite

deserialize_notes-serialize_notes_example :
    deserialize_notes (serialize_notes (legacy ∷ pooled ∷ [])) ≡ ok (legacy ∷ pooled ∷ [])
deserialize_notes-serialize_notes_example =
    deserialize_notes-serialize_notes (legacy ∷ pooled ∷ []) (finite, (finite, tt))

future :
    deserialize_note (object ((codes "version", number (whole 3)) ∷ []))
    ≡ err (unsupported_version (whole 3))
unfolding deserialize_note deserialize_raw decode_at get ◌>>=◌
future = refl

deserialize_note-Decodes_example :
    (raw : Raw) × (object (serialize_note pooled) ≡ object raw) × Decodes raw pooled
deserialize_note-Decodes_example =
    deserialize_note-Decodes (object (serialize_note pooled)) pooled reads

broken : decode_note_json (λ d. codes "") (λ s. none) (codes "{") ≡ err not_json
unfolding decode_note_json
broken = refl
