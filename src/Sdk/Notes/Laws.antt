-- ===== src/Sdk/Notes/Laws.antt =====
-- sdk/src/crypto/note-codec.ts: serialized notes are read back, and no unknown version is decoded.
use opauque_stellar.Base.{
  ◌≡◌, refl, ap, ◌⊎◌, inl, inr, Text, codes, Bool, true, Option, none, some, List, [], ◌∷◌, All,
  arith, zero, suc,
}
use opauque_stellar.Base.Dict.{get}
use opauque_stellar.Base.Exec.{Result, ok, err}
use opauque_stellar.Sdk.Notes.{
  Number, whole, PoolNote, Value, string, number, boolean, object, null, undefined, other, Raw,
  field, is_finite, require_string, require_number, require_boolean, decode_v1, decode_v2,
  decode_at, serialize_note, deserialize_raw, deserialize_note, serialize_notes, deserialize_notes,
  NoteSchemaError, Data, no_object, ◌>>=◌, version_of, as_string, as_number, as_boolean,
}

-- The three numbers of a note are finite.
abbrev pub IsFinite : PoolNote → Type 0
IsFinite n =
    (is_finite n.scope ≡ true) × (is_finite n.leaf_index ≡ true) × (is_finite n.created_at ≡ true)

deserialize_with_id :
    (n : PoolNote) (id : Option Text)
    → IsFinite n
    → n.pool_id ≡ id
    → deserialize_note (object (serialize_note n)) ≡ ok n
unfolding deserialize_note serialize_note deserialize_raw decode_at decode_v1 decode_v2
    require_string require_number require_boolean get ◌>>=◌
deserialize_with_id n none (h, k, l) e = rw (e, h, k, l) (ap ok (ground arith))
deserialize_with_id n (some id) (h, k, l) e = rw (e, h, k, l) (ap ok (ground arith))

-- A note with finite numbers, with a pool or without, is read back from its serialized object.
pub deserialize-serialize :
    (n : PoolNote) → IsFinite n → deserialize_note (object (serialize_note n)) ≡ ok n
deserialize-serialize n h = deserialize_with_id n n.pool_id h refl

-- The same for a batch: the notes come back in their order.
pub deserialize_notes-serialize_notes :
    (ns : List PoolNote) → All IsFinite ns → deserialize_notes (serialize_notes ns) ≡ ok ns
unfolding deserialize_notes serialize_notes ◌>>=◌
deserialize_notes-serialize_notes [] h = refl
deserialize_notes-serialize_notes (n ∷ ns) h =
    rw (deserialize-serialize n h.0, deserialize_notes-serialize_notes ns h.1) refl

bind_ok :
    {A B : Type 0} (m : Result NoteSchemaError A) (f : A → Result NoteSchemaError B) (b : B)
    → (m >>= f) ≡ ok b
    → (a : A) × (m ≡ ok a) × (f a ≡ ok b)
unfolding ◌>>=◌
bind_ok (ok a) f b h = (a, refl, h)
bind_ok (err e) f b h = absurd cc

as_string_ok : (key : Text) (v : Value) (s : Text) → as_string key v ≡ ok s → v ≡ string s
as_string_ok key (string t) s h = ground arith
as_string_ok key (number n) s h = absurd cc
as_string_ok key (boolean b) s h = absurd cc
as_string_ok key null s h = absurd cc
as_string_ok key undefined s h = absurd cc
as_string_ok key other s h = absurd cc

as_number_ok :
    (key : Text) (v : Value) (n : Number)
    → as_number key v ≡ ok n
    → (v ≡ number n) × (is_finite n ≡ true)
as_number_ok key (number m) n h = ground arith
as_number_ok key (string t) n h = absurd cc
as_number_ok key (boolean b) n h = absurd cc
as_number_ok key null n h = absurd cc
as_number_ok key undefined n h = absurd cc
as_number_ok key other n h = absurd cc

as_boolean_ok : (key : Text) (v : Value) (b : Bool) → as_boolean key v ≡ ok b → v ≡ boolean b
as_boolean_ok key (boolean c) b h = ground arith
as_boolean_ok key (string t) b h = absurd cc
as_boolean_ok key (number n) b h = absurd cc
as_boolean_ok key null b h = absurd cc
as_boolean_ok key undefined b h = absurd cc
as_boolean_ok key other b h = absurd cc

-- The note has what stands in the object.
abbrev pub Agrees : Raw → PoolNote → Type 0
Agrees raw n =
    (field raw (codes "cluster") ≡ string n.cluster)
    × (field raw (codes "value") ≡ string n.value)
    × (field raw (codes "scope") ≡ number n.scope)
    × (field raw (codes "leafIndex") ≡ number n.leaf_index)
    × (field raw (codes "nullifier") ≡ string n.nullifier)
    × (field raw (codes "secret") ≡ string n.secret)
    × (field raw (codes "commitment") ≡ string n.commitment)
    × (field raw (codes "spent") ≡ boolean n.spent)
    × (field raw (codes "createdAt") ≡ number n.created_at)
    × IsFinite n

decode_v1-Agrees :
    (raw : Raw) (n : PoolNote) → decode_v1 raw ≡ ok n → Agrees raw n × (n.pool_id ≡ none)
unfolding decode_v1 require_string require_number require_boolean
decode_v1-Agrees raw n h =
    let (cluster, e1, h1) = bind_ok _ _ n h in
    let (value, e2, h2) = bind_ok _ _ n h1 in
    let (scope, e3, h3) = bind_ok _ _ n h2 in
    let (leaf_index, e4, h4) = bind_ok _ _ n h3 in
    let (nullifier, e5, h5) = bind_ok _ _ n h4 in
    let (secret, e6, h6) = bind_ok _ _ n h5 in
    let (commitment, e7, h7) = bind_ok _ _ n h6 in
    let (spent, e8, h8) = bind_ok _ _ n h7 in
    let (created_at, e9, h9) = bind_ok _ _ n h8 in
    ground (
      arith,
      as_string_ok _ _ _ e1,
      as_string_ok _ _ _ e2,
      as_number_ok _ _ _ e3,
      as_number_ok _ _ _ e4,
      as_string_ok _ _ _ e5,
      as_string_ok _ _ _ e6,
      as_string_ok _ _ _ e7,
      as_boolean_ok _ _ _ e8,
      as_number_ok _ _ _ e9,
      h9,
    )

-- A note without a pool comes from the first version, one with a pool from the second.
abbrev pub FirstVersion : Raw → PoolNote → Type 0
FirstVersion raw n =
    ((field raw (codes "version") ≡ undefined) ⊎ (field raw (codes "version") ≡ number (whole 1)))
    × (n.pool_id ≡ none)

abbrev pub SecondVersion : Raw → PoolNote → Type 0
SecondVersion raw n =
    (field raw (codes "version") ≡ number (whole 2))
    × (id : Text) × (n.pool_id ≡ some id)
    × (field raw (codes "poolId") ≡ string id)

abbrev pub Decodes : Raw → PoolNote → Type 0
Decodes raw n = Agrees raw n × (FirstVersion raw n ⊎ SecondVersion raw n)

decode_v2-Agrees :
    (raw : Raw) (n : PoolNote)
    → decode_v2 raw ≡ ok n
    → Agrees raw n × (id : Text) × (n.pool_id ≡ some id) × (field raw (codes "poolId") ≡ string id)
unfolding decode_v2 require_string
decode_v2-Agrees raw n h =
    let (m, e, h1) = bind_ok _ _ n h in
    let (id, e1, h2) = bind_ok _ _ n h1 in
    let (a, p) = decode_v1-Agrees raw m e in
    (ground (arith, a, h2), id, ground (arith, h2), as_string_ok _ _ _ e1)

version_of_ok :
    (v : Value) (w : Number)
    → version_of v ≡ ok w
    → ((v ≡ undefined) × (w ≡ whole 1)) ⊎ (v ≡ number w)
version_of_ok undefined w h = inl (refl, ground arith)
version_of_ok (number (Number.whole k)) w h = inr (ground arith)
version_of_ok (number (Number.negative k)) w h = inr (ground arith)
version_of_ok (number (Number.fractional k)) w h = absurd cc
version_of_ok (number Number.not_finite) w h = absurd cc
version_of_ok (string s) w h = absurd cc
version_of_ok (boolean b) w h = absurd cc
version_of_ok null w h = absurd cc
version_of_ok other w h = absurd cc

from_version :
    (raw : Raw) (w : Number) (n : PoolNote)
    → ((field raw (codes "version") ≡ undefined) × (w ≡ whole 1))
      ⊎ (field raw (codes "version") ≡ number w)
    → decode_at w raw ≡ ok n
    → Decodes raw n
unfolding decode_at
from_version raw (Number.whole zero) n v h = absurd cc
from_version raw (Number.whole (suc zero)) n v h =
    let (a, p) = decode_v1-Agrees raw n h in (a, inl (ground (arith, v), p))
from_version raw (Number.whole (suc (suc zero))) n (inl v) h = absurd (ground (arith, v))
from_version raw (Number.whole (suc (suc zero))) n (inr v) h =
    let (a, id, p, q) = decode_v2-Agrees raw n h in (a, inr (v, id, p, q))
from_version raw (Number.whole (suc (suc (suc k)))) n v h = absurd cc
from_version raw (Number.negative k) n v h = absurd cc
from_version raw (Number.fractional k) n v h = absurd cc
from_version raw Number.not_finite n v h = absurd cc

deserialize_raw-Decodes : (raw : Raw) (n : PoolNote) → deserialize_raw raw ≡ ok n → Decodes raw n
unfolding deserialize_raw
deserialize_raw-Decodes raw n h =
    let (w, e, h1) = bind_ok _ _ n h in
    from_version raw w n (version_of_ok (field raw (codes "version")) w e) h1

-- Only an object is decoded, only of version 1, 2 or none; the note has the object's fields, its
-- numbers are finite, and it has a pool exactly when the version is 2, the one of the object.
pub deserialize_note-Decodes :
    (d : Data) (n : PoolNote)
    → deserialize_note d ≡ ok n
    → (raw : Raw) × (d ≡ object raw) × Decodes raw n
unfolding deserialize_note
deserialize_note-Decodes (object raw) n h = (raw, refl, deserialize_raw-Decodes raw n h)
deserialize_note-Decodes no_object n h = absurd cc
