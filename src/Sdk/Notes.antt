-- ===== src/Sdk/Notes.antt =====
-- PoolNote of sdk/src/crypto/notes.ts and sdk/src/crypto/note-codec.ts. A raw object is a list of
-- its properties; JSON.stringify and JSON.parse are parameters.
pub mod Laws
pub mod Tests
use opauque_stellar.Base.{
  ℕ, zero, suc, ◌+◌, Text, codes, Bool, true, false, not, Option, none, some, List, [], ◌∷◌, ◌++◌,
  if◌then◌else◌, ◌==◌, map, keep,
}
use opauque_stellar.Base.Dict.{get}
use opauque_stellar.Base.Exec.{Result, ok, err}

-- A number of the language: n, -(n + 1), one of the finite numbers that are no integers, or one that
-- is not finite.
pub data Number : Type 0 where
  whole negative fractional : ℕ → Number
  not_finite : Number

pub record PoolNote : Type 0 where
  pub cluster : Text
  pub pool_id : Option Text
  pub value : Text
  pub scope : Number
  pub leaf_index : Number
  pub nullifier : Text
  pub secret : Text
  pub commitment : Text
  pub spent : Bool
  pub created_at : Number

-- The values of an object's properties.
pub data Value : Type 0 where
  string : Text → Value
  number : Number → Value
  boolean : Bool → Value
  null undefined other : Value

abbrev pub Raw : Type 0
Raw = List (Text × Value)

-- What a decoder is given.
pub data Data : Type 0 where
  object : Raw → Data
  no_object : Data

pub data NoteSchemaError : Type 0 where
  not_object bad_version not_json : NoteSchemaError
  unsupported_version : Number → NoteSchemaError
  field_type : Text → NoteSchemaError

infixl 5 ◌>>=◌
pub ◌>>=◌ :
    {A B : Type 0}
    → Result NoteSchemaError A
    → (A → Result NoteSchemaError B)
    → Result NoteSchemaError B
ok a >>= f = f a
err e >>= f = err e

abbrev pub or_undefined : Option Value → Value
or_undefined none = undefined
or_undefined (some v) = v

abbrev pub field : Raw → Text → Value
field raw key = or_undefined (get key raw)

pub is_finite : Number → Bool
is_finite not_finite = false
is_finite _ = true

abbrev pub as_string : Text → Value → Result NoteSchemaError Text
as_string key (string s) = ok s
as_string key _ = err (field_type key)

abbrev pub as_number : Text → Value → Result NoteSchemaError Number
as_number key (number n) = if is_finite n then ok n else err (field_type key)
as_number key _ = err (field_type key)

abbrev pub as_boolean : Text → Value → Result NoteSchemaError Bool
as_boolean key (boolean b) = ok b
as_boolean key _ = err (field_type key)

pub require_string : Raw → Text → Result NoteSchemaError Text
require_string raw key = as_string key (field raw key)

pub require_number : Raw → Text → Result NoteSchemaError Number
require_number raw key = as_number key (field raw key)

pub require_boolean : Raw → Text → Result NoteSchemaError Bool
require_boolean raw key = as_boolean key (field raw key)

-- The decoders of the two versions; an object literal evaluates its fields in their order.
pub decode_v1 : Raw → Result NoteSchemaError PoolNote
decode_v1 raw = do
  cluster ← require_string raw (codes "cluster")
  value ← require_string raw (codes "value")
  scope ← require_number raw (codes "scope")
  leaf_index ← require_number raw (codes "leafIndex")
  nullifier ← require_string raw (codes "nullifier")
  secret ← require_string raw (codes "secret")
  commitment ← require_string raw (codes "commitment")
  spent ← require_boolean raw (codes "spent")
  created_at ← require_number raw (codes "createdAt")
  ok record {
    cluster = cluster;
    pool_id = none;
    value = value;
    scope = scope;
    leaf_index = leaf_index;
    nullifier = nullifier;
    secret = secret;
    commitment = commitment;
    spent = spent;
    created_at = created_at;
  }

pub decode_v2 : Raw → Result NoteSchemaError PoolNote
decode_v2 raw = do
  note ← decode_v1 raw
  pool_id ← require_string raw (codes "poolId")
  ok record note { pool_id = some pool_id }

-- `decoders[version]`
pub decode_at : Number → Raw → Result NoteSchemaError PoolNote
decode_at (whole (suc zero)) raw = decode_v1 raw
decode_at (whole (suc (suc zero))) raw = decode_v2 raw
decode_at version raw = err (unsupported_version version)

abbrev v1_fields : PoolNote → Raw
v1_fields n =
    (codes "value", string n.value)
    ∷ (codes "scope", number n.scope)
    ∷ (codes "leafIndex", number n.leaf_index)
    ∷ (codes "nullifier", string n.nullifier)
    ∷ (codes "secret", string n.secret)
    ∷ (codes "commitment", string n.commitment)
    ∷ (codes "spent", boolean n.spent)
    ∷ (codes "createdAt", number n.created_at)
    ∷ []

abbrev pub serialize_with : PoolNote → Option Text → Raw
serialize_with n none =
    (codes "version", number (whole 1)) ∷ (codes "cluster", string n.cluster) ∷ v1_fields n
serialize_with n (some id) =
    (codes "version", number (whole 2))
    ∷ (codes "cluster", string n.cluster)
    ∷ (codes "poolId", string id)
    ∷ v1_fields n

pub serialize_note : PoolNote → Raw
serialize_note n = serialize_with n n.pool_id

-- A version that is missing is the first one.
abbrev pub version_of : Value → Result NoteSchemaError Number
version_of undefined = ok (whole 1)
version_of (number (whole n)) = ok (whole n)
version_of (number (negative n)) = ok (negative n)
version_of _ = err bad_version

pub deserialize_raw : Raw → Result NoteSchemaError PoolNote
deserialize_raw raw = do version ← version_of (field raw (codes "version")); decode_at version raw

pub deserialize_note : Data → Result NoteSchemaError PoolNote
deserialize_note (object raw) = deserialize_raw raw
deserialize_note _ = err not_object

pub serialize_notes : List PoolNote → List Data
serialize_notes [] = []
serialize_notes (n ∷ ns) = object (serialize_note n) ∷ serialize_notes ns

pub deserialize_notes : List Data → Result NoteSchemaError (List PoolNote)
deserialize_notes [] = ok []
deserialize_notes (v ∷ vs) = do
  note ← deserialize_note v
  notes ← deserialize_notes vs
  ok (note ∷ notes)

module _ (stringify : Data → Text) (parse : Text → Option Data) where
  pub encode_note_json : PoolNote → Text
  encode_note_json n = stringify (object (serialize_note n))

  abbrev decoded : Option Data → Result NoteSchemaError PoolNote
  decoded none = err not_json
  decoded (some v) = deserialize_note v

  pub decode_note_json : Text → Result NoteSchemaError PoolNote
  decode_note_json json = decoded (parse json)
