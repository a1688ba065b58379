-- ===== src/Publisher/Validate.antt =====
-- publisher/src/validate.ts and normalizeHex32 of publisher/src/bytes.ts. A field of the raw object
-- is a string, a number, or another value; a number that is no natural number is `bad_number`.
use opauque_stellar.Base.{
  ℕ, Text, codes, Bool, ◌&&◌, ◌||◌, Option, none, some, List, [], ◌∷◌, ◌++◌, length, every, ltb,
  leb, ◌==◌, if◌then◌else◌, to_lower,
}
use opauque_stellar.Base.Dict.{get}
use opauque_stellar.Base.Numerals.{trim, digit_value, big_int}
use opauque_stellar.Publisher.Types.{LeafCommitment}

pub data Value : Type 0 where
  string : Text → Value
  number : ℕ → Value
  bad_number null undefined other : Value

abbrev pub bn254_modulus : ℕ
bn254_modulus = 21888242871839275222246405745257275088548364400416034343698204186575808495617

-- s.replace(/^0x/, "")
pub strip_0x : Text → Text
strip_0x (a ∷ b ∷ s) = if a == b'0' && b == b'x' then s else a ∷ b ∷ s
strip_0x s = s

-- [0-9a-f]
pub is_lower_hex : ℕ → Bool
is_lower_hex c = (leb b'0' c && leb c b'9') || (leb b'a' c && leb c b'f')

-- `none` is the thrown error.
pub normalize_hex32 : Text → Option Text
unfolding trim strip_0x is_lower_hex
normalize_hex32 value =
    let clean = strip_0x (to_lower (trim value)) in
    if length clean == 64 && every is_lower_hex clean then some (codes "0x" ++ clean) else none

abbrev in_field : Option ℕ → List Text
in_field none = codes "leaf must be a 0x-prefixed 32-byte hex string" ∷ []
in_field (some v) =
    if ltb v bn254_modulus
    then []
    else codes "leaf value must be a valid BN254 field element (0 <= value < modulus)" ∷ []

abbrev hex_or : Option Text → Text → List Text
hex_or none message = message ∷ []
hex_or (some _) message = []

abbrev leaf_range : Option Text → Text → List Text
leaf_range none s = codes "leaf must be a 0x-prefixed 32-byte hex string" ∷ []
leaf_range (some _) s = in_field (big_int s)

-- The errors about each field.
pub leaf_errors : Option Value → List Text
unfolding normalize_hex32 big_int
leaf_errors (some (string s)) = leaf_range (normalize_hex32 s) s
leaf_errors _ = codes "leaf is required and must be a string" ∷ []

pub id_errors : Option Value → List Text
unfolding trim
id_errors (some (string s)) = if length (trim s) == 0 then codes "id must not be empty" ∷ [] else []
id_errors _ = []

pub schema_errors : Option Value → List Text
unfolding normalize_hex32
schema_errors (some (string s)) =
    hex_or (normalize_hex32 s) (codes "schemaId must be a 0x-prefixed 32-byte hex string")
schema_errors _ = codes "schemaId is required" ∷ []

pub uid_errors : Option Value → List Text
unfolding normalize_hex32
uid_errors (some (string s)) =
    hex_or (normalize_hex32 s) (codes "attestationUid must be a 0x-prefixed 32-byte hex string")
uid_errors _ = codes "attestationUid is required" ∷ []

pub is_hex : ℕ → Bool
is_hex c = ltb (digit_value c) 16

-- /^(0x)?[0-9a-fA-F]{130}$/
pub is_signature : Text → Bool
unfolding is_hex strip_0x digit_value
is_signature s = length (strip_0x s) == 130 && every is_hex (strip_0x s)

pub signature_errors : Option Value → List Text
unfolding is_signature
signature_errors (some (string s)) =
    if is_signature s
    then []
    else codes "holderSignature must be a 65-byte recoverable secp256k1 signature" ∷ []
signature_errors _ = codes "holderSignature must be a 65-byte recoverable secp256k1 signature" ∷ []

pub ledger_errors : Option Value → List Text
ledger_errors none = []
ledger_errors (some undefined) = []
ledger_errors (some (number n)) = []
ledger_errors _ = codes "ledger must be a non-negative integer if provided" ∷ []

pub tx_errors : Option Value → List Text
tx_errors none = []
tx_errors (some undefined) = []
tx_errors (some (string s)) = []
tx_errors _ = codes "txHash must be a string if provided" ∷ []

pub data Validation : Type 0 where
  valid : LeafCommitment → Validation
  invalid : List Text → Validation

pub field_errors : List (Text × Value) → List Text
unfolding leaf_errors id_errors schema_errors uid_errors signature_errors ledger_errors tx_errors
field_errors obj =
    leaf_errors (get (codes "leaf") obj)
    ++ (id_errors (get (codes "id") obj)
        ++ (schema_errors (get (codes "schemaId") obj)
            ++ (uid_errors (get (codes "attestationUid") obj)
                ++ (signature_errors (get (codes "holderSignature") obj)
                    ++ (ledger_errors (get (codes "ledger") obj)
                        ++ tx_errors (get (codes "txHash") obj))))))

abbrev or_empty : Option Text → Text
or_empty none = []
or_empty (some s) = s

abbrev text_or : Option Value → Text
text_or (some (string s)) = s
text_or _ = []

abbrev string_only : Option Value → Option Text
string_only (some (string s)) = some s
string_only _ = none

abbrev number_only : Option Value → Option ℕ
number_only (some (number n)) = some n
number_only _ = none

abbrev id_of : (Value → Text) → Option Value → Text → Text
id_of show none uid = uid
id_of show (some undefined) uid = uid
id_of show (some null) uid = uid
id_of show (some v) uid = show v

-- `show` is the language's String(value).
pub commitment_of : (Value → Text) → Text → List (Text × Value) → LeafCommitment
unfolding normalize_hex32 trim
commitment_of show at obj =
    let uid = or_empty (normalize_hex32 (text_or (get (codes "attestationUid") obj))) in
    record {
      id = to_lower (trim (id_of show (get (codes "id") obj) uid));
      leaf = or_empty (normalize_hex32 (text_or (get (codes "leaf") obj)));
      schema_id = or_empty (normalize_hex32 (text_or (get (codes "schemaId") obj)));
      attestation_uid = uid;
      holder_signature = text_or (get (codes "holderSignature") obj);
      tx_hash = string_only (get (codes "txHash") obj);
      ledger = number_only (get (codes "ledger") obj);
      submitted_at = at;
    }

-- `none` is a payload that is no object.
pub validate_leaf_commitment : (Value → Text) → Text → Option (List (Text × Value)) → Validation
unfolding field_errors commitment_of
validate_leaf_commitment show at none = invalid (codes "payload must be a JSON object" ∷ [])
validate_leaf_commitment show at (some obj) = elim (field_errors obj) [
  | [] ↦ valid (commitment_of show at obj)
  | e ∷ es ↦ invalid (e ∷ es)
]
