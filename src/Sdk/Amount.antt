-- ===== src/Sdk/Amount.antt =====
-- sdk/src/crypto/amount.ts. A bigint is an integer over the native numbers.
pub mod Value
pub mod RoundTrip
pub mod Sound
pub mod Tests
use opauque_stellar.Base.{
  ℕ, zero, suc, ◌-◌, Text, codes, Bool, true, false, ◌&&◌, Option, none, some, List, [], ◌∷◌, ◌++◌,
  length, every, ltb, ◌==◌, if◌then◌else◌,
}
pub use opauque_stellar.Base.Integers.{ℤ, pos, negsuc}
use opauque_stellar.Base.Exec.{Result, ok, err}
use opauque_stellar.Base.Numerals.{trim, big_int, is_digit, to_text, pad_start, pad_end, take, drop}

pub data AmountError : Type 0 where
  empty_amount invalid_amount too_many_decimals : AmountError

abbrev pub max_decimals : ℕ
max_decimals = 7

-- A text without its leading digits.
pub past_digits : Text → Text
unfolding is_digit
past_digits [] = []
past_digits (c ∷ s) = if is_digit c then past_digits s else c ∷ s

-- \.?\d*$
pub is_fraction : Text → Bool
unfolding is_digit
is_fraction [] = true
is_fraction (c ∷ s) = if c == b'.' then every is_digit s else every is_digit (c ∷ s)

-- \d+\.?\d*$
pub is_unsigned : Text → Bool
unfolding past_digits is_fraction is_digit
is_unsigned [] = false
is_unsigned (c ∷ s) = if is_digit c then is_fraction (past_digits s) else false

pub starts_minus : Text → Bool
starts_minus [] = false
starts_minus (c ∷ s) = c == b'-'

pub without_minus : Text → Text
without_minus s = if starts_minus s then drop 1 s else s

-- /^-?\d+\.?\d*$/
pub is_amount : Text → Bool
is_amount s = is_unsigned (without_minus s)

-- `s.split(".")`
abbrev cons_first : ℕ → List Text → List Text
cons_first c [] = (c ∷ []) ∷ []
cons_first c (w ∷ ws) = (c ∷ w) ∷ ws

pub split_dot : Text → List Text
split_dot [] = [] ∷ []
split_dot (c ∷ s) = let rest = split_dot s in if c == b'.' then [] ∷ rest else cons_first c rest

-- `part || fallback`, where a part that is missing is undefined.
abbrev pub part_or : Option Text → Text → Text
part_or none d = d
part_or (some []) d = d
part_or (some (c ∷ s)) d = c ∷ s

abbrev pub nth : ℕ → List Text → Option Text
nth n [] = none
nth zero (w ∷ ws) = some w
nth (suc n) (w ∷ ws) = nth n ws

abbrev pub negated : ℕ → ℤ
negated zero = pos zero
negated (suc n) = negsuc n

abbrev pub signed : Bool → ℕ → ℤ
signed true n = negated n
signed false n = pos n

-- What BigInt throws on a malformed text counts as an invalid amount.
abbrev signed_or : Bool → Option ℕ → Result AmountError ℤ
signed_or minus none = err invalid_amount
signed_or minus (some n) = ok (signed minus n)

pub parse_parts : Bool → Text → Text → Result AmountError ℤ
parse_parts minus whole fraction =
    if ltb max_decimals (length fraction)
    then err too_many_decimals
    else signed_or minus (big_int (whole ++ pad_end max_decimals b'0' fraction))

pub parse_trimmed : Text → Result AmountError ℤ
parse_trimmed s =
    let parts = split_dot (without_minus s) in
    if length s == 0
    then err empty_amount
    else (if is_amount s
        then parse_parts (starts_minus s) (part_or (nth 0 parts) (codes "0"))
            (part_or (nth 1 parts) [])
        else err invalid_amount)

pub parse_xlm_to_stroops : Text → Result AmountError ℤ
parse_xlm_to_stroops s = parse_trimmed (trim s)

abbrev or_zero : Result AmountError ℤ → ℤ
or_zero (ok v) = v
or_zero (err e) = pos 0

-- `none` is undefined.
pub parse_horizon_balance_to_stroops : Option Text → ℤ
unfolding parse_xlm_to_stroops trim
parse_horizon_balance_to_stroops none = pos 0
parse_horizon_balance_to_stroops (some s) =
    if length s == 0
    then pos 0
    else (if length (trim s) == 0 then pos 0 else or_zero (parse_xlm_to_stroops s))

-- s.replace(/0+$/, "")
abbrev pub keep_digit : ℕ → Text → Text
keep_digit c [] = if c == b'0' then [] else c ∷ []
keep_digit c (d ∷ s) = c ∷ d ∷ s

pub strip_zeros : Text → Text
strip_zeros [] = []
strip_zeros (c ∷ s) = keep_digit c (strip_zeros s)

-- `s.slice(0, -n)` and `s.slice(-n)` for n > 0.
abbrev pub slice_to : ℕ → Text → Text
slice_to n s = take (length s - n) s

abbrev pub slice_from : ℕ → Text → Text
slice_from n s = drop (length s - n) s

abbrev pub with_sign : Bool → Text → Text
with_sign true s = b'-' ∷ s
with_sign false s = s

abbrev pub join : Text → Text → Text
join whole [] = whole
join whole (c ∷ s) = whole ++ b'.' ∷ c ∷ s

pub format_absolute : ℕ → Text
unfolding to_text strip_zeros
format_absolute n =
    let s = pad_start (suc max_decimals) b'0' (to_text n) in
    join (part_or (some (slice_to max_decimals s)) (codes "0"))
      (strip_zeros (slice_from max_decimals s))

pub format_stroops_to_xlm : ℤ → Text
unfolding format_absolute
format_stroops_to_xlm (pos n) = with_sign false (format_absolute n)
format_stroops_to_xlm (negsuc n) = with_sign true (format_absolute (suc n))
