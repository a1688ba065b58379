-- ===== src/Sdk/Amount/Tests.antt =====
-- sdk/src/crypto/amount.ts at concrete inputs.
use opauque_stellar.Base.{◌≡◌, refl, true, Text, codes}
use opauque_stellar.Base.Exec.{ok}
use opauque_stellar.Base.Numerals.{
  is_space, trim_start, trim_end, trim, digit_value, parse_digits, big_int_of, big_int, is_digit,
  to_text, digits, decimal_from,
}
use opauque_stellar.Sdk.Amount.{
  pos, negsuc, past_digits, is_fraction, is_unsigned, starts_minus, without_minus, is_amount,
  split_dot, parse_parts, parse_trimmed, parse_xlm_to_stroops, strip_zeros, format_absolute,
  format_stroops_to_xlm,
}
use opauque_stellar.Sdk.Amount.Value.{parse-spelled}
use opauque_stellar.Sdk.Amount.RoundTrip.{parse-format}
use opauque_stellar.Sdk.Amount.Sound.{Spells, parse_xlm_to_stroops-Spells}

prints : format_stroops_to_xlm (negsuc 14_999_999) ≡ codes "-1.5"
unfolding format_stroops_to_xlm format_absolute to_text digits strip_zeros
prints = refl

parse-format_example :
    parse_xlm_to_stroops (format_stroops_to_xlm (negsuc 14_999_999)) ≡ ok (negsuc 14_999_999)
parse-format_example = parse-format (negsuc 14_999_999)

quarter : parse_xlm_to_stroops (codes "-0.25") ≡ ok (negsuc 2_499_999)
unfolding is_digit decimal_from
quarter = parse-spelled true b'0' (codes "") true (codes "25") refl refl

abbrev spaced : Text
spaced = codes " 12.5 "

parses : parse_xlm_to_stroops spaced ≡ ok (pos 125_000_000)
unfolding parse_xlm_to_stroops parse_trimmed parse_parts is_amount is_unsigned past_digits
    is_fraction split_dot starts_minus without_minus big_int big_int_of parse_digits digit_value
    trim trim_start trim_end is_space is_digit
parses = refl

parse_xlm_to_stroops-Spells_example : Spells (trim spaced) (pos 125_000_000)
parse_xlm_to_stroops-Spells_example = parse_xlm_to_stroops-Spells spaced (pos 125_000_000) parses
