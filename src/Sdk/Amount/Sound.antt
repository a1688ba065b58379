-- ===== src/Sdk/Amount/Sound.antt =====
-- sdk/src/crypto/amount.ts: only texts of the documented form are parsed.
use mathlib.Core.List.{append-nil}
use opauque_stellar.Base.{
  ℕ, ◌≤◌, ◌≡◌, refl, ap, sym, ◌∙◌, subst, Text, Bool, true, false, [], ◌∷◌, ◌++◌, length, ◌==◌,
  arith, inl, inr, Bool-cases,
}
use opauque_stellar.Base.Exec.{ok}
use opauque_stellar.Base.Numerals.{is_digit, trim}
use opauque_stellar.Base.Numerals.Laws.{every-append}
use opauque_stellar.Sdk.Amount.{
  ℤ, signed, past_digits, is_fraction, is_unsigned, is_amount, without_minus, starts_minus,
  parse_trimmed, parse_xlm_to_stroops,
}
use opauque_stellar.Sdk.Amount.Value.{
  Digits, spelled, sign, point, fraction_of, stroops_of, answer, parse_trimmed-spelled,
}

past_digits_split : (s : Text) → (d : Text) × (s ≡ d ++ past_digits s) × Digits d
unfolding past_digits
past_digits_split [] = ([], refl, refl)
past_digits_split (c ∷ s) = elim (Bool-cases (is_digit c)) [
  | inl digit ↦ let (d, e, h) = past_digits_split s in (c ∷ d, rw digit (ap (◌∷◌ c) e), rw digit h)
  | inr other ↦ ([], rw other refl, refl)
]

abbrev pub Unsigned : Text → Type 0
Unsigned s =
    (c : ℕ) × (w : Text) × (dot : Bool) × (fraction : Text) × (s ≡ c ∷ w ++ point dot fraction)
    × Digits (c ∷ w)
    × Digits fraction

fraction-Unsigned :
    (c : ℕ) (d t : Text) → Digits (c ∷ d) → is_fraction t ≡ true → Unsigned (c ∷ d ++ t)
unfolding is_fraction
fraction-Unsigned c d [] h k = (c, d, false, [], refl, h, refl)
fraction-Unsigned c d (b ∷ t) h k = elim (Bool-cases (b == b'.')) [
  | inl dot ↦ (c, d, true, t, ground (arith, dot), h, ground (arith, dot))
  | inr other ↦ (
    c,
    d ++ b ∷ t,
    false,
    [],
    sym (append-nil (c ∷ d ++ b ∷ t)),
    every-append is_digit (c ∷ d) (b ∷ t) h (ground (arith, other)),
    refl,
  )
]

is_unsigned-Unsigned : (s : Text) → is_unsigned s ≡ true → Unsigned s
unfolding is_unsigned
is_unsigned-Unsigned [] h = absurd cc
is_unsigned-Unsigned (c ∷ s) h =
    let (d, e, k) = past_digits_split s in
    subst Unsigned (ap (◌∷◌ c) (sym e))
      (fraction-Unsigned c d (past_digits s) (ground arith) (ground arith))

-- What a text must be to be parsed to `v`.
abbrev pub Spells : Text → ℤ → Type 0
Spells s v =
    (minus : Bool) × (c : ℕ) × (w : Text) × (dot : Bool) × (fraction : Text) × (s
      ≡ spelled minus (c ∷ w) dot fraction)
    × Digits (c ∷ w)
    × Digits fraction
    × (length (fraction_of dot fraction) ≤ 7)
    × (v ≡ signed minus (stroops_of (c ∷ w) (fraction_of dot fraction)))

without_minus-split : (s : Text) → s ≡ sign (starts_minus s) ++ without_minus s
unfolding starts_minus without_minus
without_minus-split [] = refl
without_minus-split (c ∷ s) = elim (Bool-cases (c == b'-')) [
  | inl minus ↦ rw minus (ground (arith, minus))
  | inr plus ↦ rw plus refl
]

parse_trimmed-is_amount : (s : Text) (v : ℤ) → parse_trimmed s ≡ ok v → is_amount s ≡ true
unfolding parse_trimmed
parse_trimmed-is_amount s v h = ground arith

answer_ok :
    (minus : Bool) (whole fraction : Text) (v : ℤ)
    → answer minus whole fraction ≡ ok v
    → (length fraction ≤ 7) × (v ≡ signed minus (stroops_of whole fraction))
answer_ok minus whole fraction v h = ground arith

Unsigned-Spells :
    (s : Text) (v : ℤ) → parse_trimmed s ≡ ok v → Unsigned (without_minus s) → Spells s v
Unsigned-Spells s v h (c, w, dot, fraction, e, k, l) =
    let form = without_minus-split s ∙ ap (◌++◌ (sign (starts_minus s))) e in
    let value = answer_ok (starts_minus s) (c ∷ w) (fraction_of dot fraction) v (
      sym (parse_trimmed-spelled (starts_minus s) c w dot fraction k l)
      ∙ ap parse_trimmed (sym form)
      ∙ h) in
    (starts_minus s, c, w, dot, fraction, form, k, l, value.0, value.1)

-- A text that parses is, but for white space around it, an optional minus sign, digits, and
-- optionally a point with up to seven digits behind it, and the result is the amount they spell.
pub parse_xlm_to_stroops-Spells :
    (s : Text) (v : ℤ) → parse_xlm_to_stroops s ≡ ok v → Spells (trim s) v
unfolding parse_xlm_to_stroops is_amount
parse_xlm_to_stroops-Spells s v h =
    Unsigned-Spells (trim s) v h
      (is_unsigned-Unsigned (without_minus (trim s)) (parse_trimmed-is_amount (trim s) v h))
