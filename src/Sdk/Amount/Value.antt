-- ===== src/Sdk/Amount/Value.antt =====
-- sdk/src/crypto/amount.ts: the amount that a well-formed text stands for.
use native.Mathlib.Nat.{pow-suc, suc-add, zero-add}
use opauque_stellar.Base.{
  ℕ, zero, suc, ◌+◌, ◌-◌, ◌*◌, ◌^◌, ◌≤◌, ◌≡◌, refl, ap, ◌∙◌, Text, Bool, true, false, some, List,
  [], ◌∷◌, ◌++◌, length, every, ltb, ◌==◌, if◌then◌else◌, arith, inl, inr, Bool-cases,
}
use opauque_stellar.Base.Exec.{Result, ok, err}
use opauque_stellar.Base.Numerals.{is_digit, is_space, pad_end, decimal_from}
use opauque_stellar.Base.Numerals.Laws.{
  every-append, every-weaken, is_dark, is_digit-is_dark, trim-dark, big_int-digits,
  decimal_from-append, decimal_from-shift, decimal_from-zeros, replicate-digits,
}
use opauque_stellar.Sdk.Amount.{
  ℤ, AmountError, too_many_decimals, max_decimals, past_digits, is_fraction, is_unsigned,
  starts_minus, without_minus, is_amount, split_dot, part_or, nth, signed, parse_parts,
  parse_trimmed, parse_xlm_to_stroops,
}

-- A text of the amount `minus whole.fraction`, the point left out on request if nothing follows.
abbrev pub point : Bool → Text → Text
point true fraction = b'.' ∷ fraction
point false fraction = []

abbrev pub sign : Bool → Text
sign true = b'-' ∷ []
sign false = []

abbrev pub fraction_of : Bool → Text → Text
fraction_of true fraction = fraction
fraction_of false fraction = []

abbrev pub spelled : Bool → Text → Bool → Text → Text
spelled minus whole dot fraction = sign minus ++ (whole ++ point dot fraction)

past_digits-append : (s t : Text) → every is_digit s ≡ true → past_digits (s ++ t) ≡ past_digits t
unfolding past_digits
past_digits-append [] t h = refl
past_digits-append (c ∷ s) t h = ground (arith, past_digits-append s t)

past_digits-point :
    (dot : Bool) (fraction : Text) → past_digits (point dot fraction) ≡ point dot fraction
unfolding past_digits is_digit
past_digits-point true fraction = refl
past_digits-point false fraction = refl

is_fraction-point :
    (dot : Bool) (fraction : Text)
    → every is_digit fraction ≡ true
    → is_fraction (point dot fraction) ≡ true
unfolding is_fraction
is_fraction-point true fraction h = h
is_fraction-point false fraction h = refl

is_unsigned-spelled :
    (c : ℕ) (whole : Text) (dot : Bool) (fraction : Text)
    → every is_digit (c ∷ whole) ≡ true
    → every is_digit fraction ≡ true
    → is_unsigned (c ∷ whole ++ point dot fraction) ≡ true
unfolding is_unsigned
is_unsigned-spelled c whole dot fraction h k = ground (
  arith,
  past_digits-append whole (point dot fraction),
  past_digits-point dot fraction,
  is_fraction-point dot fraction k,
)

-- A digit is no minus sign, so what starts with one is its own absolute value.
without_minus-spelled :
    (minus : Bool) (c : ℕ) (whole : Text) (dot : Bool) (fraction : Text)
    → is_digit c ≡ true
    → let s = spelled minus (c ∷ whole) dot fraction in
      (starts_minus s ≡ minus) × (without_minus s ≡ c ∷ whole ++ point dot fraction)
unfolding is_digit without_minus starts_minus
without_minus-spelled true c whole dot fraction h = (refl, refl)
without_minus-spelled false c whole dot fraction h = ground arith

split_dot-digits : (s : Text) → every is_digit s ≡ true → split_dot s ≡ s ∷ []
unfolding split_dot is_digit
split_dot-digits [] h = refl
split_dot-digits (c ∷ s) h = ground (arith, split_dot-digits s)

abbrev pub parts_of : Text → Bool → Text → List Text
parts_of whole true fraction = whole ∷ fraction ∷ []
parts_of whole false fraction = whole ∷ []

split_dot-spelled :
    (whole : Text) (dot : Bool) (fraction : Text)
    → every is_digit whole ≡ true
    → every is_digit fraction ≡ true
    → split_dot (whole ++ point dot fraction) ≡ parts_of whole dot fraction
unfolding split_dot is_digit
split_dot-spelled [] true fraction h k = rw (split_dot-digits fraction k) refl
split_dot-spelled [] false fraction h k = refl
split_dot-spelled (c ∷ whole) true fraction h k =
    ground (arith, split_dot-spelled whole true fraction)
split_dot-spelled (c ∷ whole) false fraction h k =
    ground (arith, split_dot-spelled whole false fraction)

-- whole * 10^7, and the fraction with as many zeros behind it as its seven places leave.
abbrev pub stroops_of : Text → Text → ℕ
stroops_of whole fraction =
    decimal_from 0 whole * 10 ^ 7 + decimal_from 0 fraction * 10 ^ (7 - length fraction)

pow_split : (l m : ℕ) → 10 ^ l * 10 ^ m ≡ 10 ^ (l + m)
pow_split zero m = rw zero-add (omega arith)
pow_split (suc l) m =
    rw (suc-add l m, pow-suc 10 l, pow-suc 10 (l + m), ← pow_split l m) (omega arith)

padded_value : (w f l : ℕ) → l ≤ 7 → (w * 10 ^ l + f) * 10 ^ (7 - l) ≡ w * 10 ^ 7 + f * 10 ^ (7 - l)
padded_value w f l h =
    expand w f (10 ^ l) (10 ^ (7 - l)) (10 ^ 7) (pow_split l (7 - l) ∙ ap (◌^◌ 10) places)
  where
    places : l + (7 - l) ≡ 7
    places = omega arith

    expand : (a b x y z : ℕ) → x * y ≡ z → (a * x + b) * y ≡ a * z + b * y
    expand a b x y z e = rw (← e) (grind arith)

-- The digits that are handed to BigInt spell the amount.
pub padded_stroops :
    (whole fraction : Text)
    → length fraction ≤ 7
    → decimal_from 0 (whole ++ pad_end max_decimals b'0' fraction) ≡ stroops_of whole fraction
padded_stroops whole fraction h =
    decimal_from-append 0 whole _
    ∙ decimal_from-append (decimal_from 0 whole) fraction _
    ∙ decimal_from-zeros (decimal_from (decimal_from 0 whole) fraction) _
    ∙ ap (λ a. a * 10 ^ (7 - length fraction)) (decimal_from-shift (decimal_from 0 whole) fraction)
    ∙ padded_value (decimal_from 0 whole) (decimal_from 0 fraction) (length fraction) h

-- What the parser answers on a text of that form.
abbrev pub answer : Bool → Text → Text → Result AmountError ℤ
answer minus whole fraction =
    if ltb max_decimals (length fraction)
    then err too_many_decimals
    else ok (signed minus (stroops_of whole fraction))

parse_parts-digits :
    (minus : Bool) (whole fraction : Text)
    → every is_digit whole ≡ true
    → every is_digit fraction ≡ true
    → parse_parts minus whole fraction ≡ answer minus whole fraction
unfolding parse_parts
parse_parts-digits minus whole fraction h k =
    elim (Bool-cases (ltb max_decimals (length fraction))) [
      | inl long ↦ rw long refl
      | inr fits ↦
          rw (fits, big_int-digits _ padded_digits, padded_stroops whole fraction (ground arith))
            refl
    ]
  where
    padded_digits : every is_digit (whole ++ pad_end max_decimals b'0' fraction) ≡ true
    padded_digits =
        every-append is_digit whole _ h
          (every-append is_digit fraction _ k (replicate-digits (max_decimals - length fraction)))

part_or-some : (c : ℕ) (s d : Text) → part_or (some (c ∷ s)) d ≡ c ∷ s
part_or-some c s d = refl

part_or-fraction :
    (whole : Text) (dot : Bool) (fraction : Text)
    → part_or (nth 1 (parts_of whole dot fraction)) [] ≡ fraction_of dot fraction
part_or-fraction whole true [] = refl
part_or-fraction whole true (c ∷ s) = refl
part_or-fraction whole false fraction = refl

nth-parts_of :
    (whole : Text) (dot : Bool) (fraction : Text) → nth 0 (parts_of whole dot fraction) ≡ some whole
nth-parts_of whole true fraction = refl
nth-parts_of whole false fraction = refl

abbrev pub Digits : Text → Type 0
Digits s = every is_digit s ≡ true

point-dark :
    (dot : Bool) (fraction : Text) → Digits fraction → every is_dark (point dot fraction) ≡ true
unfolding is_space
point-dark true fraction h = every-weaken is_digit is_dark fraction is_digit-is_dark h
point-dark false fraction h = refl

signed_dark :
    (minus : Bool) (s : Text) → every is_dark s ≡ true → every is_dark (sign minus ++ s) ≡ true
unfolding is_space
signed_dark true s h = h
signed_dark false s h = h

spelled-dark :
    (minus : Bool) (whole : Text) (dot : Bool) (fraction : Text)
    → Digits whole
    → Digits fraction
    → every is_dark (spelled minus whole dot fraction) ≡ true
unfolding is_space
spelled-dark minus whole dot fraction h k = signed_dark minus _ body
  where
    body : every is_dark (whole ++ point dot fraction) ≡ true
    body =
        every-append is_dark whole _ (every-weaken is_digit is_dark whole is_digit-is_dark h)
          (point-dark dot fraction k)

spelled_nonempty :
    (minus : Bool) (c : ℕ) (s : Text) (dot : Bool) (fraction : Text)
    → (length (spelled minus (c ∷ s) dot fraction) == 0) ≡ false
spelled_nonempty true c s dot fraction = ground arith
spelled_nonempty false c s dot fraction = ground arith

fraction_of-Digits :
    (dot : Bool) (fraction : Text) → Digits fraction → Digits (fraction_of dot fraction)
fraction_of-Digits true fraction h = h
fraction_of-Digits false fraction h = refl

pub parse_trimmed-spelled :
    (minus : Bool) (c : ℕ) (s : Text) (dot : Bool) (fraction : Text)
    → Digits (c ∷ s)
    → Digits fraction
    → parse_trimmed (spelled minus (c ∷ s) dot fraction)
      ≡ answer minus (c ∷ s) (fraction_of dot fraction)
unfolding parse_trimmed is_amount is_digit
parse_trimmed-spelled minus c s dot fraction h k =
    rw
      (
        spelled_nonempty minus c s dot fraction,
        (without_minus-spelled minus c s dot fraction (ground arith)).0,
        (without_minus-spelled minus c s dot fraction (ground arith)).1,
        is_unsigned-spelled c s dot fraction h k,
        split_dot-spelled (c ∷ s) dot fraction h k,
        nth-parts_of (c ∷ s) dot fraction,
        part_or-fraction (c ∷ s) dot fraction,
        parse_parts-digits minus (c ∷ s) (fraction_of dot fraction) h
            (fraction_of-Digits dot fraction k),
      )
      refl

-- A text of digits, a sign before it and a point and digits behind it on request, parses to the
-- amount that it spells in stroops, and is refused exactly when it has more than seven decimals.
pub parse-spelled :
    (minus : Bool) (c : ℕ) (s : Text) (dot : Bool) (fraction : Text)
    → Digits (c ∷ s)
    → Digits fraction
    → parse_xlm_to_stroops (spelled minus (c ∷ s) dot fraction)
      ≡ answer minus (c ∷ s) (fraction_of dot fraction)
unfolding parse_xlm_to_stroops
parse-spelled minus c s dot fraction h k =
    rw (trim-dark _ (spelled-dark minus (c ∷ s) dot fraction h k))
      (parse_trimmed-spelled minus c s dot fraction h k)
