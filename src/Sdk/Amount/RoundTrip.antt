-- ===== src/Sdk/Amount/RoundTrip.antt =====
-- sdk/src/crypto/amount.ts: what was printed parses back.
use mathlib.Core.List.{append-nil}
use opauque_stellar.Base.{
  ℕ, suc, ◌-◌, ◌≤◌, ◌<◌, ◌≡◌, refl, ap, sym, subst, ◌∙◌, Text, Bool, true, false, some, [], ◌∷◌,
  ◌++◌, length, length-append, ◌==◌, arith, codes, inl, inr, Bool-cases,
}
use opauque_stellar.Base.Exec.{ok}
use opauque_stellar.Base.Numerals.{is_digit, to_text, pad_start, pad_end, decimal_from, replicate}
use opauque_stellar.Base.Numerals.Laws.{
  every-append, replicate-digits, decimal-to_text, to_text-digits, pad_start-decimal,
  length-replicate, take-drop, length-take, length-drop, every-take, every-drop,
}
use opauque_stellar.Sdk.Amount.{
  ℤ, pos, negsuc, signed, strip_zeros, keep_digit, slice_to, slice_from, part_or, join,
  format_absolute, format_stroops_to_xlm, parse_xlm_to_stroops,
}
use opauque_stellar.Sdk.Amount.Value.{
  Digits, sign, point, fraction_of, stroops_of, padded_stroops, answer, parse-spelled,
}

suc_sub : (a b : ℕ) → suc a - suc b ≡ a - b
suc_sub a b = omega arith

keep_digit-pad :
    (c : ℕ) (s t : Text)
    → pad_end (length s) b'0' t ≡ s
    → pad_end (suc (length s)) b'0' (keep_digit c t) ≡ c ∷ s
keep_digit-pad c s [] e = elim (Bool-cases (c == b'0')) [
  | inl zero_digit ↦ rw zero_digit (ground (arith, e))
  | inr other ↦ rw other (ap (◌∷◌ c) (rw (suc_sub (length s) 0) e))
]
keep_digit-pad c s (d ∷ t) e = ap (◌∷◌ c) (rw (suc_sub (length s) (suc (length t))) e)

-- The zeros that were dropped are those that padding puts back.
strip_zeros-pad : (s : Text) → pad_end (length s) b'0' (strip_zeros s) ≡ s
unfolding strip_zeros
strip_zeros-pad [] = refl
strip_zeros-pad (c ∷ s) = keep_digit-pad c s (strip_zeros s) (strip_zeros-pad s)

keep_digit-Digits : (c : ℕ) (t : Text) → is_digit c ≡ true → Digits t → Digits (keep_digit c t)
keep_digit-Digits c [] h k = ground arith
keep_digit-Digits c (d ∷ t) h k = ground arith

strip_zeros-Digits : (s : Text) → Digits s → Digits (strip_zeros s)
unfolding strip_zeros
strip_zeros-Digits [] h = refl
strip_zeros-Digits (c ∷ s) h =
    keep_digit-Digits c (strip_zeros s) (ground arith) (strip_zeros-Digits s (ground arith))

length-keep_digit : (c : ℕ) (t : Text) → length (keep_digit c t) ≤ suc (length t)
length-keep_digit c [] = ground arith
length-keep_digit c (d ∷ t) = omega arith

length-strip_zeros : (s : Text) → length (strip_zeros s) ≤ length s
unfolding strip_zeros
length-strip_zeros [] = omega arith
length-strip_zeros (c ∷ s) =
    omega (arith, length-keep_digit c (strip_zeros s), length-strip_zeros s)

-- What is printed of an absolute value.
abbrev Printed : ℕ → Text → Type 0
Printed n s =
    (c : ℕ) × (w : Text) × (dot : Bool) × (fraction : Text) × (s ≡ c ∷ w ++ point dot fraction)
    × Digits (c ∷ w)
    × Digits fraction
    × (length (fraction_of dot fraction) ≤ 7)
    × (stroops_of (c ∷ w) (fraction_of dot fraction) ≡ n)

join-Printed :
    (n : ℕ) (whole fraction : Text)
    → 0 < length whole
    → Digits whole
    → Digits fraction
    → length fraction ≤ 7
    → stroops_of whole fraction ≡ n
    → Printed n (join (part_or (some whole) (codes "0")) fraction)
join-Printed n [] fraction l h k m e = absurd (omega arith)
join-Printed n (c ∷ w) [] l h k m e = (c, w, false, [], sym (append-nil (c ∷ w)), h, k, m, e)
join-Printed n (c ∷ w) (d ∷ t) l h k m e = (c, w, true, d ∷ t, refl, h, k, m, e)

-- The printed digits with their leading zeros: at least eight, spelling the number.
padded : ℕ → Text
padded n = pad_start 8 b'0' (to_text n)

padded-Digits : (n : ℕ) → Digits (padded n)
unfolding padded
padded-Digits n = every-append is_digit _ (to_text n) (replicate-digits _) (to_text-digits n)

length-padded : (n : ℕ) → 8 ≤ length (padded n)
unfolding padded
length-padded n = omega (
  arith,
  length-append (replicate (8 - length (to_text n)) b'0') (to_text n),
  length-replicate (8 - length (to_text n)) b'0',
)

padded-decimal : (n : ℕ) → decimal_from 0 (padded n) ≡ n
unfolding padded
padded-decimal n = pad_start-decimal 8 (to_text n) ∙ decimal-to_text n

-- Cut seven digits from the end, the two parts of digits spell the number in stroops.
cut_value :
    (s : Text)
    → 8 ≤ length s
    → stroops_of (slice_to 7 s) (strip_zeros (slice_from 7 s)) ≡ decimal_from 0 s
cut_value s h =
    sym (padded_stroops (slice_to 7 s) (strip_zeros (slice_from 7 s)) seven)
    ∙ ap (decimal_from 0) (ap (◌++◌ (slice_to 7 s)) restored ∙ take-drop (length s - 7) s)
  where
    length_cut : length (slice_from 7 s) ≡ 7
    length_cut = omega (arith, length-drop (length s - 7) s)

    seven : length (strip_zeros (slice_from 7 s)) ≤ 7
    seven = omega (arith, length_cut, length-strip_zeros (slice_from 7 s))

    restored : pad_end 7 b'0' (strip_zeros (slice_from 7 s)) ≡ slice_from 7 s
    restored =
        subst (λ n. pad_end n b'0' (strip_zeros (slice_from 7 s)) ≡ slice_from 7 s) length_cut
          (strip_zeros-pad (slice_from 7 s))

cut-Printed :
    (s : Text)
    → 8 ≤ length s
    → Digits s
    → Printed
        (decimal_from 0 s)
        (join (part_or (some (slice_to 7 s)) (codes "0")) (strip_zeros (slice_from 7 s)))
cut-Printed s h k =
    join-Printed _ (slice_to 7 s) (strip_zeros (slice_from 7 s))
      (omega (arith, length-take (length s - 7) s)) (every-take is_digit (length s - 7) s k)
      (strip_zeros-Digits _ (every-drop is_digit (length s - 7) s k))
      (omega (arith, length-drop (length s - 7) s, length-strip_zeros (slice_from 7 s)))
      (cut_value s h)

format_absolute-Printed : (n : ℕ) → Printed n (format_absolute n)
unfolding format_absolute padded
format_absolute-Printed n =
    subst (λ m. Printed m (format_absolute n)) (padded-decimal n)
      (cut-Printed (padded n) (length-padded n) (padded-Digits n))

answer-fits :
    (minus : Bool) (whole fraction : Text)
    → length fraction ≤ 7
    → answer minus whole fraction ≡ ok (signed minus (stroops_of whole fraction))
answer-fits minus whole fraction h = ground arith

parse-Printed :
    (minus : Bool) (n : ℕ) (s : Text)
    → Printed n s
    → parse_xlm_to_stroops (sign minus ++ s) ≡ ok (signed minus n)
parse-Printed minus n s (c, w, dot, fraction, e, h, k, l, v) =
    ap (λ t. parse_xlm_to_stroops (sign minus ++ t)) e
    ∙ parse-spelled minus c w dot fraction h k
    ∙ answer-fits minus (c ∷ w) (fraction_of dot fraction) l
    ∙ ap (λ m. ok (signed minus m)) v

-- Every amount of stroops, negative ones too, is read back from its printed text.
pub parse-format : (v : ℤ) → parse_xlm_to_stroops (format_stroops_to_xlm v) ≡ ok v
unfolding format_stroops_to_xlm
parse-format (pos n) = parse-Printed false n _ (format_absolute-Printed n)
parse-format (negsuc n) = parse-Printed true (suc n) _ (format_absolute-Printed (suc n))
