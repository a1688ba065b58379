-- ===== src/Base/Numerals/Laws.antt =====
-- Reading a printed number, and texts that `trim` and `BigInt` read as they stand.

use Prim.Native.Nat.{ℕ, zero, suc, ◌+◌, ◌-◌, ◌*◌, ◌/◌, ◌%◌, ◌^◌, ◌≤◌, ◌<◌}
use mathlib.Core.Path.{◌≡◌, refl, ap, ◌∙◌}
use mathlib.Core.Bool.{Bool, true, not}
use mathlib.Core.List.{List, [], ◌∷◌, ◌++◌}
use mathlib.Core.Option.{some}
use native.Mathlib.Omega.{arith}
use native.Mathlib.Nat.{pow-suc, zero-mul}
use opauque_stellar.Base.Lists.{length, every}
use opauque_stellar.Base.Strings.{Text}
use opauque_stellar.Base.Numerals.{
  is_space, trim_start, trim_end, trim, digit_value, parse_digits, big_int_of, big_int, is_digit,
  digits, to_text, replicate, pad_start, take, drop, decimal_from,
}

pub every-append {ℓ} :
    {A : Type ℓ} (p : A → Bool) (xs ys : List A)
    → every p xs ≡ true
    → every p ys ≡ true
    → every p (xs ++ ys) ≡ true
every-append p [] ys h k = k
every-append p (x ∷ xs) ys h k = ground (arith, every-append p xs ys)

pub every-weaken {ℓ} :
    {A : Type ℓ} (p q : A → Bool) (xs : List A)
    → ((x : A) → p x ≡ true → q x ≡ true)
    → every p xs ≡ true
    → every q xs ≡ true
every-weaken p q [] f h = refl
every-weaken p q (x ∷ xs) f h = ground (arith, f x, every-weaken p q xs f)

abbrev pub is_dark : ℕ → Bool
is_dark c = not (is_space c)

pub is_digit-is_dark : (c : ℕ) → is_digit c ≡ true → is_dark c ≡ true
unfolding is_digit is_space
is_digit-is_dark c h = ground arith

trim_start-dark : (s : Text) → every is_dark s ≡ true → trim_start s ≡ s
unfolding trim_start
trim_start-dark [] h = refl
trim_start-dark (c ∷ s) h = ground arith

trim_end-dark : (s : Text) → every is_dark s ≡ true → trim_end s ≡ s
unfolding trim_end
trim_end-dark [] h = refl
trim_end-dark (c ∷ []) h = ground arith
trim_end-dark (c ∷ d ∷ s) h = ground (arith, trim_end-dark (d ∷ s))

-- A text with no white space is its own trim.
pub trim-dark : (s : Text) → every is_dark s ≡ true → trim s ≡ s
unfolding trim
trim-dark s h = rw (trim_start-dark s h) (trim_end-dark s h)

parse_digits-decimal :
    (acc : ℕ) (s : Text)
    → every is_digit s ≡ true
    → parse_digits 10 acc s ≡ some (decimal_from acc s)
unfolding parse_digits digit_value decimal_from is_digit
parse_digits-decimal acc [] h = refl
parse_digits-decimal acc (c ∷ s) h = ground (arith, parse_digits-decimal (acc * 10 + (c - b'0')) s)

big_int_of-digits : (s : Text) → every is_digit s ≡ true → big_int_of s ≡ some (decimal_from 0 s)
unfolding big_int_of is_digit
big_int_of-digits [] h = parse_digits-decimal 0 [] h
big_int_of-digits (a ∷ []) h = parse_digits-decimal 0 (a ∷ []) h
big_int_of-digits (a ∷ b ∷ []) h = parse_digits-decimal 0 (a ∷ b ∷ []) h
big_int_of-digits (a ∷ b ∷ c ∷ s) h = ground (arith, parse_digits-decimal 0 (a ∷ b ∷ c ∷ s) h)

-- `BigInt` of digits is the number that they spell.
pub big_int-digits : (s : Text) → every is_digit s ≡ true → big_int s ≡ some (decimal_from 0 s)
unfolding big_int
big_int-digits s h =
    rw (trim-dark s (every-weaken is_digit is_dark s is_digit-is_dark h)) (big_int_of-digits s h)

pub decimal_from-append :
    (acc : ℕ) (s t : Text) → decimal_from acc (s ++ t) ≡ decimal_from (decimal_from acc s) t
unfolding decimal_from
decimal_from-append acc [] t = refl
decimal_from-append acc (c ∷ s) t = decimal_from-append (acc * 10 + (c - b'0')) s t

ten_pow : (n : ℕ) → 10 ^ suc n ≡ 10 * 10 ^ n
ten_pow n = omega (arith, pow-suc 10 n)

shift_digit :
    (acc d v p q x y : ℕ)
    → q ≡ 10 * p
    → x ≡ (acc * 10 + d) * p + v
    → y ≡ (0 * 10 + d) * p + v
    → x ≡ acc * q + y
shift_digit acc d v p q x y e f g = rw (e, f, g) (grind arith)

pub decimal_from-shift :
    (acc : ℕ) (s : Text) → decimal_from acc s ≡ acc * 10 ^ length s + decimal_from 0 s
unfolding decimal_from
decimal_from-shift acc [] = omega arith
decimal_from-shift acc (c ∷ s) =
    shift_digit acc (c - b'0') (decimal_from 0 s) (10 ^ length s) _ _ _ (ten_pow (length s))
      (decimal_from-shift (acc * 10 + (c - b'0')) s) (decimal_from-shift (0 * 10 + (c - b'0')) s)

shift_zero : (acc p q x : ℕ) → q ≡ 10 * p → x ≡ (acc * 10 + 0) * p → x ≡ acc * q
shift_zero acc p q x e f = rw (e, f) (grind arith)

pub decimal_from-zeros : (acc n : ℕ) → decimal_from acc (replicate n b'0') ≡ acc * 10 ^ n
unfolding decimal_from
decimal_from-zeros acc zero = omega arith
decimal_from-zeros acc (suc n) =
    shift_zero acc (10 ^ n) _ _ (ten_pow n) (decimal_from-zeros (acc * 10 + 0) n)

digits-decimal : (f n : ℕ) → n < f → decimal_from 0 (digits f n) ≡ n
unfolding digits decimal_from
digits-decimal zero n h = absurd (omega arith)
digits-decimal (suc f) n h = ground (
  arith,
  decimal_from-append 0 (digits f (n / 10)) ((b'0' + n % 10) ∷ []),
  digits-decimal f (n / 10),
)

digits-are : (f n : ℕ) → every is_digit (digits f n) ≡ true
unfolding digits is_digit
digits-are zero n = refl
digits-are (suc f) n = ground (
  arith,
  every-append is_digit (digits f (n / 10)) ((b'0' + n % 10) ∷ []) (digits-are f (n / 10)),
)

pub decimal-to_text : (n : ℕ) → decimal_from 0 (to_text n) ≡ n
unfolding to_text
decimal-to_text n = digits-decimal (suc n) n (omega arith)

pub to_text-digits : (n : ℕ) → every is_digit (to_text n) ≡ true
unfolding to_text
to_text-digits n = digits-are (suc n) n

pub replicate-digits : (n : ℕ) → every is_digit (replicate n b'0') ≡ true
unfolding is_digit
replicate-digits zero = refl
replicate-digits (suc n) = replicate-digits n

pub pad_start-decimal : (n : ℕ) (s : Text) → decimal_from 0 (pad_start n b'0' s) ≡ decimal_from 0 s
pad_start-decimal n s =
    decimal_from-append 0 (replicate (n - length s) b'0') s
    ∙ ap (λ a. decimal_from a s)
        (decimal_from-zeros 0 (n - length s) ∙ zero-mul (10 ^ (n - length s)))

pub length-replicate : (n c : ℕ) → length (replicate n c) ≡ n
length-replicate zero c = refl
length-replicate (suc n) c = ap suc (length-replicate n c)

pub take-drop : (n : ℕ) (s : Text) → take n s ++ drop n s ≡ s
take-drop zero s = refl
take-drop (suc n) [] = refl
take-drop (suc n) (c ∷ s) = ap (◌∷◌ c) (take-drop n s)

pub length-take : (n : ℕ) (s : Text) → n ≤ length s → length (take n s) ≡ n
length-take zero s h = refl
length-take (suc n) [] h = absurd (omega arith)
length-take (suc n) (c ∷ s) h = ap suc (length-take n s (omega arith))

pub length-drop : (n : ℕ) (s : Text) → length (drop n s) ≡ length s - n
length-drop zero s = omega arith
length-drop (suc n) [] = omega arith
length-drop (suc n) (c ∷ s) = omega (arith, length-drop n s)

pub every-take : (p : ℕ → Bool) (n : ℕ) (s : Text) → every p s ≡ true → every p (take n s) ≡ true
every-take p zero s h = refl
every-take p (suc n) [] h = refl
every-take p (suc n) (c ∷ s) h = ground (arith, every-take p n s)

pub every-drop : (p : ℕ → Bool) (n : ℕ) (s : Text) → every p s ≡ true → every p (drop n s) ≡ true
every-drop p zero s h = h
every-drop p (suc n) [] h = refl
every-drop p (suc n) (c ∷ s) h = ground (arith, every-drop p n s)
