-- ===== src/Base/Numerals.antt =====
-- What the language does with numerals: `trim`, `BigInt` of a text, `toString` of a number, and
-- `padStart`, `padEnd` and `slice` of a text.
pub mod Laws
use Prim.Native.Nat.{ℕ, zero, suc, ◌+◌, ◌-◌, ◌*◌, ◌/◌, ◌%◌}
use mathlib.Core.Bool.{Bool, ◌&&◌, ◌||◌}
use mathlib.Core.List.{[], ◌∷◌, ◌++◌}
use mathlib.Core.Option.{Option, none, some}
use native.Mathlib.Omega.{arith}
use opauque_stellar.Base.Tests.{ltb, leb, ◌==◌, if◌then◌else◌}
use opauque_stellar.Base.Lists.{length, every}
use opauque_stellar.Base.Strings.{Text}

-- The white space that `trim` and `BigInt` pass over.
unfoldable pub is_space : ℕ → Bool
is_space c =
    (leb 9 c && leb c 13)
    || (c == 32
        || (c == 160
            || (c == 0x1680
                || ((leb 0x2000 c && leb c 0x200a)
                    || (c == 0x2028
                        || (c == 0x2029
                            || (c == 0x202f || (c == 0x205f || (c == 0x3000 || c == 0xfeff)))))))))

unfoldable pub trim_start : Text → Text
unfolding is_space
trim_start [] = []
trim_start (c ∷ s) = if is_space c then trim_start s else c ∷ s

-- Drops the trailing white space: what is left of the tail decides whether the head stays.
abbrev keep_char : ℕ → Text → Text
keep_char c [] = if is_space c then [] else c ∷ []
keep_char c (d ∷ s) = c ∷ d ∷ s

unfoldable pub trim_end : Text → Text
unfolding is_space
trim_end [] = []
trim_end (c ∷ s) = keep_char c (trim_end s)

unfoldable pub trim : Text → Text
unfolding trim_start trim_end
trim s = trim_end (trim_start s)

-- The value of a digit in either case; 36 for what is no digit.
unfoldable pub digit_value : ℕ → ℕ
digit_value c =
    if leb b'0' c && leb c b'9'
    then c - b'0'
    else (if leb b'a' c && leb c b'z'
        then c - b'a' + 10
        else (if leb b'A' c && leb c b'Z' then c - b'A' + 10 else 36))

unfoldable pub parse_digits : ℕ → ℕ → Text → Option ℕ
unfolding digit_value
parse_digits base acc [] = some acc
parse_digits base acc (c ∷ s) =
    let rest = parse_digits base (acc * base + digit_value c) s in
    if ltb (digit_value c) base then rest else none

-- The language's BigInt of a text with no sign: the prefixes 0x, 0o and 0b in either case, or
-- decimal digits.
unfoldable pub big_int_of : Text → Option ℕ
unfolding parse_digits
big_int_of (a ∷ b ∷ c ∷ s) =
    if a == b'0' && (b == b'x' || b == b'X')
    then parse_digits 16 0 (c ∷ s)
    else (if a == b'0' && (b == b'b' || b == b'B')
        then parse_digits 2 0 (c ∷ s)
        else (if a == b'0' && (b == b'o' || b == b'O')
            then parse_digits 8 0 (c ∷ s)
            else parse_digits 10 0 (a ∷ b ∷ c ∷ s)))
big_int_of s = parse_digits 10 0 s

unfoldable pub big_int : Text → Option ℕ
unfolding big_int_of trim
big_int s = big_int_of (trim s)

unfoldable pub is_digit : ℕ → Bool
is_digit c = leb b'0' c && leb c b'9'

-- The decimal digits of `n`, with fuel for them.
unfoldable pub digits : ℕ → ℕ → Text
digits zero n = []
digits (suc f) n =
    let rest = digits f (n / 10) in
    if ltb n 10 then (b'0' + n) ∷ [] else rest ++ ((b'0' + n % 10) ∷ [])

-- `n.toString()`: a number has fewer digits than its successor has units.
unfoldable pub to_text : ℕ → Text
unfolding digits
to_text n = digits (suc n) n

abbrev pub replicate : ℕ → ℕ → Text
replicate zero c = []
replicate (suc n) c = c ∷ replicate n c

abbrev pub pad_start : ℕ → ℕ → Text → Text
pad_start n c s = replicate (n - length s) c ++ s

abbrev pub pad_end : ℕ → ℕ → Text → Text
pad_end n c s = s ++ replicate (n - length s) c

abbrev pub take : ℕ → Text → Text
take zero s = []
take (suc n) [] = []
take (suc n) (c ∷ s) = c ∷ take n s

abbrev pub drop : ℕ → Text → Text
drop zero s = s
drop (suc n) [] = []
drop (suc n) (c ∷ s) = drop n s

-- The number that a text of digits spells behind `acc`.
unfoldable pub decimal_from : ℕ → Text → ℕ
decimal_from acc [] = acc
decimal_from acc (c ∷ s) = decimal_from (acc * 10 + (c - b'0')) s
