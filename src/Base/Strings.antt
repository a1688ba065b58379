-- ===== src/Base/Strings.antt =====
-- JavaScript strings as lists of character codes. The identifiers that the program compares after
-- `toLowerCase` are hexadecimal, so lower case is that of ASCII.
use Prim.Native.Nat.{ℕ, ◌+◌}
use Prim.Native.Char.{code}
use Prim.Native.String.{String}
use mathlib.Core.Path.{◌≡◌, refl, ap, ap₂}
use mathlib.Core.Bool.{Bool, true, false, ◌&&◌}
use mathlib.Core.List.{List, [], ◌∷◌, ◌++◌}
use native.Mathlib.Omega.{arith}
use native.Mathlib.Decide.{ℕ_discrete}
use opauque_stellar.Base.Tests.{leb, ◌==◌, if◌then◌else◌}

abbrev pub Text : Type 0
Text = List ℕ

abbrev pub codes : String → Text
codes String.[] = []
codes (String.◌∷◌ c s) = code c ∷ codes s

abbrev pub same : Text → Text → Bool
same [] [] = true
same [] (b ∷ bs) = false
same (a ∷ as') [] = false
same (a ∷ as') (b ∷ bs) = if a == b then same as' bs else false

pub Text-discrete : Discrete Text
Text-discrete = hlevel ℕ_discrete

pub same→eq : (s t : Text) → same s t ≡ true → s ≡ t
same→eq [] [] h = refl
same→eq [] (b ∷ bs) h = ground arith
same→eq (a ∷ as') [] h = ground arith
same→eq (a ∷ as') (b ∷ bs) h = ground (arith, same→eq as' bs)

pub same_refl : (s : Text) → same s s ≡ true
same_refl [] = refl
same_refl (a ∷ as') = ground (arith, same_refl as')

-- `s.startsWith(p)` and `s.includes(p)`
abbrev pub starts_with : Text → Text → Bool
starts_with [] s = true
starts_with (a ∷ p) [] = false
starts_with (a ∷ p) (c ∷ s) = if a == c then starts_with p s else false

abbrev pub contains : Text → Text → Bool
contains p [] = starts_with p []
contains p (c ∷ s) = if starts_with p (c ∷ s) then true else contains p s

abbrev lower_code : ℕ → ℕ
lower_code c = if leb b'A' c && leb c b'Z' then c + 32 else c

-- `s.toLowerCase()`
unfoldable pub to_lower : Text → Text
to_lower [] = []
to_lower (c ∷ s) = lower_code c ∷ to_lower s

lower_code_twice : (c : ℕ) → lower_code (lower_code c) ≡ lower_code c
lower_code_twice c = ground arith

pub to_lower_twice : (s : Text) → to_lower (to_lower s) ≡ to_lower s
unfolding to_lower
to_lower_twice [] = refl
to_lower_twice (c ∷ s) = ap₂ ◌∷◌ (lower_code_twice c) (to_lower_twice s)

pub to_lower-append : (s t : Text) → to_lower (s ++ t) ≡ to_lower s ++ to_lower t
unfolding to_lower
to_lower-append [] t = refl
to_lower-append (c ∷ s) t = ap (λ x. lower_code c ∷ x) (to_lower-append s t)

shout : to_lower (codes "0xAB") ≡ codes "0xab"
unfolding to_lower
shout = refl
