-- ===== src/Base/Fractions.antt =====
-- The finite numbers that are not negative: each is a numerator over a power of two. Products are
-- exact, in place of the nearest number of 53 bits.
use native.Mathlib.Nat.{
  div-mul-le_self, lt-div-mul-add, mul_left_comm, mul_assoc, pow-suc, pow-zero, add-zero, add-suc,
  pow-le-pow_right,
}
use Prim.Native.Nat.{ℕ, zero, suc, ◌+◌, ◌*◌, ◌/◌, ◌^◌, ◌≤◌, ◌<◌}
use mathlib.Core.Path.{◌≡◌}
use mathlib.Core.Logic.{inl, inr}
use mathlib.Core.Bool.{Bool}
use native.Mathlib.Omega.{arith}
use opauque_stellar.Base.Tests.{leb, leb→le, Bool-cases, if◌then◌else◌}

-- numerator / 2 ^ places
pub record Fraction : Type 0 where
  pub numerator : ℕ
  pub places : ℕ

abbrev pub int : ℕ → Fraction
int n = record { numerator = n; places = 0 }

abbrev pub times : Fraction → Fraction → Fraction
times a b = record { numerator = a.numerator * b.numerator; places = a.places + b.places }

-- Math.pow(a, n)
abbrev pub power : Fraction → ℕ → Fraction
power a n = record { numerator = a.numerator ^ n; places = a.places * n }

abbrev pub is_le : Fraction → Fraction → Bool
is_le a b = leb (a.numerator * 2 ^ b.places) (b.numerator * 2 ^ a.places)

-- Math.min(a, b)
abbrev pub least : Fraction → Fraction → Fraction
least a b = if is_le a b then a else b

-- Math.max(a, b)
abbrev pub greatest : Fraction → Fraction → Fraction
greatest a b = if is_le a b then b else a

-- Math.floor(a)
abbrev pub floor : Fraction → ℕ
floor a = a.numerator / 2 ^ a.places

-- Math.round(a): halves round up.
unfoldable pub round : Fraction → ℕ
round a = (2 * a.numerator + 2 ^ a.places) / (2 * 2 ^ a.places)

abbrev pub AtMost : Fraction → Fraction → Type 0
AtMost a b = a.numerator * 2 ^ b.places ≤ b.numerator * 2 ^ a.places

pub least-AtMost : (a b : Fraction) → AtMost (least a b) b
least-AtMost a b = elim (Bool-cases (is_le a b)) [
  | inl e ↦ rw e (leb→le _ _ e)
  | inr e ↦ rw e (omega arith)
]

pub greatest-AtMost : (a b : Fraction) → AtMost a (greatest a b)
greatest-AtMost a b = elim (Bool-cases (is_le a b)) [
  | inl e ↦ rw e (leb→le _ _ e)
  | inr e ↦ rw e (omega arith)
]

-- The whole number is within a half of the fraction, above it too.
abbrev pub IsNear : Fraction → ℕ → Type 0
IsNear a d =
    (2 * (d * 2 ^ a.places) ≤ 2 * a.numerator + 2 ^ a.places)
    × (2 * a.numerator < 2 * (d * 2 ^ a.places) + 2 ^ a.places)

power_pos : (k : ℕ) → 0 < 2 ^ k
power_pos k = pow-le-pow_right {n = 2} (omega arith) {i = 0} {j = k} (omega arith)

-- What division says of a quotient by twice a number.
halved : (x d : ℕ) → 0 < d → let q = x / (2 * d) in (2 * (q * d) ≤ x) × (x < 2 * (q * d) + 2 * d)
halved x d h =
    let q = x / (2 * d) in
    let e : q * (2 * d) ≡ 2 * (q * d) = mul_left_comm q 2 d in
    (
      omega (arith, e, div-mul-le_self x (2 * d)),
      omega (arith, e, lt-div-mul-add {a = x} {b = 2 * d} (omega arith)),
    )

pub round-IsNear : (a : Fraction) → IsNear a (round a)
unfolding round
round-IsNear a =
    let h = halved (2 * a.numerator + 2 ^ a.places) (2 ^ a.places) (power_pos a.places) in
    (h.0, omega (arith, h.1))

-- A product with a number whose places are written.
pub power_plus : (k j : ℕ) → 2 ^ (k + j) ≡ 2 ^ k * 2 ^ j
power_plus k zero = rw (add-zero k, pow-zero 2) (omega arith)
power_plus k (suc j) =
    rw (add-suc k j, pow-suc 2 (k + j), pow-suc 2 j, power_plus k j) (mul_assoc (2 ^ k) (2 ^ j) 2)
