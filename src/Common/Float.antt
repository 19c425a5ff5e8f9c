-- ===== src/Common/Float.antt =====
-- The finite values of type float64.
use Prim.Native.Nat.{ℕ, zero, suc, ◌*◌, ◌/◌, ◌^◌, ◌≤◌, ◌<◌}
use mathlib.Core.Path.{◌≡◌, ap, ◌∙◌}
use mathlib.Core.Bool.{Bool, false}
use native.Mathlib.Omega.{arith}
use native.Mathlib.Nat.{mul-div_left, mul-le-mul_right, one-le-pow}
use mock_lab.Common.Tests.{ltb, ◌==◌, if◌then◌else◌}
use mock_lab.Common.Int.{ℤ, pos, negsuc}

-- A sign, and a magnitude over a power of two. The values of an exponent above zero have one below
-- it too, with a larger magnitude.
pub record Float : Type 0 where
  pub negative : Bool
  pub magnitude : ℕ
  pub exponent : ℕ

-- The magnitude of `math.Trunc`.
abbrev pub trunc : Float → ℕ
trunc f = f.magnitude / 2 ^ f.exponent

-- `f == math.Trunc(f)`
abbrev pub is_trunc : Float → Bool
is_trunc f = f.magnitude == trunc f * 2 ^ f.exponent

-- The magnitude is above a number.
abbrev pub exceeds : ℕ → Float → Bool
exceeds n f = ltb (n * 2 ^ f.exponent) f.magnitude

abbrev pub negated : ℕ → ℤ
negated zero = pos 0
negated (suc n) = negsuc n

-- `int(f)`
abbrev pub int_of : Float → ℤ
int_of f = if f.negative then negated (trunc f) else pos (trunc f)

-- The float is the natural number `n`.
pub record IsNatural (f : Float) (n : ℕ) : Type 0 where
  pub positive : f.negative ≡ false
  pub whole : f.magnitude ≡ n * 2 ^ f.exponent

power_positive : (e : ℕ) → 0 < 2 ^ e
power_positive e = one-le-pow e 2 (omega arith)

pub trunc-IsNatural : (f : Float) (n : ℕ) → IsNatural f n → trunc f ≡ n
trunc-IsNatural f n h =
    ap (λ m. m / 2 ^ f.exponent) h.whole ∙ mul-div_left n (power_positive f.exponent)

pub exceeds-IsNatural :
    (f : Float) (n bound : ℕ) → IsNatural f n → n ≤ bound → exceeds bound f ≡ false
exceeds-IsNatural f n bound h least =
    let le : n * 2 ^ f.exponent ≤ bound * 2 ^ f.exponent =
      mul-le-mul_right (2 ^ f.exponent) least in
    ground (arith, h.whole, le)
