-- ===== src/Common/Int.antt =====
-- Integers, as Go's `int` without its bound.
use Prim.Native.Nat.{ℕ, suc}
use mathlib.Core.Path.{◌≡◌, ap}
use mathlib.Core.Logic.{◌↔◌}
use mathlib.Core.Bool.{Bool, true, false}
use mathlib.Core.List.{◌∷◌}
use native.Mathlib.Omega.{arith}
use mock_lab.Common.Tests.{◌==◌}
use mock_lab.Common.Text.{Bytes}
use mock_lab.Common.Decimal.{decimal}

-- `negsuc n` is -1 - n.
pub data ℤ : Type 0 where
  pos : ℕ → ℤ
  negsuc : ℕ → ℤ

-- `z == n` for a number `n` that is not negative.
abbrev pub is_nat : ℕ → ℤ → Bool
is_nat n (pos m) = m == n
is_nat n (negsuc m) = false

pub is_nat_iff : (n : ℕ) (z : ℤ) → (is_nat n z ≡ true) ↔ (z ≡ pos n)
is_nat_iff n (pos m) = (λ h. ap pos (ground arith), λ e. ground arith)
is_nat_iff n (negsuc m) = (λ h. cc h, λ e. cc e)

-- `%d`
abbrev pub decimal_int : ℤ → Bytes
decimal_int (pos n) = decimal n
decimal_int (negsuc n) = b'-' ∷ decimal (suc n)
