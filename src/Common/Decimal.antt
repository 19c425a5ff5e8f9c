-- ===== src/Common/Decimal.antt =====
-- Decimal text of a natural number: `%d`, `strconv.Itoa`.
use Prim.Native.Nat.{ℕ, zero, suc, ◌+◌, ◌-◌, ◌/◌, ◌%◌, ◌<◌}
use mathlib.Core.Path.{◌≡◌, sym, ap, ◌∙◌}
use mathlib.Core.List.{[], ◌∷◌}
use native.Mathlib.Omega.{arith}
use mock_lab.Common.Tests.{ltb, if◌then◌else◌}
use mock_lab.Common.Text.{Bytes}
use mock_lab.Common.Digits.{decode}

-- The digits of `n` in front of `out`; the fuel bounds their number.
unfoldable pub decimal_loop : ℕ → ℕ → Bytes → Bytes
decimal_loop zero n out = out
decimal_loop (suc k) n out =
    let more = decimal_loop k (n / 10) ((b'0' + n % 10) ∷ out) in
    if ltb n 10 then (b'0' + n) ∷ out else more

unfoldable pub decimal : ℕ → Bytes
unfolding decimal_loop
decimal n = decimal_loop (suc n) n []

-- The value of a digit.
abbrev pub digit_value : ℕ → ℕ
digit_value c = c - b'0'

decode-decimal_loop :
    (k n : ℕ) (out : Bytes)
    → n < k
    → decode 10 digit_value 0 (decimal_loop k n out) ≡ decode 10 digit_value n out
unfolding decimal_loop
decode-decimal_loop zero n out h = absurd (omega arith)
decode-decimal_loop (suc k) n out h =
    ground (arith, decode-decimal_loop k (n / 10) ((b'0' + n % 10) ∷ out))

-- Reading a decimal text gives the number back: the fuel suffices.
pub decode-decimal : (n : ℕ) → decode 10 digit_value 0 (decimal n) ≡ n
unfolding decimal
decode-decimal n = decode-decimal_loop (suc n) n [] (omega arith)

-- Different numbers have different texts.
pub decimal_injective : (m n : ℕ) → decimal m ≡ decimal n → m ≡ n
decimal_injective m n e = sym (decode-decimal m) ∙ ap (decode 10 digit_value 0) e ∙ decode-decimal n
