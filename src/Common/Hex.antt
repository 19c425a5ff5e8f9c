-- ===== src/Common/Hex.antt =====
-- Hexadecimal text: `hex.EncodeToString` and the format `%x` on bytes.
use Prim.Native.Nat.{ℕ, ◌+◌, ◌-◌, ◌*◌, ◌/◌, ◌%◌, ◌<◌}
use mathlib.Core.Path.{◌≡◌, refl, ap, ap₂, ◌∙◌}
use mathlib.Core.Bool.{Bool, true, ◌&&◌, ◌||◌}
use mathlib.Core.List.{[], ◌∷◌, ◌++◌}
use native.Mathlib.Omega.{arith}
use mock_lab.Common.Tests.{ltb, leb, if◌then◌else◌}
use mock_lab.Common.Lists.{length, All, all, All-of_all}
use mock_lab.Common.Text.{Bytes}
use mock_lab.Common.Digits.{decode}

-- The lower-case digit of a value below 16.
unfoldable pub hex_digit : ℕ → ℕ
hex_digit d = if ltb d 10 then b'0' + d else 87 + d

-- The value of a lower-case digit.
unfoldable pub hex_value : ℕ → ℕ
hex_value c = if leb c b'9' then c - b'0' else c - 87

pub hex_value-hex_digit : (d : ℕ) → d < 16 → hex_value (hex_digit d) ≡ d
unfolding hex_value hex_digit
hex_value-hex_digit d h = ground arith

unfoldable pub hex : Bytes → Bytes
hex [] = []
hex (c ∷ s) = hex_digit (c / 16) ∷ hex_digit (c % 16) ∷ hex s

abbrev pub IsByte : ℕ → Type 0
IsByte c = c < 256

abbrev pub IsBytes : Bytes → Type 0
IsBytes = All IsByte

-- The texts whose bytes pass the test.
pub IsBytes-of_all : (s : Bytes) → all (λ c. ltb c 256) s ≡ true → IsBytes s
IsBytes-of_all = All-of_all IsByte (λ c. ltb c 256) (λ c e. ground arith)

pub length-hex : (s : Bytes) → length (hex s) ≡ 2 * length s
unfolding hex
length-hex [] = refl
length-hex (c ∷ s) = omega (arith, length-hex s)

pub hex-append : (s t : Bytes) → hex (s ++ t) ≡ hex s ++ hex t
unfolding hex
hex-append [] t = refl
hex-append (c ∷ s) t = cc (hex-append s t)

-- Different bytes have different texts.
pub hex_injective : (s t : Bytes) → IsBytes s → IsBytes t → hex s ≡ hex t → s ≡ t
unfolding hex
hex_injective [] [] _ _ e = refl
hex_injective (c ∷ s) (d ∷ t) (p, h) (q, k) e =
    ap₂ ◌∷◌
      (ground (
        arith,
        hex_value-hex_digit (c / 16),
        hex_value-hex_digit (c % 16),
        hex_value-hex_digit (d / 16),
        hex_value-hex_digit (d % 16),
      ))
      (hex_injective s t h k (ground arith))
hex_injective [] (d ∷ t) _ _ e = cc
hex_injective (c ∷ s) [] _ _ e = cc

-- Reading the text of some bytes is reading the bytes, base 256.
pub decode-hex :
    (acc : ℕ) (s : Bytes) → IsBytes s → decode 16 hex_value acc (hex s) ≡ decode 256 (λ c. c) acc s
unfolding hex
decode-hex acc [] _ = refl
decode-hex acc (c ∷ s) (p, h) =
    let e : (acc * 16 + hex_value (hex_digit (c / 16))) * 16 + hex_value (hex_digit (c % 16))
        ≡ acc * 256 + c =
      omega (arith, hex_value-hex_digit (c / 16), hex_value-hex_digit (c % 16)) in
    ap (λ m. decode 16 hex_value m (hex s)) e ∙ decode-hex (acc * 256 + c) s h

-- A lower-case digit.
abbrev pub is_hex : ℕ → Bool
is_hex c = leb b'0' c && leb c b'9' || leb b'a' c && leb c b'f'

hex_digit-is_hex : (d : ℕ) → d < 16 → is_hex (hex_digit d) ≡ true
unfolding hex_digit
hex_digit-is_hex d h = ground arith

pub hex-is_hex : (s : Bytes) → IsBytes s → All (λ c. is_hex c ≡ true) (hex s)
unfolding hex
hex-is_hex [] h = tt
hex-is_hex (c ∷ s) (p, h) = (
  hex_digit-is_hex (c / 16) (omega arith),
  (hex_digit-is_hex (c % 16) (omega arith), hex-is_hex s h),
)
