-- ===== src/Shop/Postgres/Uuid.antt =====
-- uuidString of tutorial/go/store.go: a reader of UUID texts, and the round trip.
use mock_lab.Common.{
  ℕ, zero, suc, ◌+◌, ◌*◌, ◌/◌, ◌%◌, ◌≡◌, ◌<◌, refl, sym, subst, ap, ◌∙◌, take, drop, ◌++◌, inl, inr,
  false, ◌||◌, [], ◌∷◌, Option, none, some, ◌==◌, if◌then◌else◌, Bool-cases, length, arith,
}
use mathlib.Core.Option
use mock_lab.Common.Text.{Bytes}
use mock_lab.Common.Hex.{hex, hex_digit, hex_value, hex_value-hex_digit, IsBytes}
use mock_lab.Ids.{slice}
use mock_lab.Shop.Postgres.{uuid_from, uuid_string}

-- The bytes that are no dashes.
pub without_dashes : Bytes → Bytes
without_dashes [] = []
without_dashes (c ∷ s) = if c == b'-' then without_dashes s else c ∷ without_dashes s

-- Pairs of hexadecimal digits.
pub unhex : Bytes → Option Bytes
unhex [] = some []
unhex (c ∷ []) = none
unhex (c ∷ d ∷ s) = Option.map (λ b. (hex_value c * 16 + hex_value d) ∷ b) (unhex s)

-- How a UUID is read, wherever its dashes stand.
unfoldable pub read_uuid : Bytes → Option Bytes
unfolding without_dashes unhex
read_uuid s = unhex (without_dashes s)

unhex-hex : (b : Bytes) → IsBytes b → unhex (hex b) ≡ some b
unfolding unhex hex
unhex-hex [] h = refl
unhex-hex (c ∷ b) (p, h) =
    let e : hex_value (hex_digit (c / 16)) * 16 + hex_value (hex_digit (c % 16)) ≡ c =
      omega (arith, hex_value-hex_digit (c / 16), hex_value-hex_digit (c % 16)) in
    rw (unhex-hex b h) (ap (λ d. some (d ∷ b)) e)

digit-no_dash : (d : ℕ) → d < 16 → (hex_digit d == b'-') ≡ false
unfolding hex_digit
digit-no_dash d h = ground arith

without_dashes-uuid_from : (i : ℕ) (b : Bytes) → IsBytes b → without_dashes (uuid_from i b) ≡ hex b
unfolding without_dashes uuid_from hex
without_dashes-uuid_from i [] h = refl
without_dashes-uuid_from i (c ∷ b) (p, h) =
    let rest = without_dashes-uuid_from (suc i) b h in
    let hi = digit-no_dash (c / 16) (omega arith) in
    let lo = digit-no_dash (c % 16) (omega arith) in
    elim (Bool-cases (i == 4 || i == 6 || i == 8 || i == 10)) [
      | inl dash ↦ rw (dash, hi, lo, rest) refl
      | inr none' ↦ rw (none', hi, lo, rest) refl
    ]

-- The number of dashes from index `i` on, over `n` bytes.
dashes : ℕ → ℕ → ℕ
dashes i zero = 0
dashes i (suc n) = (if i == 4 || i == 6 || i == 8 || i == 10 then 1 else 0) + dashes (suc i) n

length-uuid_from : (i : ℕ) (b : Bytes) → length (uuid_from i b) ≡ 2 * length b + dashes i (length b)
unfolding uuid_from dashes
length-uuid_from i [] = refl
length-uuid_from i (c ∷ b) = ground (arith, length-uuid_from (suc i) b)

-- The form of a UUID: groups of 8, 4, 4, 4 and 12 hexadecimal digits, with a dash between two.
abbrev pub grouped : Bytes → Bytes
grouped b =
    hex (take 4 b)
    ++ b'-'
      ∷ (hex (take 2 (drop 4 b))
          ++ b'-'
            ∷ (hex (take 2 (drop 6 b))
                ++ b'-' ∷ (hex (take 2 (drop 8 b)) ++ b'-' ∷ hex (drop 10 b))))

byte_at : Bytes → ℕ → ℕ
byte_at [] i = 0
byte_at (c ∷ b) zero = c
byte_at (c ∷ b) (suc i) = byte_at b i

slice-suc : (i n : ℕ) (f : ℕ → ℕ) → slice (suc i) n f ≡ slice i n (λ j. f (suc j))
slice-suc i zero f = refl
slice-suc i (suc n) f = ap (λ s. f (suc i) ∷ s) (slice-suc (suc i) n f)

slice-byte_at : (b : Bytes) → slice 0 (length b) (byte_at b) ≡ b
unfolding byte_at
slice-byte_at [] = refl
slice-byte_at (c ∷ b) = ap (λ s. c ∷ s) (slice-suc 0 (length b) (byte_at (c ∷ b)) ∙ slice-byte_at b)

uuid_string-slice : (f : ℕ → ℕ) → uuid_string (slice 0 16 f) ≡ grouped (slice 0 16 f)
unfolding uuid_string uuid_from hex
uuid_string-slice f = refl

uuid_string-grouped : (b : Bytes) → length b ≡ 16 → uuid_string b ≡ grouped b
uuid_string-grouped b size =
    let same : slice 0 16 (byte_at b) ≡ b =
      ap (λ n. slice 0 n (byte_at b)) (sym size) ∙ slice-byte_at b in
    subst (λ x. uuid_string x ≡ grouped x) same (uuid_string-slice (byte_at b))

-- The text of a UUID of sixteen bytes has the form 8-4-4-4-12 and 36 bytes, and reading it gives the
-- sixteen bytes back.
pub uuid_string_lem :
    (b : Bytes)
    → length b ≡ 16
    → IsBytes b
    → (uuid_string b ≡ grouped b)
      × (length (uuid_string b) ≡ 36)
      × (read_uuid (uuid_string b) ≡ some b)
unfolding uuid_string read_uuid
uuid_string_lem b size bytes = (
  uuid_string-grouped b size,
  length-uuid_from 0 b ∙ rw size (unfold dashes in refl),
  ap unhex (without_dashes-uuid_from 0 b bytes) ∙ unhex-hex b bytes,
)
