-- ===== src/Ids/Words.antt =====
-- The time in a Snowflake, an ObjectId, a UUIDv7 and an xid.
use Prim.Native.Nat.{bit_or}
use mock_lab.Common.{
  ℕ, ◌+◌, ◌-◌, ◌*◌, ◌/◌, ◌%◌, ◌^◌, ◌≤◌, ◌<◌, ◌≡◌, refl, ◌∙◌, [], ◌∷◌, ◌++◌, take, drop, true, arith,
  length, ◌==◌, ==_iff, get_or, map,
}
use mock_lab.Common.Text.{Bytes}
use mock_lab.Common.Bits.{passes_under, passes_under_lem, low_bits, shr, bit_or-shifted}
use mock_lab.Common.Digits.{decode, index_in}
use mock_lab.Common.Hex.{
  hex, hex_digit, hex_value, hex_value-hex_digit, IsByte, IsBytes, decode-hex,
}
use mock_lab.Ids.{
  Time, unix_milli, unix, discord_epoch_millis, new_snowflake, bytes_of_u32, new_object_id,
  new_uuid_v7, xid_alphabet, xid_at, new_xid,
}

-- A Snowflake holds the milliseconds since its epoch above its 22 low bits, if they fit in 42 bits,
-- and the two random bytes, unmasked, in the low bits.
pub new_snowflake-fields :
    (now : Time) (r : ℕ → ℕ)
    → IsByte (r 0)
    → IsByte (r 1)
    → discord_epoch_millis ≤ unix_milli now
    → unix_milli now < discord_epoch_millis + 2 ^ 42
    → (new_snowflake now r / 2 ^ 22 + discord_epoch_millis ≡ unix_milli now)
      × (new_snowflake now r % 2 ^ 22 ≡ r 0 * 256 + r 1)
unfolding new_snowflake
new_snowflake-fields now r p q lo hi =
    let seq : bit_or (r 0 * 2 ^ 8) (r 1) ≡ r 0 * 256 + r 1 =
      bit_or-shifted 8 (r 0) (r 1) (omega arith) in
    let since : ℕ = (unix_milli now + 2 ^ 64 - discord_epoch_millis) % 2 ^ 64 in
    ground (arith, bit_or-shifted 22 since (low_bits (bit_or (r 0 * 2 ^ 8) (r 1)) 22) (omega arith))

bytes_of_u32-IsBytes : (w : ℕ) → IsBytes (bytes_of_u32 w)
bytes_of_u32-IsBytes w = omega arith

decode-bytes_of_u32 : (w : ℕ) → w < 2 ^ 32 → decode 256 (λ c. c) 0 (bytes_of_u32 w) ≡ w
decode-bytes_of_u32 w h = omega arith

-- The first eight characters of an ObjectId are the low 32 bits of its second, and it has 24.
pub new_object_id-decodes :
    (now : Time) (r : ℕ → ℕ)
    → (decode 16 hex_value 0 (take 8 (new_object_id now r)) ≡ unix now % 2 ^ 32)
      × (length (new_object_id now r) ≡ 24)
unfolding new_object_id hex
new_object_id-decodes now r =
    let w : ℕ = unix now % 2 ^ 32 in
    (
      decode-hex 0 (bytes_of_u32 w) (bytes_of_u32-IsBytes w) ∙ decode-bytes_of_u32 w (omega arith),
      refl,
    )

-- The six bytes of the time in a UUIDv7.
abbrev uuid_time : ℕ → Bytes
uuid_time ms =
    shr ms 40 % 256
    ∷ shr ms 32 % 256
    ∷ shr ms 24 % 256
    ∷ shr ms 16 % 256
    ∷ shr ms 8 % 256
    ∷ ms % 256
    ∷ []

version_nibble : (b : ℕ) → hex_digit (bit_or 0x70 (low_bits b 4) / 16) ≡ b'7'
unfolding hex_digit
version_nibble b = ground (arith, bit_or-shifted 4 7 (b % 16) (omega arith))

variant_nibble : (b : ℕ) → hex_value (hex_digit (bit_or 0x80 (low_bits b 6) / 16)) / 4 ≡ 2
variant_nibble b = ground (
  arith,
  bit_or-shifted 6 2 (b % 64) (omega arith),
  hex_value-hex_digit (bit_or 0x80 (low_bits b 6) / 16),
)

-- A UUIDv7 has 36 characters with dashes at 8, 13, 18 and 23; its first twelve hexadecimal digits
-- are the low 48 bits of the millisecond; then the version digit is 7, and the top two bits of the
-- variant digit are 10.
pub new_uuid_v7-fields :
    (now : Time) (b : ℕ → ℕ)
    → let u = new_uuid_v7 now b in
      (length u ≡ 36)
      × (decode 16 hex_value 0 (take 8 u ++ take 4 (drop 9 u)) ≡ unix_milli now % 2 ^ 48)
      × (map (λ i. get_or u i 0) (8 ∷ 13 ∷ 18 ∷ 23 ∷ []) ≡ b'-' ∷ b'-' ∷ b'-' ∷ b'-' ∷ [])
      × (get_or u 14 0 ≡ b'7')
      × (hex_value (get_or u 19 0) / 4 ≡ 2)
unfolding new_uuid_v7 hex
new_uuid_v7-fields now b = (
  refl,
  decode-hex 0 (uuid_time (unix_milli now)) (omega arith) ∙ omega arith,
  refl,
  version_nibble (b 6),
  variant_nibble (b 8),
)

xid_inverse : (d : ℕ) → d < 32 → index_in xid_alphabet (xid_at d) ≡ d
unfolding xid_at xid_alphabet
xid_inverse d h =
    (==_iff _ d).0 (passes_under_lem (λ i. index_in xid_alphabet (xid_at i) == i) 32 d h table)
  where
    table : passes_under (λ i. index_in xid_alphabet (xid_at i) == i) 32 ≡ true
    table = unfold passes_under in refl

abbrev xid_head : ℕ → ℕ → ℕ → ℕ → ℕ → Bytes
xid_head a b c d e =
    xid_at (shr a 3)
    ∷ xid_at (low_bits a 3 * 2 ^ 2 + shr b 6)
    ∷ xid_at (low_bits (shr b 1) 5)
    ∷ xid_at (low_bits b 1 * 2 ^ 4 + shr c 4)
    ∷ xid_at (low_bits c 4 * 2 + shr d 7)
    ∷ xid_at (low_bits (shr d 2) 5)
    ∷ xid_at (low_bits d 2 * 2 ^ 3 + shr e 5)
    ∷ []

-- Seven characters hold four bytes and the top three bits of the fifth.
decode-xid_head :
    (a b c d e : ℕ)
    → a < 256
    → b < 256
    → c < 256
    → d < 256
    → e < 256
    → decode 32 (index_in xid_alphabet) 0 (xid_head a b c d e)
      ≡ (((a * 256 + b) * 256 + c) * 256 + d) * 8 + e / 32
decode-xid_head a b c d e ha hb hc hd he =
    rw
      (
        xid_inverse (shr a 3) (omega arith),
        xid_inverse (low_bits a 3 * 2 ^ 2 + shr b 6) (omega arith),
        xid_inverse (low_bits (shr b 1) 5) (omega arith),
        xid_inverse (low_bits b 1 * 2 ^ 4 + shr c 4) (omega arith),
        xid_inverse (low_bits c 4 * 2 + shr d 7) (omega arith),
        xid_inverse (low_bits (shr d 2) 5) (omega arith),
        xid_inverse (low_bits d 2 * 2 ^ 3 + shr e 5) (omega arith),
      )
      (omega arith)

-- The first seven characters of an xid hold 35 bits, of which the top 32 are the second, and it
-- has 20 characters.
pub new_xid-decodes :
    (now : Time) (b : ℕ → ℕ)
    → IsByte (b 4)
    → (decode 32 (index_in xid_alphabet) 0 (take 7 (new_xid now b)) / 2 ^ 3 ≡ unix now % 2 ^ 32)
      × (length (new_xid now b) ≡ 20)
unfolding new_xid
new_xid-decodes now b h =
    let w : ℕ = unix now % 2 ^ 32 in
    let e : decode 32 (index_in xid_alphabet) 0 (take 7 (new_xid now b)) ≡ w * 8 + b 4 / 32 =
      decode-xid_head (shr w 24 % 256) (shr w 16 % 256) (shr w 8 % 256) (w % 256) (b 4)
        (omega arith) (omega arith) (omega arith) (omega arith) h
      ∙ omega arith in
    (omega (arith, e), refl)
