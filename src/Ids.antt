-- ===== src/Ids.antt =====
-- The identifiers of languages/go/main.go that carry a time: ULID, Snowflake, ObjectId, UUIDv7,
-- xid and KSUID, and the random identifiers of languages/go and shared/server.
-- A time is its count of nanoseconds since 1970; the bytes that `rand.Read` fills in are a
-- function of their index.
pub mod Ulid
pub mod Words
pub mod Ksuid
pub mod Random
mod Tests
use Prim.Native.Nat.{bit_or}
use mock_lab.Common.{
  ℕ, zero, suc, ◌+◌, ◌-◌, ◌*◌, ◌/◌, ◌%◌, ◌^◌, List, [], ◌∷◌, ◌++◌, take, drop, get_or,
}
use mock_lab.Common.Text.{Bytes, codes}
use mock_lab.Common.Bits.{low_bits, shr, sar}
use mock_lab.Common.Hex.{hex}

abbrev pub Time : Type 0
Time = ℕ

-- The int64 results of `UnixMilli` and `Unix`, as patterns of 64 bits.
abbrev pub unix_milli : Time → ℕ
unix_milli now = now / 1_000_000 % 2 ^ 64

abbrev pub unix : Time → ℕ
unix now = now / 1_000_000_000 % 2 ^ 64

-- The bytes `b[i], …, b[i + n - 1]`.
abbrev pub slice : ℕ → ℕ → (ℕ → ℕ) → Bytes
slice i zero b = []
slice i (suc n) b = b i ∷ slice (suc i) n b

unfoldable pub crockford : Bytes
unfolding codes
crockford = codes "0123456789ABCDEFGHJKMNPQRSTVWXYZ"

pub crockford_at : ℕ → ℕ
crockford_at i = get_or crockford i 0

-- The first loop of `newULID`: `k` rounds are left, and `out` holds the characters written.
ulid_time : ℕ → ℕ → Bytes → Bytes
ulid_time zero ms out = out
ulid_time (suc k) ms out = ulid_time k (sar ms 5) (crockford_at (low_bits ms 5) ∷ out)

-- The second loop, from index `i` of the random bytes.
ulid_random : ℕ → ℕ → (ℕ → ℕ) → Bytes
ulid_random zero i r = []
ulid_random (suc k) i r = crockford_at (low_bits (r i) 5) ∷ ulid_random k (suc i) r

pub new_ulid : Time → (ℕ → ℕ) → Bytes
unfolding ulid_time
new_ulid now r = ulid_time 10 (unix_milli now) (ulid_random 16 0 r)

abbrev pub discord_epoch_millis : ℕ
discord_epoch_millis = 1420070400000

-- The subtraction wraps in int64, the conversion to uint64 keeps the pattern, and `<<` drops the
-- bits that leave the word.
pub new_snowflake : Time → (ℕ → ℕ) → ℕ
new_snowflake now r =
    let seq = bit_or (r 0 * 2 ^ 8) (r 1) in
    let since = (unix_milli now + 2 ^ 64 - discord_epoch_millis) % 2 ^ 64 in
    bit_or (since * 2 ^ 22 % 2 ^ 64) (low_bits seq 22)

-- The four bytes of a uint32, most significant first.
abbrev pub bytes_of_u32 : ℕ → Bytes
bytes_of_u32 w = shr w 24 % 256 ∷ shr w 16 % 256 ∷ shr w 8 % 256 ∷ w % 256 ∷ []

-- `%08x` of a uint32 has eight digits, those of its bytes.
pub new_object_id : Time → (ℕ → ℕ) → Bytes
new_object_id now r = hex (bytes_of_u32 (unix now % 2 ^ 32)) ++ hex (slice 0 8 r)

abbrev pub dash : Bytes → Bytes
dash s = b'-' ∷ s

pub new_uuid_v7 : Time → (ℕ → ℕ) → Bytes
new_uuid_v7 now b =
    let ms = unix_milli now in
    hex (shr ms 40 % 256 ∷ shr ms 32 % 256 ∷ shr ms 24 % 256 ∷ shr ms 16 % 256 ∷ [])
    ++ dash (
        hex (shr ms 8 % 256 ∷ ms % 256 ∷ [])
        ++ dash (
            hex (bit_or 0x70 (low_bits (b 6) 4) ∷ b 7 ∷ [])
            ++ dash (hex (bit_or 0x80 (low_bits (b 8) 6) ∷ b 9 ∷ []) ++ dash (hex (slice 10 6 b)))))

unfoldable pub xid_alphabet : Bytes
unfolding codes
xid_alphabet = codes "0123456789abcdefghijklmnopqrstuv"

pub xid_at : ℕ → ℕ
xid_at i = get_or xid_alphabet i 0

-- `base32.Encoding.EncodeToString` without padding: five bytes make eight characters.
encode_base32 : Bytes → Bytes
encode_base32 (a ∷ b ∷ c ∷ d ∷ e ∷ rest) =
    xid_at (shr a 3)
    ∷ xid_at (low_bits a 3 * 2 ^ 2 + shr b 6)
    ∷ xid_at (low_bits (shr b 1) 5)
    ∷ xid_at (low_bits b 1 * 2 ^ 4 + shr c 4)
    ∷ xid_at (low_bits c 4 * 2 + shr d 7)
    ∷ xid_at (low_bits (shr d 2) 5)
    ∷ xid_at (low_bits d 2 * 2 ^ 3 + shr e 5)
    ∷ xid_at (low_bits e 5)
    ∷ encode_base32 rest
encode_base32 (a ∷ b ∷ c ∷ d ∷ []) =
    xid_at (shr a 3)
    ∷ xid_at (low_bits a 3 * 2 ^ 2 + shr b 6)
    ∷ xid_at (low_bits (shr b 1) 5)
    ∷ xid_at (low_bits b 1 * 2 ^ 4 + shr c 4)
    ∷ xid_at (low_bits c 4 * 2 + shr d 7)
    ∷ xid_at (low_bits (shr d 2) 5)
    ∷ xid_at (low_bits d 2 * 2 ^ 3)
    ∷ []
encode_base32 (a ∷ b ∷ c ∷ []) =
    xid_at (shr a 3)
    ∷ xid_at (low_bits a 3 * 2 ^ 2 + shr b 6)
    ∷ xid_at (low_bits (shr b 1) 5)
    ∷ xid_at (low_bits b 1 * 2 ^ 4 + shr c 4)
    ∷ xid_at (low_bits c 4 * 2)
    ∷ []
encode_base32 (a ∷ b ∷ []) =
    xid_at (shr a 3)
    ∷ xid_at (low_bits a 3 * 2 ^ 2 + shr b 6)
    ∷ xid_at (low_bits (shr b 1) 5)
    ∷ xid_at (low_bits b 1 * 2 ^ 4)
    ∷ []
encode_base32 (a ∷ []) = xid_at (shr a 3) ∷ xid_at (low_bits a 3 * 2 ^ 2) ∷ []
encode_base32 [] = []

pub new_xid : Time → (ℕ → ℕ) → Bytes
unfolding encode_base32
new_xid now b = encode_base32 (bytes_of_u32 (unix now % 2 ^ 32) ++ slice 4 8 b)

unfoldable pub base62_alphabet : Bytes
unfolding codes
base62_alphabet = codes "0123456789ABCDEFGHIJKLMNOPQRSTUVWXYZabcdefghijklmnopqrstuvwxyz"

pub base62_at : ℕ → ℕ
base62_at i = get_or base62_alphabet i 0

abbrev pub ksuid_epoch : ℕ
ksuid_epoch = 1400000000

-- `big.Int.SetBytes`
pub set_bytes : ℕ → Bytes → ℕ
set_bytes n [] = n
set_bytes n (c ∷ s) = set_bytes (n * 256 + c) s

-- The loop of `newKSUID`: `k` rounds are left, and `out` holds the characters written.
ksuid_loop : ℕ → ℕ → Bytes → Bytes
ksuid_loop zero n out = out
ksuid_loop (suc k) n out = ksuid_loop k (n / 62) (base62_at (n % 62) ∷ out)

-- The low 32 bits of the int64 difference.
pub new_ksuid : Time → (ℕ → ℕ) → Bytes
unfolding ksuid_loop set_bytes
new_ksuid now b =
    let ts = (unix now + 2 ^ 64 - ksuid_epoch) % 2 ^ 32 in
    ksuid_loop 27 (set_bytes 0 (bytes_of_u32 ts ++ slice 4 16 b)) []

-- `randID`, over the `n` random bytes.
unfoldable pub rand_id : Bytes → ℕ → (ℕ → ℕ) → Bytes
rand_id prefix n b = prefix ++ hex (slice 0 n b)

-- The UUID shape of `trackEvent` over its identifier `h`, by slices.
pub event_id : Bytes → Bytes
event_id h =
    take 8 h
    ++ dash (
        take 4 (drop 8 h)
        ++ dash (take 4 (drop 12 h) ++ dash (take 4 (drop 16 h) ++ dash (take 12 (drop 20 h)))))

-- `newOrderID` of shared/server.
pub new_order_id : (ℕ → ℕ) → Bytes
new_order_id b =
    let h = hex (slice 0 16 b) in
    take 8 h
    ++ dash (
        take 4 (drop 8 h)
        ++ dash (take 4 (drop 12 h) ++ dash (take 4 (drop 16 h) ++ dash (take 12 (drop 20 h)))))
