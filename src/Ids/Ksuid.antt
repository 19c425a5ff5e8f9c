-- ===== src/Ids/Ksuid.antt =====
-- A KSUID carries its second, and sorts by it.
use native.Mathlib.Nat.{pow-suc, pow-zero}
use mock_lab.Common.{
  ℕ, zero, suc, ◌+◌, ◌-◌, ◌*◌, ◌/◌, ◌%◌, ◌^◌, ◌≤◌, ◌<◌, ◌≡◌, refl, [], ◌∷◌, true, arith, inl, ltb,
  ltb→lt, length, ◌==◌, ==_iff, ap,
}
use mock_lab.Common.Text.{Bytes}
use mock_lab.Common.Bits.{passes_under, passes_under_lem, shr}
use mock_lab.Common.Digits.{Less, decode, index_in, fill, length-fill, decode-fill, Less-fill}
use mock_lab.Common.Hex.{IsByte}
use mock_lab.Ids.{
  Time, unix, slice, base62_alphabet, base62_at, ksuid_epoch, set_bytes, ksuid_loop, new_ksuid,
}

base62_inverse : (d : ℕ) → d < 62 → index_in base62_alphabet (base62_at d) ≡ d
unfolding base62_at base62_alphabet
base62_inverse d h =
    (==_iff _ d).0
      (passes_under_lem (λ i. index_in base62_alphabet (base62_at i) == i) 62 d h table)
  where
    table : passes_under (λ i. index_in base62_alphabet (base62_at i) == i) 62 ≡ true
    table = unfold passes_under in refl

base62_rises : (c d : ℕ) → c < d → d < 62 → base62_at c < base62_at d
base62_rises c d h k = ltb→lt _ _ (
    passes_under_lem (λ i. ltb (base62_at i) (base62_at d)) d c h
      (passes_under_lem (λ j. passes_under (λ i. ltb (base62_at i) (base62_at j)) j) 62 d k table))
  where
    table : passes_under (λ j. passes_under (λ i. ltb (base62_at i) (base62_at j)) j) 62 ≡ true
    table = unfold passes_under base62_at base62_alphabet in refl

ksuid_loop-fill : (k n : ℕ) (out : Bytes) → ksuid_loop k n out ≡ fill 62 base62_at k n out
unfolding ksuid_loop fill
ksuid_loop-fill zero n out = refl
ksuid_loop-fill (suc k) n out = ksuid_loop-fill k (n / 62) (base62_at (n % 62) ∷ out)

-- What the random bytes add lies below their power of 256.
set_bytes-slice :
    (b : ℕ → ℕ) (k i n : ℕ)
    → ((j : ℕ) → IsByte (b j))
    → (t : ℕ) × (set_bytes n (slice i k b) ≡ n * 256 ^ k + t) × (t < 256 ^ k)
unfolding set_bytes
set_bytes-slice b zero i n h = (0, omega (arith, pow-zero 256), omega (arith, pow-zero 256))
set_bytes-slice b (suc k) i n h =
    let (t, e, lt) = set_bytes-slice b k (suc i) (n * 256 + b i) h in
    let byte : b i < 256 = h i in
    (
      b i * 256 ^ k + t,
      omega (arith, e, ap (λ (m : ℕ). n * m) (pow-suc 256 k)),
      grind (arith, lt, byte, pow-suc 256 k),
    )

-- The uint32 at the head of a KSUID.
abbrev seconds : Time → ℕ
seconds now = (unix now + 2 ^ 64 - ksuid_epoch) % 2 ^ 32

-- The 160 bits that a KSUID spells: its second above 128 bits of randomness.
ksuid_bits :
    (now : Time) (b : ℕ → ℕ)
    → ((j : ℕ) → IsByte (b j))
    → (t : ℕ) × (new_ksuid now b ≡ fill 62 base62_at 27 (seconds now * 2 ^ 128 + t) [])
      × (t < 2 ^ 128)
unfolding new_ksuid set_bytes
ksuid_bits now b h =
    let w : ℕ = seconds now in
    let head : ℕ =
      (((0 * 256 + shr w 24 % 256) * 256 + shr w 16 % 256) * 256 + shr w 8 % 256) * 256 + w % 256 in
    let (t, e, lt) = set_bytes-slice b 16 4 head h in
    let same : set_bytes head (slice 4 16 b) ≡ w * 2 ^ 128 + t = omega (arith, e) in
    (t, rw (ksuid_loop-fill 27 _ []) (ap (λ n. fill 62 base62_at 27 n []) same), lt)

-- The number that a KSUID spells in base 62 has its second, less the KSUID epoch, above the low
-- 128 bits, if that is not negative and fits in 32 bits and the random source gives bytes; and a
-- KSUID has 27 characters.
pub new_ksuid-decodes :
    (now : Time) (b : ℕ → ℕ)
    → ((j : ℕ) → IsByte (b j))
    → ksuid_epoch ≤ unix now
    → unix now < ksuid_epoch + 2 ^ 32
    → (decode 62 (index_in base62_alphabet) 0 (new_ksuid now b) / 2 ^ 128 + ksuid_epoch ≡ unix now)
      × (length (new_ksuid now b) ≡ 27)
new_ksuid-decodes now b h lo hi =
    let (t, e, lt) = ksuid_bits now b h in
    let n : ℕ = seconds now * 2 ^ 128 + t in
    rw e (
      omega (
        arith,
        decode-fill 62 base62_at (omega arith) (index_in base62_alphabet) base62_inverse 27 n []
            (omega arith),
      ),
      omega (arith, length-fill 62 base62_at 27 n []),
    )

-- Of two KSUIDs the one of an earlier second sorts first, whatever their random bytes, if both
-- seconds lie within the 32 bits that follow the KSUID epoch.
pub new_ksuid-Less :
    (t u : Time) (b c : ℕ → ℕ)
    → ((j : ℕ) → IsByte (b j))
    → ((j : ℕ) → IsByte (c j))
    → ksuid_epoch ≤ unix t
    → unix t < unix u
    → unix u < ksuid_epoch + 2 ^ 32
    → Less (new_ksuid t b) (new_ksuid u c)
new_ksuid-Less t u b c hb hc lo lt hi =
    let (x, e, below) = ksuid_bits t b hb in
    let (y, f, under) = ksuid_bits u c hc in
    rw (e, f)
      (Less-fill 62 base62_at (omega arith) base62_rises 27 _ _ [] [] (omega arith)
        (inl (omega arith)))
