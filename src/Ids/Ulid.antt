-- ===== src/Ids/Ulid.antt =====
-- A ULID carries its millisecond, and sorts by it.
use mock_lab.Common.{
  ℕ, zero, suc, ◌/◌, ◌%◌, ◌^◌, ◌<◌, ◌≡◌, refl, [], ◌∷◌, take, true, arith, inl, ap, ltb, length,
  ◌==◌, ==_iff, ltb→lt,
}
use mock_lab.Common.Text.{Bytes}
use mock_lab.Common.Bits.{passes_under, passes_under_lem}
use mock_lab.Common.Digits.{
  Less, decode, fill, take-fill, length-fill, decode-fill, Less-fill, index_in,
}
use mock_lab.Ids.{Time, unix_milli, crockford, crockford_at, ulid_time, ulid_random, new_ulid}

abbrev crockford_value : ℕ → ℕ
crockford_value = index_in crockford

crockford_inverse : (d : ℕ) → d < 32 → crockford_value (crockford_at d) ≡ d
unfolding crockford_at crockford
crockford_inverse d h =
    (==_iff _ d).0 (passes_under_lem (λ i. crockford_value (crockford_at i) == i) 32 d h table)
  where
    table : passes_under (λ i. crockford_value (crockford_at i) == i) 32 ≡ true
    table = unfold passes_under in refl

crockford_rises : (c d : ℕ) → c < d → d < 32 → crockford_at c < crockford_at d
crockford_rises c d h k = ltb→lt _ _ (
    passes_under_lem (λ i. ltb (crockford_at i) (crockford_at d)) d c h
      (passes_under_lem (λ j. passes_under (λ i. ltb (crockford_at i) (crockford_at j)) j) 32 d k
        table))
  where
    table :
        passes_under (λ j. passes_under (λ i. ltb (crockford_at i) (crockford_at j)) j) 32 ≡ true
    table = unfold passes_under crockford_at crockford in refl

-- The loop writes the digits of a time that is not negative.
ulid_time-fill :
    (k ms : ℕ) (out : Bytes) → ms < 2 ^ 63 → ulid_time k ms out ≡ fill 32 crockford_at k ms out
unfolding ulid_time fill
ulid_time-fill zero ms out h = refl
ulid_time-fill (suc k) ms out h =
    ground (arith, ulid_time-fill k (ms / 32) (crockford_at (ms % 32) ∷ out))

new_ulid-fill :
    (now : Time) (r : ℕ → ℕ)
    → unix_milli now < 2 ^ 50
    → new_ulid now r ≡ fill 32 crockford_at 10 (unix_milli now) (ulid_random 16 0 r)
unfolding new_ulid
new_ulid-fill now r h = ulid_time-fill 10 (unix_milli now) _ (omega arith)

length-ulid_random : (k i : ℕ) (r : ℕ → ℕ) → length (ulid_random k i r) ≡ k
unfolding ulid_random
length-ulid_random zero i r = refl
length-ulid_random (suc k) i r = ap suc (length-ulid_random k (suc i) r)

-- The first ten characters of a ULID decode to its millisecond, if that fits in 50 bits, and
-- sixteen characters of randomness follow.
pub new_ulid-decodes :
    (now : Time) (r : ℕ → ℕ)
    → unix_milli now < 2 ^ 50
    → (decode 32 (index_in crockford) 0 (take 10 (new_ulid now r)) ≡ unix_milli now)
      × (length (new_ulid now r) ≡ 26)
new_ulid-decodes now r h = rw (new_ulid-fill now r h) (
  rw take-fill
      (decode-fill 32 crockford_at (omega arith) _ crockford_inverse 10 (unix_milli now) [] h),
  omega (
    arith,
    length-fill 32 crockford_at 10 (unix_milli now) (ulid_random 16 0 r),
    length-ulid_random 16 0 r,
  ),
)

-- Of two ULIDs the one of an earlier millisecond sorts first, whatever their random parts, if the
-- later millisecond fits in the 50 bits of the ten time characters.
pub new_ulid-Less :
    (t u : Time) (r s : ℕ → ℕ)
    → unix_milli t < unix_milli u
    → unix_milli u < 2 ^ 50
    → Less (new_ulid t r) (new_ulid u s)
new_ulid-Less t u r s h k =
    rw (new_ulid-fill t r (omega arith), new_ulid-fill u s k)
      (Less-fill 32 crockford_at (omega arith) crockford_rises 10 _ _ _ _ k (inl h))
