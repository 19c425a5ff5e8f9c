-- ===== src/Ids/Tests.antt =====
-- The identifiers at one time.
use mock_lab.Common.{ℕ, ◌+◌, ◌/◌, ◌^◌, ◌≡◌, refl, take, length, arith}
use mock_lab.Common.Text.{codes}
use mock_lab.Common.Digits.{decode, index_in}
use mock_lab.Common.Hex.{hex, hex_digit}
use mock_lab.Ids.{
  Time, unix, new_ulid, new_uuid_v7, new_ksuid, ksuid_epoch, crockford, crockford_at,
  base62_alphabet,
}
use mock_lab.Ids.Ksuid.{new_ksuid-decodes}

-- 2023-11-14T22:13:20Z, and a second later.
abbrev sample_time : Time
sample_time = 1_700_000_000_000_000_000

abbrev later_time : Time
later_time = 1_700_000_001_000_000_000

abbrev sample_bytes : ℕ → ℕ
sample_bytes i = 171

abbrev other_bytes : ℕ → ℕ
other_bytes i = 9

new_ulid_test : take 10 (new_ulid sample_time sample_bytes) ≡ codes "01HF7YAT00"
unfolding new_ulid crockford_at crockford
new_ulid_test = refl

new_uuid_v7_test :
    new_uuid_v7 sample_time sample_bytes ≡ codes "018bcfe5-6800-7bab-abab-abababababab"
unfolding new_uuid_v7 hex hex_digit codes
new_uuid_v7_test = refl

new_ksuid-decodes_example :
    (decode 62 (index_in base62_alphabet) 0 (new_ksuid sample_time sample_bytes) / 2 ^ 128
        + ksuid_epoch
      ≡ unix sample_time)
    × (length (new_ksuid sample_time sample_bytes) ≡ 27)
new_ksuid-decodes_example =
    new_ksuid-decodes sample_time sample_bytes (λ j. omega arith) (omega arith) (omega arith)
