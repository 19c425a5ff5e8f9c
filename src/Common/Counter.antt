-- ===== src/Common/Counter.antt =====
-- Counters: maps from names to numbers, where a missing key reads as zero.
use mock_lab.Common.Tests.{if◌then◌else◌}
use mock_lab.Common.Lists.{length}
use mock_lab.Common.Text.{Bytes, text_eq, text_eq_iff}
use mock_lab.Common.Dict.{Dict, lookup, insert, lookup-insert}
use Prim.Native.Nat.{ℕ, ◌+◌}
use mathlib.Core.Path.{◌≡◌}
use mathlib.Core.Option.{none, some}
use mathlib.Core.List.{List, [], ◌∷◌}
use native.Mathlib.Omega.{arith}

-- `m[k]`
unfoldable pub count_of : Bytes → Dict ℕ → ℕ
count_of k m = elim (lookup k m) [ none ↦ 0 | some n ↦ n ]

-- `m[k]++`
unfoldable pub increment : Bytes → Dict ℕ → Dict ℕ
increment k m = insert k (count_of k m + 1) m

-- The sum of the values.
abbrev pub total : Dict ℕ → ℕ
total [] = 0
total ((_, n) ∷ m) = n + total m

-- How often a name occurs in a list.
abbrev pub occurrences : Bytes → List Bytes → ℕ
occurrences k [] = 0
occurrences k (j ∷ js) = (if text_eq j k then 1 else 0) + occurrences k js

-- The loop that counts each name of a list.
unfoldable pub tally : Dict ℕ → List Bytes → Dict ℕ
tally m [] = m
tally m (k ∷ ks) = tally (increment k m) ks

pub count_of-increment :
    (c k : Bytes) (m : Dict ℕ)
    → count_of c (increment k m) ≡ (if text_eq k c then 1 else 0) + count_of c m
unfolding count_of increment
count_of-increment c k m = ground (arith, lookup-insert k c (count_of k m + 1) m, text_eq_iff k c)

total-insert : (k : Bytes) (n : ℕ) (m : Dict ℕ) → total (insert k n m) + count_of k m ≡ total m + n
unfolding count_of insert lookup
total-insert k n [] = omega arith
total-insert k n ((j, v) ∷ m) = ground (arith, total-insert k n m)

pub total-increment : (k : Bytes) (m : Dict ℕ) → total (increment k m) ≡ total m + 1
unfolding increment
total-increment k m = omega (arith, total-insert k (count_of k m + 1) m)

pub count_of-tally :
    (c : Bytes) (m : Dict ℕ) (ks : List Bytes)
    → count_of c (tally m ks) ≡ count_of c m + occurrences c ks
unfolding tally
count_of-tally c m [] = omega arith
count_of-tally c m (k ∷ ks) =
    omega (arith, count_of-tally c (increment k m) ks, count_of-increment c k m)

pub total-tally : (m : Dict ℕ) (ks : List Bytes) → total (tally m ks) ≡ total m + length ks
unfolding tally
total-tally m [] = omega arith
total-tally m (k ∷ ks) = omega (arith, total-tally (increment k m) ks, total-increment k m)
