-- ===== src/Stats/Tests.antt =====
-- The catalog aggregation on a concrete list.
use mock_lab.Common.{
  ℕ, ◌*◌, ◌≤◌, ◌⊎◌, length, arith, ◌+◌, ◌-◌, ◌/◌, ◌<◌, inr, ◌≡◌, refl, false, List, [], ◌∷◌, All,
}
use mock_lab.Common.Text.{Bytes, codes, text_eq, trim_space}
use mock_lab.Common.Dict.{lookup, insert}
use mock_lab.Common.Counter.{count_of, increment}
use mock_lab.Stats.Service.{found, fetch_and_build, build_dataset, unique_projects, category_at}
use mock_lab.Stats.Dataset.{fetch_and_build-build_dataset}
use mock_lab.Stats.{Project, Result, is_invalid, build, deduplicate_projects, is_duplicate}
use mock_lab.Stats.Dedup.{Distinct, first_valid, deduplicate_projects_lem}
use mock_lab.Stats.Counts.{count_invalid, count_new, count_repeated, build_accounts}

abbrev entry : Bytes → Bytes → Bytes → Project
entry i n c = record { id = i; name = n; category = c }

abbrev sample : List Project
sample =
    entry (codes "a") (codes "A") (codes "db")
    ∷ entry (codes " ") (codes "B") (codes "db")
    ∷ entry (codes "a") (codes "C") (codes "net")
    ∷ entry (codes "b") (codes "D") (codes "db")
    ∷ []

build-sample :
    let r = build sample in
    (r.total_records ≡ 4)
    × (r.valid_records ≡ 3)
    × (r.unique_projects ≡ 2)
    × (r.duplicates_removed ≡ 1)
    × (r.invalid_records ≡ 1)
    × (r.by_category ≡ (codes "db", 2) ∷ [])
unfolding build is_invalid is_duplicate trim_space text_eq codes insert increment count_of lookup
build-sample = (refl, refl, refl, refl, refl, refl)

deduplicate_projects_lem_example :
    let unique = (deduplicate_projects sample).0 in
    Distinct unique
    × All (λ p. is_invalid p ≡ false) unique
    × ((id : Bytes) → first_valid id unique ≡ first_valid id sample)
deduplicate_projects_lem_example = deduplicate_projects_lem sample

build_accounts_example :
    let r = build sample in
    (r.total_records ≡ 4)
    × (r.invalid_records ≡ count_invalid sample)
    × (r.unique_projects ≡ count_new [] sample)
    × (r.duplicates_removed ≡ count_repeated [] sample)
    × (r.valid_records ≡ count_new [] sample + count_repeated [] sample)
build_accounts_example = build_accounts sample

-- A decoder that reads the catalog from any body.
abbrev reads_dataset : Bytes → Bytes ⊎ List Project
reads_dataset page = inr (build_dataset unique_projects)

short : length (codes "{}") ≤ 16 * 1024 * 1024
unfolding codes
short = omega arith

fetch_and_build-build_dataset_example :
    (r : Result) × (fetch_and_build reads_dataset (found 200 (codes "200 OK") (codes "{}")) ≡ inr r)
    × (r.total_records ≡ 15_120)
    × (r.valid_records ≡ 15_000)
    × (r.unique_projects ≡ 12_000)
    × (r.duplicates_removed ≡ 3_000)
    × (r.invalid_records ≡ 120)
    × ((j : ℕ) → j < 4 → count_of (category_at j) r.by_category ≡ (12_003 - j) / 4)
fetch_and_build-build_dataset_example =
    fetch_and_build-build_dataset reads_dataset unique_projects (codes "200 OK") (codes "{}") short
      refl
