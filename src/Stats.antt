-- ===== src/Stats.antt =====
-- labs/pyroscope/internal/stats/stats.go: validation, deduplication and aggregation of a catalog.
pub mod Dedup
pub mod Counts
pub mod Service
pub mod Dataset
mod Tests
use mock_lab.Common.{
  ℕ, ◌+◌, ◌-◌, Bool, true, false, ◌||◌, List, [], ◌∷◌, ◌++◌, if◌then◌else◌, length, Option, none,
  some,
}
use mock_lab.Common.Text.{Bytes, text_eq, trim_space, is_empty}
use mock_lab.Common.Dict.{Dict}
use mock_lab.Common.Counter.{increment}

pub record Project : Type 0 where
  pub id : Bytes
  pub name : Bytes
  pub category : Bytes

pub record Result : Type 0 where
  pub total_records : ℕ
  pub valid_records : ℕ
  pub unique_projects : ℕ
  pub duplicates_removed : ℕ
  pub invalid_records : ℕ
  pub by_category : Dict ℕ

pub is_invalid : Project → Bool
is_invalid p =
    is_empty (trim_space p.id) || is_empty (trim_space p.name) || is_empty (trim_space p.category)

-- The inner loop of `deduplicateProjects`, which stops at the first project of that ID.
pub is_duplicate : Bytes → List Project → Bool
is_duplicate id [] = false
is_duplicate id (existing ∷ unique) =
    let rest = is_duplicate id unique in if text_eq existing.id id then true else rest

-- The outer loop: the projects kept so far, and the number of invalid ones.
dedup_from : List Project → ℕ → List Project → List Project × ℕ
dedup_from unique invalid [] = (unique, invalid)
dedup_from unique invalid (project ∷ projects) =
    let skipped = dedup_from unique (invalid + 1) projects in
    let repeated = dedup_from unique invalid projects in
    let kept = dedup_from (unique ++ project ∷ []) invalid projects in
    if is_invalid project
    then skipped
    else if is_duplicate project.id unique
    then repeated
    else kept

pub deduplicate_projects : List Project → List Project × ℕ
unfolding dedup_from
deduplicate_projects projects = dedup_from [] 0 projects

-- The loop with `byCategory[project.Category]++`.
tally : Dict ℕ → List Project → Dict ℕ
tally m [] = m
tally m (project ∷ unique) = tally (increment project.category m) unique

pub build : List Project → Result
unfolding deduplicate_projects tally
build projects =
    let (unique, invalid) = deduplicate_projects projects in
    let by_category = tally [] unique in
    let valid = length projects - invalid in
    record {
      total_records = length projects;
      valid_records = valid;
      unique_projects = length unique;
      duplicates_removed = valid - length unique;
      invalid_records = invalid;
      by_category = by_category;
    }
