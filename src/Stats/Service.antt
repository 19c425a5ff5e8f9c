-- ===== src/Stats/Service.antt =====
-- labs/pyroscope/cmd/app/main.go and labs/pyroscope/cmd/catalog/main.go: the statistics of a fetched
-- catalog, and the catalog that the lab serves.
use mock_lab.Common.{
  take, ℕ, zero, suc, ◌-◌, ◌%◌, ◌⊎◌, inl, inr, not, List, [], ◌∷◌, ◌++◌, ◌==◌, get_or, take, length,
  if◌then◌else◌,
}
use mock_lab.Common.Text.{Bytes, codes}
use mock_lab.Common.Decimal.{decimal}
use mock_lab.Stats.{Project, Result, build}

-- What the GET of the catalog brings back: the request is not built, the call fails, or a response
-- arrives, with its status, the text of the status, and its body.
pub data Fetched : Type 0 where
  not_built : Bytes → Fetched
  not_called : Bytes → Fetched
  found : ℕ → Bytes → Bytes → Fetched

-- 16 MiB
abbrev pub max_catalog_response_bytes : ℕ
max_catalog_response_bytes = 16_777_216

-- `fetchAndBuild`, by how the JSON decoder reads a body: an error, or the projects.
unfoldable pub fetch_and_build : (Bytes → Bytes ⊎ List Project) → Fetched → Bytes ⊎ Result
fetch_and_build decode (not_built err) = inl (codes "build downstream request: " ++ err)
fetch_and_build decode (not_called err) = inl (codes "fetch catalog: " ++ err)
fetch_and_build decode (found status text page) =
    if not (status == 200)
    then inl (codes "catalog returned " ++ text)
    else elim (decode (take max_catalog_response_bytes page)) [
      | inl err ↦ inl (codes "decode catalog: " ++ err)
      | inr projects ↦ inr (build projects)
    ]

-- `%0wd`
abbrev pub zeros : ℕ → Bytes
zeros zero = []
zeros (suc n) = b'0' ∷ zeros n

unfoldable pub padded : ℕ → ℕ → Bytes
padded width n = zeros (width - length (decimal n)) ++ decimal n

abbrev pub categories : List Bytes
categories = codes "runtime" ∷ codes "database" ∷ codes "observability" ∷ codes "security" ∷ []

abbrev pub category_at : ℕ → Bytes
category_at i = get_or categories (i % 4) []

abbrev pub project_at : ℕ → Project
project_at i = record {
  id = codes "project-" ++ padded 5 i;
  name = codes "Project " ++ padded 5 i;
  category = category_at i;
}

-- The first loop of `buildDataset`: `k` rounds are left, at index `i`.
unfoldable pub unique_from : ℕ → ℕ → List Project
unique_from zero i = []
unique_from (suc k) i =
    let rest = unique_from k (suc i) in
    if i % 4 == 0 then project_at i ∷ project_at i ∷ rest else project_at i ∷ rest

-- The second loop.
unfoldable pub malformed_from : ℕ → ℕ → List Project
malformed_from zero i = []
malformed_from (suc k) i =
    record { id = []; name = codes "Malformed " ++ padded 3 i; category = codes "invalid" }
    ∷ malformed_from k (suc i)

abbrev pub unique_projects : ℕ
unique_projects = 12_000

-- `buildDataset`, by the number of different projects.
unfoldable pub build_dataset : ℕ → List Project
unfolding unique_from malformed_from
build_dataset n = unique_from n 0 ++ malformed_from 120 0
