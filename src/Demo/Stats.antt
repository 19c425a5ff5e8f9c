-- ===== src/Demo/Stats.antt =====
-- The summary of `statsHandler`.
use mock_lab.Common.{
  ℕ, ◌+◌, ◌≡◌, ◌≤◌, List, [], ◌∷◌, ◌++◌, Option, none, some, arith, length, Option-cases, inl, inr,
}
use mock_lab.Common.Text.{Bytes, codes}
use mock_lab.Common.Dict.{Dict, lookup}
use mock_lab.Common.Counter.{
  count_of, increment, total, occurrences, count_of-increment, total-increment,
}
use mock_lab.Common.Json.{Json, Members, member, obj, int, end, get, as_string}
use mock_lab.Common.Http.{Fetched, answered}
use mock_lab.Demo.{by_maturity, counts_json, decode_projects, stats_handler, write_json}

-- The maturity levels of the projects that have a level that is a string.
abbrev pub levels : List Members → List Bytes
levels [] = []
levels (p ∷ ps) = elim (as_string (get (codes "maturity") p)) [
  | none ↦ levels ps
  | some l ↦ l ∷ levels ps
]

count_of-by_maturity :
    (c : Bytes) (m : Dict ℕ) (ps : List Members)
    → count_of c (by_maturity m ps) ≡ count_of c m + occurrences c (levels ps)
unfolding by_maturity
count_of-by_maturity c m [] = omega arith
count_of-by_maturity c m (p ∷ ps) = elim (Option-cases (as_string (get (codes "maturity") p))) [
  | inl e ↦ ground (arith, count_of-by_maturity c m ps)
  | inr (l, e) ↦ ground (arith, count_of-by_maturity c (increment l m) ps, count_of-increment c l m)
]

total-by_maturity :
    (m : Dict ℕ) (ps : List Members) → total (by_maturity m ps) ≡ total m + length (levels ps)
unfolding by_maturity
total-by_maturity m [] = omega arith
total-by_maturity m (p ∷ ps) = elim (Option-cases (as_string (get (codes "maturity") p))) [
  | inl e ↦ ground (arith, total-by_maturity m ps)
  | inr (l, e) ↦ ground (arith, total-by_maturity (increment l m) ps, total-increment l m)
]

length-levels : (ps : List Members) → length (levels ps) ≤ length ps
length-levels [] = omega arith
length-levels (p ∷ ps) = elim (Option-cases (as_string (get (codes "maturity") p))) [
  | inl e ↦ ground (arith, length-levels ps)
  | inr (l, e) ↦ ground (arith, length-levels ps)
]

-- For a catalog that decodes to a list of objects, `statsHandler` answers 200 with the number of the
-- objects and a map that counts, for every level, the projects of this level; projects whose level
-- is missing or no string are in no count, so that the counts add up to the number at most.
pub stats_handler_lem :
    (http_get : Bytes → Fetched) (downstream : Bytes) {status : ℕ} {page : Bytes}
    {document : Option Json} {projects : List Members}
    → http_get (downstream ++ codes "/v1/projects") ≡ answered status page document
    → decode_projects document ≡ some projects
    → let m = by_maturity [] projects in
      (stats_handler http_get downstream
        ≡ write_json 200 (
            obj (
              member
                (codes "by_maturity")
                (obj (counts_json m))
                (member (codes "total") (int (length projects)) end))))
      × ((c : Bytes) → count_of c m ≡ occurrences c (levels projects))
      × (total m ≤ length projects)
unfolding stats_handler count_of lookup
stats_handler_lem http_get downstream {projects} e d = (
  ground arith,
  λ c. omega (arith, count_of-by_maturity c [] projects),
  omega (arith, total-by_maturity [] projects, length-levels projects),
)
