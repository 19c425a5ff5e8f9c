-- ===== src/Reference.antt =====
-- shared/server/main.go: the reference API that the demo app calls, and its export as files.
-- The server's data are its list of projects; the only state is the counter of the job that is polled.
pub mod Categories
pub mod Export
pub mod Routes
pub mod Pages
pub mod Mirror
mod Tests
use mock_lab.Common.{
  ℕ, suc, ◌+◌, ◌%◌, Bool, true, false, List, [], ◌∷◌, ◌++◌, Option, none, some, ◌==◌, map, get_or,
  if◌then◌else◌,
}
use mock_lab.Common.Text.{Bytes, codes, text_eq, to_lower}
use mock_lab.Common.UrlPath.{clean}
use mock_lab.Common.Dict.{Dict, lookup, insert}
use mock_lab.Common.Counter.{increment}
use mock_lab.Common.Json.{Json, str, int, bool, arr, obj, end, member, elems_of}
use mock_lab.Common.Http.{Response, json, http_error, application_json}
use mock_lab.Ids.{new_order_id}
use mock_lab.Tag.{text_lt}

-- The fields of a project that the server looks at, and its whole document.
pub record Project : Type 0 where
  pub id : Bytes
  pub maturity : Bytes
  pub category : Bytes
  pub document : Json

-- The loop of `categories` that counts.
pub count_categories : Dict ℕ → List Project → Dict ℕ
count_categories counts [] = counts
count_categories counts (p ∷ ps) = count_categories (increment p.category counts) ps

-- `sort.Slice` by name, by insertion.
pub insert_count : Bytes → ℕ → Dict ℕ → Dict ℕ
insert_count name count [] = (name, count) ∷ []
insert_count name count ((other, n) ∷ out) =
    let rest = insert_count name count out in
    if text_lt other name then (other, n) ∷ rest else (name, count) ∷ (other, n) ∷ out

pub sort_counts : Dict ℕ → Dict ℕ
unfolding insert_count
sort_counts [] = []
sort_counts ((name, count) ∷ out) = insert_count name count (sort_counts out)

pub categories : List Project → Dict ℕ
unfolding count_categories sort_counts
categories projects = sort_counts (count_categories [] projects)

abbrev pub has_level : Bytes → Project → Bool
has_level level p = text_eq (to_lower p.maturity) level

abbrev pub keep : (Project → Bool) → List Project → List Project
keep test [] = []
keep test (p ∷ ps) = if test p then p ∷ keep test ps else keep test ps

pub by_maturity : Bytes → List Project → List Project
by_maturity level projects = keep (has_level (to_lower level)) projects

-- The loop of `main` that fills `byID`.
pub by_id : Dict Project → List Project → Dict Project
by_id m [] = m
by_id m (p ∷ ps) = by_id (insert p.id p m) ps

abbrev pub write_json : Json → Response
write_json v = record { status = 200; content_type = application_json; body = json v }

abbrev pub category_json : Bytes × ℕ → Json
category_json e = obj (member (codes "name") (str e.0) (member (codes "count") (int e.1) end))

abbrev pub document_of : Project → Json
document_of p = p.document

pub get_projects : List Project → Response
get_projects projects = write_json (arr (elems_of (map document_of projects)))

pub get_project : List Project → Bytes → Response
unfolding by_id
get_project projects id = elim (lookup id (by_id [] projects)) [
  | none ↦ http_error (codes "{\"error\":\"not found\"}") 404
  | some p ↦ write_json p.document
]

pub get_maturity : List Project → Bytes → Response
get_maturity projects level =
    write_json (arr (elems_of (map document_of (by_maturity level projects))))

pub get_categories : List Project → Response
get_categories projects = write_json (arr (elems_of (map category_json (categories projects))))

abbrev pub job_states : List Bytes
job_states = codes "pending" ∷ codes "running" ∷ codes "done" ∷ []

-- `GET /v1/job/status`, by the counter `jobN` and the formatted time.
pub job_status : Bytes → ℕ → ℕ × Response
job_status now n = (
  n + 1,
  write_json (
      obj (
        member (codes "checkedAt") (str now) (
          member (codes "job") (str (codes "cncf-report"))
            (member (codes "status") (str (get_or job_states (n % 3) [])) end)))),
)

-- `GET /v1/inventory/{sku}`
pub get_inventory : Bytes → Response
get_inventory sku = write_json (
    obj (
      member (codes "inStock") (bool true) (
        member (codes "quantity") (int 42) (
          member (codes "sku") (str sku)
            (member (codes "warehouse") (str (codes "us-east")) end)))))

-- `POST /v1/orders`: the Location header with the response.
pub post_order : (ℕ → ℕ) → Bytes × Response
post_order random =
    let id = new_order_id random in
    (
      codes "/v1/orders/" ++ id,
      record {
        status = 201;
        content_type = application_json;
        body = json (
            obj
              (member (codes "id") (str id) (member (codes "status") (str (codes "created")) end)));
      },
    )

-- The calls of `write` in `exportStatic`, by their paths: for the projects, and the others with the
-- server's data.
abbrev pub project_files : List Project → Dict Json
project_files [] = []
project_files (p ∷ ps) = (codes "v1/project/" ++ p.id, p.document) ∷ project_files ps

abbrev pub level_file : List Project → Bytes → Bytes × Json
level_file projects level =
    (codes "v1/maturity/" ++ level, arr (elems_of (map document_of (by_maturity level projects))))

abbrev pub other_files : List Project → Dict Json
other_files projects =
    (codes "v1/categories", arr (elems_of (map category_json (categories projects))))
    ∷ level_file projects (codes "graduated")
    ∷ level_file projects (codes "incubating")
    ∷ level_file projects (codes "sandbox")
    ∷ (codes "healthz", obj (member (codes "status") (str (codes "ok")) end))
    ∷ []

-- The calls up to the landing page, in their order.
pub data_files : List Project → Dict Json
data_files projects =
    (codes "v1/projects", arr (elems_of (map document_of projects)))
    ∷ (project_files projects ++ other_files projects)

-- Where `write` puts a file, relative to the directory of the export: `filepath.Join` cleans the path.
pub out_path : Bytes → Bytes
out_path path = clean path

-- The calls of `write` one after the other: a later file replaces an earlier one of its path. That a
-- call fails, as for a path that is a directory, is left out.
pub write_files : Dict Json → Dict Json → Dict Json
unfolding out_path
write_files tree [] = tree
write_files tree ((path, v) ∷ files) = write_files (insert (out_path path) v tree) files
