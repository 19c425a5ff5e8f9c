-- ===== src/Reference/Pages.antt =====
-- The pages of the reference API that are exported, with their paths and routes.
use mock_lab.Common.{
  ℕ, ◌≡◌, ◌⊎◌, inr, refl, ap, ◌∙◌, false, List, [], ◌∷◌, ◌++◌, Option, none, some, map, drop,
}
use mock_lab.Common.Text.{Bytes, codes, text_eq, text_eq_refl}
use mock_lab.Common.Dict.{Dict, lookup, insert, lookup-insert}
use mock_lab.Common.Json.{Json, arr, elems_of}
use mock_lab.Common.Http.{Response, http_error}
use mock_lab.Reference.{
  Project, get_projects, get_maturity, get_categories, project_files, data_files, write_json,
  other_files, document_of,
}
use mock_lab.Reference.Export.{
  written, Elsewhere, written-append, written-Elsewhere, project_path, get_project-data_files,
}
use mock_lab.Reference.Routes.{
  Route, get_healthz, all_projects, one_project, at_level, all_categories, Draw, healthy, serve,
}

-- The maturity levels that are exported.
pub data Level : Type 0 where
  graduated : Level
  incubating : Level
  sandbox : Level

abbrev pub level_text : Level → Bytes
level_text graduated = codes "graduated"
level_text incubating = codes "incubating"
level_text sandbox = codes "sandbox"

-- What is exported of the API, with its path and its route.
pub data Page : Type 0 where
  health_page : Page
  projects_page : Page
  project_page : Bytes → Page
  categories_page : Page
  level_page : Level → Page

abbrev pub path_of : Page → Bytes
path_of health_page = codes "healthz"
path_of projects_page = codes "v1/projects"
path_of (project_page id) = project_path id
path_of categories_page = codes "v1/categories"
path_of (level_page level) = codes "v1/maturity/" ++ level_text level

abbrev pub route_of : Page → Route
route_of health_page = get_healthz
route_of projects_page = all_projects
route_of (project_page id) = one_project id
route_of categories_page = all_categories
route_of (level_page level) = at_level (level_text level)

abbrev documents : List Project → Json
documents projects = arr (elems_of (map document_of projects))

-- A file is found if no later one is written over it.
last_file :
    (key : Bytes) (v : Json) (tree files : Dict Json)
    → Elsewhere key files
    → lookup key (written tree ((key, v) ∷ files)) ≡ some v
last_file key v tree files h =
    written-Elsewhere key files (insert key v tree) h
    ∙ lookup-insert key key v tree
    ∙ rw (text_eq_refl key) refl

project_files-Elsewhere :
    (projects : List Project) (more : Dict Json)
    → Elsewhere (codes "v1/projects") more
    → Elsewhere (codes "v1/projects") (project_files projects ++ more)
project_files-Elsewhere [] more h = h
project_files-Elsewhere (p ∷ ps) more h = (apart p.id, project_files-Elsewhere ps more h)
  where
    apart : (id : Bytes) → text_eq (project_path id) (codes "v1/projects") ≡ false
    apart id = unfold text_eq codes in refl

-- What a page's file and response have in common.
abbrev pub Mirrors : Option Json → Response → Type 0
Mirrors file response =
    ((file ≡ none) × (response ≡ http_error (codes "{\"error\":\"not found\"}") 404))
    ⊎ ((v : Json) × (file ≡ some v) × (response ≡ write_json v))

-- The files with a path of their own behind those of the projects, from the one at an index on.
module _ (projects : List Project) (tree : Dict Json) where
  other_from : ℕ → Dict Json
  other_from k = drop k (other_files projects)

  abbrev file_at : Bytes → Option Json
  file_at key = lookup key (written tree (other_files projects))

  categories-Mirrors : Mirrors (file_at (codes "v1/categories")) (get_categories projects)
  unfolding get_categories text_eq codes other_from
  categories-Mirrors = inr (
    _,
    last_file (codes "v1/categories") _ tree (other_from 1) (refl, (refl, (refl, (refl, tt)))),
    refl,
  )

  level-Mirrors :
      (level : Level)
      → Mirrors (file_at (path_of (level_page level))) (get_maturity projects (level_text level))
  unfolding get_maturity text_eq codes other_from
  level-Mirrors graduated = inr (
    _,
    last_file (path_of (level_page graduated)) _ _ (other_from 2) (refl, (refl, (refl, tt))),
    refl,
  )
  level-Mirrors incubating =
      inr
        (_, last_file (path_of (level_page incubating)) _ _ (other_from 3) (refl, (refl, tt)), refl)
  level-Mirrors sandbox =
      inr (_, last_file (path_of (level_page sandbox)) _ _ (other_from 4) (refl, tt), refl)

  health-Mirrors : Mirrors (file_at (codes "healthz")) (write_json healthy)
  unfolding text_eq codes other_from
  health-Mirrors = inr (_, last_file (codes "healthz") _ _ (other_from 5) tt, refl)

-- The files of the projects are written before them.
behind :
    (projects : List Project) (key : Bytes)
    → let tree = written [] ((codes "v1/projects", documents projects) ∷ project_files projects) in
      lookup key (written [] (data_files projects)) ≡ file_at projects tree key
unfolding data_files
behind projects key = ap (lookup key) (
    written-append [] ((codes "v1/projects", documents projects) ∷ project_files projects)
      (other_files projects))

projects-Mirrors :
    (projects : List Project)
    → Mirrors
        (lookup (codes "v1/projects") (written [] (data_files projects)))
        (get_projects projects)
unfolding get_projects data_files text_eq codes
projects-Mirrors projects = inr (
  documents projects,
  last_file (codes "v1/projects") (documents projects) []
      (project_files projects ++ other_files projects)
      (project_files-Elsewhere projects (other_files projects)
        (refl, (refl, (refl, (refl, (refl, tt)))))),
  refl,
)

-- The file at a page's path, if all paths are clean, against the route.
pub mirrors :
    (projects : List Project) (d : Draw) (page : Page) (n : ℕ)
    → Mirrors
        (lookup (path_of page) (written [] (data_files projects)))
        (serve projects d (route_of page) n).1.response
unfolding serve data_files
mirrors projects d health_page n =
    rw (behind projects (codes "healthz")) (health-Mirrors projects _)
mirrors projects d projects_page n = projects-Mirrors projects
mirrors projects d (project_page id) n = get_project-data_files id projects
mirrors projects d categories_page n =
    rw (behind projects (codes "v1/categories")) (categories-Mirrors projects _)
mirrors projects d (level_page level) n =
    rw (behind projects (path_of (level_page level))) (level-Mirrors projects _ level)
