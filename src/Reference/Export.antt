-- ===== src/Reference/Export.antt =====
-- The exported files against the API.
use mock_lab.Common.{
  ◌≡◌, ◌⊎◌, inl, inr, refl, ap, ◌∙◌, false, List, [], ◌∷◌, ◌++◌, Option, none, some, arith,
  Option-cases, map,
}
use mock_lab.Common.Text.{Bytes, codes, text_eq, text_eq-append}
use mock_lab.Common.Dict.{Dict, lookup, insert, lookup-insert}
use mock_lab.Common.Json.{Json, arr, elems_of}
use mock_lab.Common.Http.{http_error}
use mock_lab.Reference.{
  Project, by_id, get_project, project_files, data_files, write_json, other_files, document_of,
}

-- The files behind some, for paths that are clean: a later one replaces an earlier one of its path.
abbrev pub written : Dict Json → Dict Json → Dict Json
written tree [] = tree
written tree ((path, v) ∷ files) = written (insert path v tree) files

abbrev pub project_path : Bytes → Bytes
project_path id = codes "v1/project/" ++ id

pub written-append :
    (tree files more : Dict Json) → written tree (files ++ more) ≡ written (written tree files) more
written-append tree [] more = refl
written-append tree ((path, v) ∷ files) more = written-append (insert path v tree) files more

abbrev document_at : Option Project → Option Json
document_at none = none
document_at (some p) = some p.document

project_files-by_id :
    (id : Bytes) (ps : List Project) (tree : Dict Json) (m : Dict Project)
    → lookup (project_path id) tree ≡ document_at (lookup id m)
    → lookup (project_path id) (written tree (project_files ps))
      ≡ document_at (lookup id (by_id m ps))
unfolding by_id
project_files-by_id id [] tree m h = h
project_files-by_id id (p ∷ ps) tree m h =
    project_files-by_id id ps (insert (project_path p.id) p.document tree) (insert p.id p m) (
      ground (
        arith,
        lookup-insert (project_path p.id) (project_path id) p.document tree,
        lookup-insert p.id id p m,
        text_eq-append (codes "v1/project/") p.id id,
      ))

-- Files of other paths do not touch what is found at a path.
abbrev pub Elsewhere : Bytes → Dict Json → Type 0
Elsewhere key [] = Unit
Elsewhere key ((path, v) ∷ files) = (text_eq path key ≡ false) × Elsewhere key files

pub written-Elsewhere :
    (key : Bytes) (files tree : Dict Json)
    → Elsewhere key files
    → lookup key (written tree files) ≡ lookup key tree
written-Elsewhere key [] tree h = refl
written-Elsewhere key ((path, v) ∷ files) tree (p, h) =
    ground
      (arith, written-Elsewhere key files (insert path v tree) h, lookup-insert path key v tree)

pub projects_elsewhere : (id : Bytes) → text_eq (codes "v1/projects") (project_path id) ≡ false
unfolding text_eq codes
projects_elsewhere id = refl

others-Elsewhere :
    (id : Bytes) (projects : List Project) → Elsewhere (project_path id) (other_files projects)
unfolding text_eq codes
others-Elsewhere id projects = (refl, (refl, (refl, (refl, (refl, tt)))))

project_file :
    (id : Bytes) (projects : List Project)
    → lookup (project_path id) (written [] (data_files projects))
      ≡ document_at (lookup id (by_id [] projects))
unfolding data_files lookup
project_file id projects =
    let key = project_path id in
    let first = insert (codes "v1/projects") (arr (elems_of (map document_of projects))) [] in
    let base : lookup key first ≡ none = ground (
      arith,
      lookup-insert (codes "v1/projects") key (arr (elems_of (map document_of projects))) [],
      projects_elsewhere id,
    ) in
    ap (lookup key) (written-append first (project_files projects) (other_files projects))
    ∙ written-Elsewhere key (other_files projects) (written first (project_files projects))
        (others-Elsewhere id projects)
    ∙ project_files-by_id id projects first [] base

-- The file at a project's path, if all paths are clean, and what the API answers: the document of the
-- project, or no file where the API answers 404.
pub get_project-data_files :
    (id : Bytes) (projects : List Project)
    → let file = lookup (project_path id) (written [] (data_files projects)) in
      ((file ≡ none)
        × (get_project projects id ≡ http_error (codes "{\"error\":\"not found\"}") 404))
      ⊎ ((document : Json) × (file ≡ some document)
          × (get_project projects id ≡ write_json document))
unfolding get_project
get_project-data_files id projects = elim (Option-cases (lookup id (by_id [] projects))) [
  | inl e ↦ inl (project_file id projects ∙ ap document_at e, rw (get_project, e) refl)
  | inr (p, e) ↦
      inr (p.document, project_file id projects ∙ ap document_at e, rw (get_project, e) refl)
]
