-- ===== src/Reference/Mirror.antt =====
-- The files of `exportStatic` as a mirror of the routes of the reference API.
use mock_lab.Common.{
  All, All-append, all, not, ◌==◌, true, ℕ, ◌≡◌, refl, ap, ◌∙◌, false, List, [], ◌∷◌,
}
use mock_lab.Common.Text.{Bytes, codes, text_eq, is_empty, join}
use mock_lab.Common.UrlPath.{segments, segments_one, clean_segments, clean}
use mock_lab.Common.Dict.{Dict, lookup, insert}
use mock_lab.Common.Json.{Json}
use mock_lab.Reference.{Project, project_files, data_files, other_files, out_path, write_files}
use mock_lab.Reference.Export.{written, project_path}
use mock_lab.Reference.Routes.{Draw, serve}
use mock_lab.Reference.Pages.{
  Level, graduated, incubating, sandbox, Page, health_page, projects_page, project_page,
  categories_page, level_page, path_of, route_of, Mirrors, mirrors,
}

-- A project ID that can name a file.
pub record IsFileName (id : Bytes) : Type 0 where
  pub no_slash : all (λ c. not (c == b'/')) id ≡ true
  pub full : is_empty id ≡ false
  pub not_dot : text_eq id (codes ".") ≡ false
  pub not_dots : text_eq id (codes "..") ≡ false

abbrev pub HasName : Page → Type 0
HasName (project_page id) = IsFileName id
HasName _ = Unit

abbrev IsClean : Bytes → Type 0
IsClean path = out_path path ≡ path

project_path-IsClean : (id : Bytes) → IsFileName id → IsClean (project_path id)
unfolding out_path clean segments clean_segments codes join text_eq
project_path-IsClean id h = rw (segments_one id h.no_slash, h.full, h.not_dot, h.not_dots) refl

path_of-IsClean : (page : Page) → HasName page → IsClean (path_of page)
unfolding out_path clean segments clean_segments codes join text_eq
path_of-IsClean health_page h = refl
path_of-IsClean projects_page h = refl
path_of-IsClean (project_page id) h = project_path-IsClean id h
path_of-IsClean categories_page h = refl
path_of-IsClean (level_page graduated) h = refl
path_of-IsClean (level_page incubating) h = refl
path_of-IsClean (level_page sandbox) h = refl

abbrev AreClean : Dict Json → Type 0
AreClean = All (λ e. IsClean e.0)

project_files-AreClean :
    (projects : List Project)
    → All (λ p. IsFileName p.id) projects
    → AreClean (project_files projects)
project_files-AreClean [] h = tt
project_files-AreClean (p ∷ ps) (named, h) =
    (project_path-IsClean p.id named, project_files-AreClean ps h)

data_files-AreClean :
    (projects : List Project) → All (λ p. IsFileName p.id) projects → AreClean (data_files projects)
unfolding data_files
data_files-AreClean projects h =
    let level = λ (l : Level). path_of-IsClean (level_page l) tt in
    (
      path_of-IsClean projects_page tt,
      All-append (λ (e : Bytes × Json). IsClean e.0) (project_files projects) (other_files projects)
          (project_files-AreClean projects h)
          (
            path_of-IsClean categories_page tt,
            (
              level graduated,
              (level incubating, (level sandbox, (path_of-IsClean health_page tt, tt))),
            ),
          ),
    )

write_files-AreClean :
    (tree files : Dict Json) → AreClean files → write_files tree files ≡ written tree files
unfolding write_files
write_files-AreClean tree [] h = refl
write_files-AreClean tree ((path, v) ∷ files) (p, h) =
    ap (λ k. write_files (insert k v tree) files) p
    ∙ write_files-AreClean (insert path v tree) files h

-- `exportStatic` mirrors the API: for the health of the server, the projects, a project of any ID, the
-- categories and each of the three maturity levels, the file at the path of the URL has the document
-- that the route answers with, and it is missing where the route answers 404; provided that the IDs
-- can name files: they are not empty, hold no slash, and are not a dot or two.
pub serve-data_files :
    (projects : List Project) (d : Draw) (page : Page) (n : ℕ)
    → All (λ p. IsFileName p.id) projects
    → HasName page
    → Mirrors
        (lookup (out_path (path_of page)) (write_files [] (data_files projects)))
        (serve projects d (route_of page) n).1.response
serve-data_files projects d page n named has_name =
    rw
      (
        path_of-IsClean page has_name,
        write_files-AreClean [] (data_files projects) (data_files-AreClean projects named),
      )
      (mirrors projects d page n)
