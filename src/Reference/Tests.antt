-- ===== src/Reference/Tests.antt =====
-- The reference API on three projects.
use mock_lab.Common.{All, all, not, ◌==◌, true, false, ℕ, ◌≡◌, refl, List, [], ◌∷◌, map, length}
use mock_lab.Common.Text.{Bytes, codes, text_eq}
use mock_lab.Common.Dict.{lookup, insert}
use mock_lab.Common.Counter.{count_of, increment, total, occurrences}
use mock_lab.Common.Json.{str}
use mock_lab.Tag.{text_lt}
use mock_lab.Reference.{
  Project, out_path, write_files, job_status, categories, get_project, data_files, write_json,
}
use mock_lab.Reference.Categories.{Ascending, category_of, categories_lem}
use mock_lab.Reference.Routes.{at_level, get_job, Draw, serve}
use mock_lab.Reference.Pages.{sandbox, level_page, Mirrors}
use mock_lab.Reference.Mirror.{IsFileName, serve-data_files}

abbrev project : Bytes → Bytes → Project
project id category = record {
  id = id;
  maturity = codes "Sandbox";
  category = category;
  document = str id;
}

abbrev landscape : List Project
landscape =
    project (codes "a") (codes "Storage")
    ∷ project (codes "b") (codes "Network")
    ∷ project (codes "c") (codes "Storage")
    ∷ []

categories_test : categories landscape ≡ (codes "Network", 1) ∷ (codes "Storage", 2) ∷ []
unfolding categories mock_lab.Reference.count_categories mock_lab.Reference.sort_counts
    mock_lab.Reference.insert_count text_lt increment insert count_of lookup text_eq codes
categories_test = refl

categories_lem_example :
    Ascending (categories landscape)
    × ((c : Bytes) → count_of c (categories landscape) ≡ occurrences c (map category_of landscape))
    × (total (categories landscape) ≡ length landscape)
categories_lem_example = categories_lem landscape

abbrev draw : Draw
draw = record { random = λ i. 0; now = codes "2024-01-02T03:04:05Z" }

-- Three polls of the job.
polls : let poll = λ (n : ℕ). (serve landscape draw get_job n).0 in poll (poll (poll 0)) ≡ 3
unfolding serve job_status
polls = refl

landscape_named : All (λ p. IsFileName p.id) landscape
unfolding text_eq codes
landscape_named =
    (letter b'a' refl refl refl, (letter b'b' refl refl refl, (letter b'c' refl refl refl, tt)))
  where
    letter :
        (c : ℕ)
        → all (λ x. not (x == b'/')) (c ∷ []) ≡ true
        → text_eq (c ∷ []) (codes ".") ≡ false
        → text_eq (c ∷ []) (codes "..") ≡ false
        → IsFileName (c ∷ [])
    letter c plain dot dots = record {
      no_slash = plain;
      full = refl;
      not_dot = dot;
      not_dots = dots;
    }

serve-data_files_example :
    Mirrors
      (lookup (out_path (codes "v1/maturity/sandbox")) (write_files [] (data_files landscape)))
      (serve landscape draw (at_level (codes "sandbox")) 7).1.response
unfolding codes
serve-data_files_example = serve-data_files landscape draw (level_page sandbox) 7 landscape_named tt
