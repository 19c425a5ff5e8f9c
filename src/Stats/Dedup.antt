-- ===== src/Stats/Dedup.antt =====
-- What deduplication keeps: the first valid project of each ID, and nothing else.
use mock_lab.Common.{
  ℕ, ◌+◌, ◌≡◌, refl, true, false, List, [], ◌∷◌, ◌++◌, if◌then◌else◌, All, All-append, arith,
  Option, none, some, append_assoc, append-nil,
}
use mock_lab.Common.Text.{Bytes, text_eq, text_eq_iff}
use mock_lab.Stats.{Project, is_invalid, is_duplicate, dedup_from, deduplicate_projects}

-- The first valid project of an ID.
pub first_valid : Bytes → List Project → Option Project
first_valid id [] = none
first_valid id (p ∷ ps) =
    let rest = first_valid id ps in
    if is_invalid p then rest else if text_eq p.id id then some p else rest

-- No ID occurs twice.
abbrev pub Distinct : List Project → Type 0
Distinct [] = Unit
Distinct (p ∷ ps) = (is_duplicate p.id ps ≡ false) × Distinct ps

pub is_duplicate-append :
    (id : Bytes) (ps qs : List Project)
    → is_duplicate id (ps ++ qs) ≡ (if is_duplicate id ps then true else is_duplicate id qs)
unfolding is_duplicate
is_duplicate-append id [] qs = refl
is_duplicate-append id (p ∷ ps) qs = ground (arith, is_duplicate-append id ps qs)

Distinct-concat :
    (ps : List Project) (q : Project)
    → Distinct ps
    → is_duplicate q.id ps ≡ false
    → Distinct (ps ++ q ∷ [])
unfolding is_duplicate
Distinct-concat [] q h e = (refl, tt)
Distinct-concat (p ∷ ps) q (f, h) e = (
  ground
      (arith, is_duplicate-append p.id ps (q ∷ []), text_eq_iff p.id q.id, text_eq_iff q.id p.id),
  Distinct-concat ps q h (ground arith),
)

first_valid-append :
    (id : Bytes) (ps qs : List Project)
    → All (λ p. is_invalid p ≡ false) ps
    → first_valid id (ps ++ qs)
      ≡ (if is_duplicate id ps then first_valid id ps else first_valid id qs)
unfolding first_valid is_duplicate
first_valid-append id [] qs h = refl
first_valid-append id (p ∷ ps) qs (v, h) = ground (arith, first_valid-append id ps qs h)

abbrev IsKept : List Project → Type 0
IsKept unique = Distinct unique × All (λ p. is_invalid p ≡ false) unique

dedup_from-IsKept :
    (unique : List Project) (n : ℕ) (ps : List Project)
    → IsKept unique
    → IsKept (dedup_from unique n ps).0
unfolding dedup_from
dedup_from-IsKept unique n [] h = h
dedup_from-IsKept unique n (p ∷ ps) (d, v) = ground (
  arith,
  dedup_from-IsKept unique (n + 1) ps (d, v),
  dedup_from-IsKept unique n ps (d, v),
  dedup_from-IsKept (unique ++ p ∷ []) n ps,
  Distinct-concat unique p d,
  All-append (λ q. is_invalid q ≡ false) unique (p ∷ []) v,
)

first_valid-dedup_from :
    (id : Bytes) (unique : List Project) (n : ℕ) (ps : List Project)
    → All (λ p. is_invalid p ≡ false) unique
    → first_valid id (dedup_from unique n ps).0 ≡ first_valid id (unique ++ ps)
unfolding dedup_from first_valid
first_valid-dedup_from id unique n [] v = rw append-nil
first_valid-dedup_from id unique n (p ∷ ps) v = ground (
  arith,
  first_valid-dedup_from id unique (n + 1) ps v,
  first_valid-dedup_from id unique n ps v,
  first_valid-dedup_from id (unique ++ p ∷ []) n ps,
  All-append (λ q. is_invalid q ≡ false) unique (p ∷ []) v,
  first_valid-append id unique ps v,
  first_valid-append id unique (p ∷ ps) v,
  append_assoc unique (p ∷ []) ps,
  text_eq_iff p.id id,
)

-- Deduplication keeps only valid projects and no ID twice, and for every ID it keeps exactly the
-- first valid project of the input that has this ID.
pub deduplicate_projects_lem :
    (ps : List Project)
    → let unique = (deduplicate_projects ps).0 in
      Distinct unique
      × All (λ p. is_invalid p ≡ false) unique
      × ((id : Bytes) → first_valid id unique ≡ first_valid id ps)
unfolding deduplicate_projects
deduplicate_projects_lem ps =
    let (d, v) = dedup_from-IsKept [] 0 ps (tt, tt) in
    (d, v, λ id. first_valid-dedup_from id [] 0 ps tt)
