-- ===== src/Stats/Counts.antt =====
-- The totals of the aggregation.
use mock_lab.Common.{
  ℕ, ◌+◌, ◌≡◌, refl, subst, inl, inr, Bool, true, false, not, ◌&&◌, ◌||◌, Bool-cases, List, [], ◌∷◌,
  ◌++◌, if◌then◌else◌, length, length-append, arith,
}
use mock_lab.Common.Text.{Bytes, text_eq, text_eq_iff}
use mock_lab.Common.Dict.{Dict, lookup}
use mock_lab.Common.Counter.{count_of, increment, total, count_of-increment, total-increment}
use mock_lab.Stats.{
  Project, is_invalid, is_duplicate, dedup_from, deduplicate_projects, tally, build,
}
use mock_lab.Stats.Dedup.{is_duplicate-append}

-- The number of invalid records of a list.
abbrev pub count_invalid : List Project → ℕ
count_invalid [] = 0
count_invalid (p ∷ ps) = (if is_invalid p then 1 else 0) + count_invalid ps

-- The number of projects of one category.
abbrev pub count_category : Bytes → List Project → ℕ
count_category c [] = 0
count_category c (p ∷ ps) = (if text_eq p.category c then 1 else 0) + count_category c ps

dedup_from-invalid :
    (unique : List Project) (n : ℕ) (ps : List Project)
    → (dedup_from unique n ps).1 ≡ n + count_invalid ps
unfolding dedup_from
dedup_from-invalid unique n [] = omega arith
dedup_from-invalid unique n (p ∷ ps) = ground (
  arith,
  dedup_from-invalid unique (n + 1) ps,
  dedup_from-invalid unique n ps,
  dedup_from-invalid (unique ++ p ∷ []) n ps,
)

count_of-tally :
    (c : Bytes) (m : Dict ℕ) (ps : List Project)
    → count_of c (tally m ps) ≡ count_of c m + count_category c ps
unfolding tally
count_of-tally c m [] = omega arith
count_of-tally c m (p ∷ ps) =
    omega (arith, count_of-tally c (increment p.category m) ps, count_of-increment c p.category m)

total-tally : (m : Dict ℕ) (ps : List Project) → total (tally m ps) ≡ total m + length ps
unfolding tally
total-tally m [] = omega arith
total-tally m (p ∷ ps) =
    omega (arith, total-tally (increment p.category m) ps, total-increment p.category m)

-- A valid record of an ID, among the records of a list.
abbrev pub seen : Bytes → List Project → Bool
seen id [] = false
seen id (p ∷ ps) = (not (is_invalid p) && text_eq p.id id) || seen id ps

-- The valid records of a list whose ID is new, and those whose ID a valid record before has, behind
-- the records of `before`.
abbrev pub count_new : List Project → List Project → ℕ
count_new before [] = 0
count_new before (p ∷ ps) =
    (if is_invalid p || seen p.id before then 0 else 1) + count_new (before ++ p ∷ []) ps

abbrev pub count_repeated : List Project → List Project → ℕ
count_repeated before [] = 0
count_repeated before (p ∷ ps) =
    (if not (is_invalid p) && seen p.id before then 1 else 0) + count_repeated (before ++ p ∷ []) ps

seen-append :
    (id : Bytes) (before : List Project) (p : Project)
    → seen id (before ++ p ∷ []) ≡ (seen id before || (not (is_invalid p) && text_eq p.id id))
seen-append id [] p = ground arith
seen-append id (q ∷ before) p = ground (arith, seen-append id before p)

-- The kept records stand for the records that were read.
abbrev StandFor : List Project → List Project → Type 0
StandFor unique before = (id : Bytes) → is_duplicate id unique ≡ seen id before

StandFor-keep :
    (unique before : List Project) (p : Project)
    → StandFor unique before
    → is_invalid p ≡ false
    → StandFor (unique ++ p ∷ []) (before ++ p ∷ [])
unfolding is_duplicate
StandFor-keep unique before p h valid id =
    ground (arith, is_duplicate-append id unique (p ∷ []), seen-append id before p, h id, valid)

StandFor-skip :
    (unique before : List Project) (p : Project)
    → StandFor unique before
    → ((is_invalid p || seen p.id before) ≡ true)
    → StandFor unique (before ++ p ∷ [])
StandFor-skip unique before p h skipped id = elim (Bool-cases (text_eq p.id id)) [
  | inr other ↦ ground (arith, seen-append id before p, h id, other)
  | inl same ↦
      let e : p.id ≡ id = (text_eq_iff p.id id).0 same in
      let known : (is_invalid p || seen id before) ≡ true =
        subst (λ x. (is_invalid p || seen x before) ≡ true) e skipped in
      ground (arith, seen-append id before p, h id, known)
]

length-dedup_from_new :
    (unique before : List Project) (n : ℕ) (ps : List Project)
    → StandFor unique before
    → length (dedup_from unique n ps).0 ≡ length unique + count_new before ps
unfolding dedup_from
length-dedup_from_new unique before n [] h = omega arith
length-dedup_from_new unique before n (p ∷ ps) h = elim (Bool-cases (is_invalid p)) [
  | inl invalid ↦
      let rest =
        length-dedup_from_new unique (before ++ p ∷ []) (n + 1) ps
          (StandFor-skip unique before p h (rw invalid refl)) in
      rw (dedup_from, invalid) (omega (arith, rest))
  | inr valid ↦ elim (Bool-cases (seen p.id before)) [
    | inl old ↦
        let rest =
          length-dedup_from_new unique (before ++ p ∷ []) n ps
            (StandFor-skip unique before p h (rw (valid, old) refl)) in
        rw (dedup_from, valid, h p.id, old) (omega (arith, rest))
    | inr new ↦
        let rest =
          length-dedup_from_new (unique ++ p ∷ []) (before ++ p ∷ []) n ps
            (StandFor-keep unique before p h valid) in
        rw (dedup_from, valid, h p.id, new) (omega (arith, rest, length-append unique (p ∷ [])))
  ]
]

count_all :
    (before ps : List Project)
    → length ps ≡ count_new before ps + count_repeated before ps + count_invalid ps
count_all before [] = refl
count_all before (p ∷ ps) = ground (arith, count_all (before ++ p ∷ []) ps)

-- The counts of the aggregation: all records; those that fail validation; the valid ones whose ID is
-- new among the valid ones before; the valid ones whose ID is not; and the valid ones of both kinds.
pub build_accounts :
    (ps : List Project)
    → let r = build ps in
      (r.total_records ≡ length ps)
      × (r.invalid_records ≡ count_invalid ps)
      × (r.unique_projects ≡ count_new [] ps)
      × (r.duplicates_removed ≡ count_repeated [] ps)
      × (r.valid_records ≡ count_new [] ps + count_repeated [] ps)
unfolding build deduplicate_projects
build_accounts ps =
    let all = count_all [] ps in
    let invalid = dedup_from-invalid [] 0 ps in
    let unique = length-dedup_from_new [] [] 0 ps (λ id. unfold is_duplicate in refl) in
    (
      refl,
      omega (arith, invalid),
      omega (arith, unique),
      omega (arith, all, invalid, unique),
      omega (arith, all, invalid),
    )

-- The category map counts the kept projects: its entry for a category (zero where there is none)
-- is the number of kept projects of that category, and its values add up to `unique_projects`.
pub build-by_category :
    (ps : List Project)
    → let r = build ps in
      ((c : Bytes) → count_of c r.by_category ≡ count_category c (deduplicate_projects ps).0)
      × (total r.by_category ≡ r.unique_projects)
unfolding build count_of lookup
build-by_category ps = (
  λ c. omega (arith, count_of-tally c [] (deduplicate_projects ps).0),
  omega (arith, total-tally [] (deduplicate_projects ps).0),
)
