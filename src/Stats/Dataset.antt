-- ===== src/Stats/Dataset.antt =====
-- The statistics of the catalog that the pyroscope lab serves.
use mock_lab.Common.{
  ℕ, zero, suc, ◌*◌, ◌+◌, ◌-◌, ◌/◌, ◌%◌, ◌≡◌, ◌≢◌, ◌≤◌, ◌<◌, refl, sym, ap, ◌∙◌, inl, inr, ◌⊎◌,
  take, true, false, List, [], ◌∷◌, ◌++◌, length, length-append, ◌==◌, get_or, if◌then◌else◌,
  Bool-cases, not, arith,
}
use mock_lab.Common.Text.{
  Bytes, codes, text_eq, text_eq_iff, text_eq_refl, text_eq-append, trim_space, trim_space-full,
  is_empty,
}
use mock_lab.Common.Bits.{passes_under, passes_under_lem}
use mock_lab.Common.Digits.{decode}
use mock_lab.Common.Counter.{count_of}
use mock_lab.Common.Decimal.{decimal, digit_value, decode-decimal}
use mock_lab.Stats.{
  Project, Result, is_invalid, is_duplicate, dedup_from, deduplicate_projects, build,
}
use mock_lab.Stats.Dedup.{is_duplicate-append}
use mock_lab.Stats.Counts.{count_category, build-by_category}
use mock_lab.Stats.Service.{
  found, fetch_and_build, zeros, padded, category_at, categories, project_at, unique_from,
  malformed_from, build_dataset, max_catalog_response_bytes,
}

decode-zeros :
    (k : ℕ) (s : Bytes) → decode 10 digit_value 0 (zeros k ++ s) ≡ decode 10 digit_value 0 s
decode-zeros zero s = refl
decode-zeros (suc k) s = decode-zeros k s

padded_injective : (w m n : ℕ) → padded w m ≡ padded w n → m ≡ n
unfolding padded
padded_injective w m n e =
    let read : (k : ℕ) → decode 10 digit_value 0 (padded w k) ≡ k =
      λ k. unfold padded in decode-zeros (w - length (decimal k)) (decimal k) ∙ decode-decimal k in
    sym (read m) ∙ ap (decode 10 digit_value 0) e ∙ read n

id_of : ℕ → Bytes
id_of i = (project_at i).id

id_of-ne : (m n : ℕ) → m ≢ n → text_eq (id_of m) (id_of n) ≡ false
unfolding id_of
id_of-ne m n h = elim (Bool-cases (text_eq (padded 5 m) (padded 5 n))) [
  | inr other ↦ text_eq-append (codes "project-") (padded 5 m) (padded 5 n) ∙ other
  | inl same ↦ absurd (h (padded_injective 5 m n ((text_eq_iff (padded 5 m) (padded 5 n)).0 same)))
]

category_at-full : (i : ℕ) → is_empty (trim_space (category_at i)) ≡ false
unfolding codes
category_at-full i = cases (i % 4) (omega arith)
  where
    cases : (j : ℕ) → j < 4 → is_empty (trim_space (get_or categories j [])) ≡ false
    cases zero h = trim_space-full _ _ refl
    cases (suc zero) h = trim_space-full _ _ refl
    cases (suc (suc zero)) h = trim_space-full _ _ refl
    cases (suc (suc (suc zero))) h = trim_space-full _ _ refl
    cases (suc (suc (suc (suc j)))) h = absurd (omega arith)

project_at-valid : (i : ℕ) → is_invalid (project_at i) ≡ false
unfolding is_invalid codes
project_at-valid i = rw (trim_space-full _ _ refl, trim_space-full _ _ refl) (category_at-full i)

-- The projects below an index.
upto : ℕ → List Project
upto zero = []
upto (suc i) = upto i ++ project_at i ∷ []

upto-fresh : (i m : ℕ) → i ≤ m → is_duplicate (id_of m) (upto i) ≡ false
unfolding upto
upto-fresh zero m h = unfold is_duplicate in refl
upto-fresh (suc i) m h =
    is_duplicate-append (id_of m) (upto i) (project_at i ∷ [])
    ∙ rw (upto-fresh i m (omega arith))
        (unfold is_duplicate id_of in rw (id_of-ne i m (λ e. omega (arith, e))) refl)

upto-repeated : (i : ℕ) → is_duplicate (id_of i) (upto (suc i)) ≡ true
unfolding upto
upto-repeated i =
    is_duplicate-append (id_of i) (upto i) (project_at i ∷ [])
    ∙ rw (upto-fresh i i (omega arith))
        (unfold is_duplicate id_of in rw (text_eq_refl (project_at i).id) refl)

keep_step :
    (i inv : ℕ) (ps : List Project)
    → dedup_from (upto i) inv (project_at i ∷ ps) ≡ dedup_from (upto (suc i)) inv ps
unfolding dedup_from upto
keep_step i inv ps =
    let fresh : is_duplicate (project_at i).id (upto i) ≡ false =
      unfold id_of in upto-fresh i i (omega arith) in
    rw (dedup_from, project_at-valid i, fresh) refl

repeat_step :
    (i inv : ℕ) (ps : List Project)
    → dedup_from (upto (suc i)) inv (project_at i ∷ ps) ≡ dedup_from (upto (suc i)) inv ps
unfolding dedup_from
repeat_step i inv ps =
    let repeated : is_duplicate (project_at i).id (upto (suc i)) ≡ true =
      unfold id_of in upto-repeated i in
    rw (dedup_from, project_at-valid i, repeated) refl

dedup_from-unique_from :
    (k i inv : ℕ) (ps : List Project)
    → dedup_from (upto i) inv (unique_from k i ++ ps) ≡ dedup_from (upto (i + k)) inv ps
unfolding unique_from
dedup_from-unique_from zero i inv ps = ap (λ n. dedup_from (upto n) inv ps) (omega arith)
dedup_from-unique_from (suc k) i inv ps =
    let rest : dedup_from (upto (suc i)) inv (unique_from k (suc i) ++ ps)
        ≡ dedup_from (upto (i + suc k)) inv ps =
      dedup_from-unique_from k (suc i) inv ps
      ∙ ap (λ n. dedup_from (upto n) inv ps) (omega arith) in
    elim (Bool-cases (i % 4 == 0)) [
      | inl twice ↦ rw twice (
          keep_step i inv (project_at i ∷ (unique_from k (suc i) ++ ps))
          ∙ repeat_step i inv (unique_from k (suc i) ++ ps)
          ∙ rest)
      | inr once ↦ rw once (keep_step i inv (unique_from k (suc i) ++ ps) ∙ rest)
    ]

dedup_from-malformed_from :
    (k i inv : ℕ) (u : List Project) → dedup_from u inv (malformed_from k i) ≡ (u, inv + k)
unfolding malformed_from dedup_from is_invalid trim_space
dedup_from-malformed_from zero i inv u = ap (λ n. (u, n)) (omega arith)
dedup_from-malformed_from (suc k) i inv u =
    dedup_from-malformed_from k (suc i) (inv + 1) u ∙ ap (λ n. (u, n)) (omega arith)

deduplicate_projects-build_dataset :
    (n : ℕ) → deduplicate_projects (build_dataset n) ≡ (upto n, 120)
unfolding deduplicate_projects build_dataset
deduplicate_projects-build_dataset n =
    let start : dedup_from [] 0 (unique_from n 0 ++ malformed_from 120 0)
        ≡ dedup_from (upto n) 0 (malformed_from 120 0) =
      unfold upto in
      dedup_from-unique_from n 0 0 (malformed_from 120 0)
      ∙ ap (λ m. dedup_from (upto m) 0 (malformed_from 120 0)) zero_add in
    start ∙ dedup_from-malformed_from 120 0 0 (upto n)
  where
    zero_add : 0 + n ≡ n
    zero_add = omega arith

length-unique_from : (k i : ℕ) → length (unique_from k i) + (i + 3) / 4 ≡ k + (i + k + 3) / 4
unfolding unique_from
length-unique_from zero i = omega arith
length-unique_from (suc k) i = elim (Bool-cases (i % 4 == 0)) [
  | inl twice ↦
      let e : i % 4 ≡ 0 = ground arith in rw twice (omega (arith, e, length-unique_from k (suc i)))
  | inr once ↦
      let e : i % 4 ≢ 0 = ground arith in rw once (omega (arith, e, length-unique_from k (suc i)))
]

length-malformed_from : (k i : ℕ) → length (malformed_from k i) ≡ k
unfolding malformed_from
length-malformed_from zero i = refl
length-malformed_from (suc k) i = ap suc (length-malformed_from k (suc i))

length-upto : (n : ℕ) → length (upto n) ≡ n
unfolding upto
length-upto zero = refl
length-upto (suc n) = omega (arith, length-append (upto n) (project_at n ∷ []), length-upto n)

length-build_dataset : (n : ℕ) → length (build_dataset n) ≡ n + (n + 3) / 4 + 120
unfolding build_dataset
length-build_dataset n = omega (
  arith,
  length-append (unique_from n 0) (malformed_from 120 0),
  length-unique_from n 0,
  length-malformed_from 120 0,
)

-- The four categories are different.
categories_differ :
    (a j : ℕ) → a < 4 → j < 4 → text_eq (get_or categories a []) (get_or categories j []) ≡ (a == j)
categories_differ a j ha hj =
    let test = λ (x y : ℕ).
      if x == y
      then text_eq (get_or categories x []) (get_or categories y [])
      else not (text_eq (get_or categories x []) (get_or categories y [])) in
    let row =
      passes_under_lem (λ x. passes_under (λ y. test x y) 4) 4 a ha
        (unfold passes_under codes text_eq in refl) in
    let cell = passes_under_lem (λ y. test a y) 4 j hj row in ground arith

count_category-append :
    (c : Bytes) (ps qs : List Project)
    → count_category c (ps ++ qs) ≡ count_category c ps + count_category c qs
count_category-append c [] qs = omega arith
count_category-append c (p ∷ ps) qs = omega (arith, count_category-append c ps qs)

count_category-upto : (j n : ℕ) → j < 4 → count_category (category_at j) (upto n) ≡ (n + 3 - j) / 4
unfolding upto
count_category-upto j zero h = omega arith
count_category-upto j (suc n) h =
    let small : j % 4 ≡ j = omega arith in
    let same : text_eq (category_at n) (category_at j) ≡ (n % 4 == j) =
      categories_differ (n % 4) (j % 4) (omega arith) (omega arith) ∙ ap (λ m. n % 4 == m) small in
    let split = count_category-append (category_at j) (upto n) (project_at n ∷ []) in
    let before = count_category-upto j n h in
    elim (Bool-cases (n % 4 == j)) [
      | inl hit ↦
          let e : n % 4 ≡ j = ground arith in split ∙ rw (same, hit) (omega (arith, before, e))
      | inr miss ↦
          let e : n % 4 ≢ j = ground arith in split ∙ rw (same, miss) (omega (arith, before, e))
    ]

take-all : (n : ℕ) (page : Bytes) → length page ≤ n → take n page ≡ page
take-all zero [] h = refl
take-all zero (c ∷ page) h = absurd (omega (arith, h))
take-all (suc n) [] h = refl
take-all (suc n) (c ∷ page) h = ap (λ s. c ∷ s) (take-all n page (omega (arith, h)))

-- The statistics of the catalog that the lab serves, with `n` different projects, where the body is at
-- most as long as the client reads and decodes to the catalog: every fourth project is a duplicate,
-- 120 records are invalid, every different project is kept, and each of the four categories has a
-- fourth of the projects, the first ones one more where `n` is no multiple of four.
pub fetch_and_build-build_dataset :
    (decode : Bytes → Bytes ⊎ List Project) (n : ℕ) (text page : Bytes)
    → length page ≤ 16 * 1024 * 1024
    → decode page ≡ inr (build_dataset n)
    → (r : Result) × (fetch_and_build decode (found 200 text page) ≡ inr r)
      × (r.total_records ≡ n + (n + 3) / 4 + 120)
      × (r.valid_records ≡ n + (n + 3) / 4)
      × (r.unique_projects ≡ n)
      × (r.duplicates_removed ≡ (n + 3) / 4)
      × (r.invalid_records ≡ 120)
      × ((j : ℕ) → j < 4 → count_of (category_at j) r.by_category ≡ (n + 3 - j) / 4)
unfolding fetch_and_build
fetch_and_build-build_dataset decode n text page fits read =
    let e = deduplicate_projects-build_dataset n in
    let size = length-build_dataset n in
    let kept : length (deduplicate_projects (build_dataset n)).0 ≡ n =
      ap (λ p. length p.0) e ∙ length-upto n in
    let invalid : (deduplicate_projects (build_dataset n)).1 ≡ 120 = ap (λ p. p.1) e in
    (
      build (build_dataset n),
      rw (take-all max_catalog_response_bytes page fits, read) refl,
      unfold build in size,
      unfold build in omega (arith, size, invalid),
      unfold build in kept,
      unfold build in omega (arith, size, invalid, kept),
      unfold build in invalid,
      λ j h.
          (build-by_category (build_dataset n)).0 (category_at j)
          ∙ ap (λ p. count_category (category_at j) p.0) e
          ∙ count_category-upto j n h,
    )
