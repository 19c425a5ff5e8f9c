-- ===== src/Reference/Categories.antt =====
-- The list of categories.
use mock_lab.Common.{
  ℕ, ◌+◌, ◌≡◌, inl, inr, refl, true, false, List, [], ◌∷◌, some, map, length, All, arith,
  Bool-cases, if◌then◌else◌,
}
use mock_lab.Common.Text.{Bytes, text_eq, text_eq_iff}
use mock_lab.Common.Dict.{Dict, lookup}
use mock_lab.Common.Counter.{
  count_of, increment, total, occurrences, count_of-increment, total-increment,
}
use mock_lab.Tag.{text_lt}
use mock_lab.Tag.Order.{text_lt_irrefl, text_lt_trans, text_lt_total}
use mock_lab.Reference.{Project, count_categories, insert_count, sort_counts, categories}

-- No name of a list is below `k`.
abbrev NoneBelow : Bytes → Dict ℕ → Type 0
NoneBelow k = All (λ e. text_lt e.0 k ≡ false)

-- In the order of the names.
abbrev pub Ascending : Dict ℕ → Type 0
Ascending [] = Unit
Ascending (e ∷ m) = NoneBelow e.0 m × Ascending m

abbrev pub category_of : Project → Bytes
category_of p = p.category

not_below : (j k : Bytes) → text_lt j k ≡ true → text_lt k j ≡ false
not_below j k h = elim (Bool-cases (text_lt k j)) [
  | inl back ↦ absurd (ground (arith, text_lt_trans j k j, text_lt_irrefl j))
  | inr e ↦ e
]

below_trans : (i j k : Bytes) → text_lt j k ≡ false → text_lt i j ≡ false → text_lt i k ≡ false
below_trans i j k h g = elim (Bool-cases (text_lt i k)) [
  | inr e ↦ e
  | inl low ↦ elim (Bool-cases (text_lt k j)) [
    | inl up ↦ absurd (ground (arith, text_lt_trans i k j))
    | inr same ↦ let e : j ≡ k = text_lt_total j k h same in absurd (cc (e, g, low))
  ]
]

NoneBelow-trans : (j k : Bytes) (m : Dict ℕ) → text_lt j k ≡ false → NoneBelow j m → NoneBelow k m
NoneBelow-trans j k [] h _ = tt
NoneBelow-trans j k (e ∷ m) h (p, q) = (below_trans e.0 j k h p, NoneBelow-trans j k m h q)

insert_count-NoneBelow :
    (i k : Bytes) (n : ℕ) (m : Dict ℕ)
    → text_lt k i ≡ false
    → NoneBelow i m
    → NoneBelow i (insert_count k n m)
unfolding insert_count
insert_count-NoneBelow i k n [] h _ = (h, tt)
insert_count-NoneBelow i k n ((j, w) ∷ m) h (p, q) = elim (Bool-cases (text_lt j k)) [
  | inl e ↦ rw e (p, insert_count-NoneBelow i k n m h q)
  | inr e ↦ rw e (h, (p, q))
]

insert_count-Ascending :
    (k : Bytes) (n : ℕ) (m : Dict ℕ) → Ascending m → Ascending (insert_count k n m)
unfolding insert_count
insert_count-Ascending k n [] _ = (tt, tt)
insert_count-Ascending k n ((j, w) ∷ m) (p, h) = elim (Bool-cases (text_lt j k)) [
  | inl e ↦
      rw e (insert_count-NoneBelow j k n m (not_below j k e) p, insert_count-Ascending k n m h)
  | inr e ↦ rw e ((e, NoneBelow-trans j k m e p), (p, h))
]

sort_counts-Ascending : (m : Dict ℕ) → Ascending (sort_counts m)
unfolding sort_counts
sort_counts-Ascending [] = tt
sort_counts-Ascending ((k, n) ∷ m) =
    insert_count-Ascending k n (sort_counts m) (sort_counts-Ascending m)

lookup-insert_count :
    (i k : Bytes) (n : ℕ) (m : Dict ℕ)
    → lookup i (insert_count k n m) ≡ (if text_eq k i then some n else lookup i m)
unfolding insert_count lookup
lookup-insert_count i k n [] = refl
lookup-insert_count i k n ((j, w) ∷ m) =
    ground (arith, text_eq_iff k i, text_eq_iff j i, text_lt_irrefl k, lookup-insert_count i k n m)

lookup-sort_counts : (i : Bytes) (m : Dict ℕ) → lookup i (sort_counts m) ≡ lookup i m
unfolding sort_counts lookup
lookup-sort_counts i [] = refl
lookup-sort_counts i ((k, n) ∷ m) =
    ground (arith, lookup-insert_count i k n (sort_counts m), lookup-sort_counts i m)

total-insert_count : (k : Bytes) (n : ℕ) (m : Dict ℕ) → total (insert_count k n m) ≡ n + total m
unfolding insert_count
total-insert_count k n [] = omega arith
total-insert_count k n ((j, w) ∷ m) = ground (arith, total-insert_count k n m)

total-sort_counts : (m : Dict ℕ) → total (sort_counts m) ≡ total m
unfolding sort_counts
total-sort_counts [] = refl
total-sort_counts ((k, n) ∷ m) =
    omega (arith, total-insert_count k n (sort_counts m), total-sort_counts m)

count_of-count_categories :
    (c : Bytes) (m : Dict ℕ) (ps : List Project)
    → count_of c (count_categories m ps) ≡ count_of c m + occurrences c (map category_of ps)
unfolding count_categories
count_of-count_categories c m [] = omega arith
count_of-count_categories c m (p ∷ ps) = omega (
  arith,
  count_of-count_categories c (increment p.category m) ps,
  count_of-increment c p.category m,
)

total-count_categories :
    (m : Dict ℕ) (ps : List Project) → total (count_categories m ps) ≡ total m + length ps
unfolding count_categories
total-count_categories m [] = omega arith
total-count_categories m (p ∷ ps) =
    omega (arith, total-count_categories (increment p.category m) ps, total-increment p.category m)

-- `categories` lists names in ascending order; the count of every name is the number of the projects
-- of this category, and the counts add up to the number of projects.
pub categories_lem :
    (projects : List Project)
    → Ascending (categories projects)
      × ((c : Bytes) → count_of c (categories projects) ≡ occurrences c (map category_of projects))
      × (total (categories projects) ≡ length projects)
unfolding categories count_of lookup
categories_lem projects =
    let counts = count_categories [] projects in
    (
      sort_counts-Ascending counts,
      λ c. ground (arith, lookup-sort_counts c counts, count_of-count_categories c [] projects),
      omega (arith, total-sort_counts counts, total-count_categories [] projects),
    )
