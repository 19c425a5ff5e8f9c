-- ===== src/Tag/Order.antt =====
-- A comment depends on the map of the tags alone, and not on the order in which the map is walked.
use mock_lab.Common.{
  ◌≡◌, inl, inr, refl, ap₂, sym, ◌∙◌, true, false, [], ◌∷◌, none, some, All, arith, Bool-cases,
  if◌then◌else◌,
}
use mock_lab.Common.Text.{Bytes, text_eq, text_eq_iff, text_eq_refl}
use mock_lab.Common.Dict.{Dict, lookup}
use mock_lab.Tag.{text_lt, insert_sorted, sort_tags, sql_comment}

pub text_lt_irrefl : (s : Bytes) → text_lt s s ≡ false
unfolding text_lt
text_lt_irrefl [] = refl
text_lt_irrefl (c ∷ s) = ground (arith, text_lt_irrefl s)

pub text_lt_trans : (s t u : Bytes) → text_lt s t ≡ true → text_lt t u ≡ true → text_lt s u ≡ true
unfolding text_lt
text_lt_trans s [] u h k = cc h
text_lt_trans s (d ∷ t) [] h k = cc k
text_lt_trans [] (d ∷ t) (e ∷ u) h k = refl
text_lt_trans (c ∷ s) (d ∷ t) (e ∷ u) h k = ground (arith, text_lt_trans s t u)

pub text_lt_total : (s t : Bytes) → text_lt s t ≡ false → text_lt t s ≡ false → s ≡ t
unfolding text_lt
text_lt_total [] [] h k = refl
text_lt_total [] (d ∷ t) h k = cc h
text_lt_total (c ∷ s) [] h k = cc k
text_lt_total (c ∷ s) (d ∷ t) h k =
    ap₂ ◌∷◌ (ground arith) (text_lt_total s t (ground arith) (ground arith))

-- Every key of a list is above `k`.
abbrev pub Above : Bytes → Dict Bytes → Type 0
Above k = All (λ e. text_lt k e.0 ≡ true)

abbrev pub Sorted : Dict Bytes → Type 0
Sorted [] = Unit
Sorted (e ∷ m) = Above e.0 m × Sorted m

-- No key of a list is `k`.
abbrev pub Fresh : Bytes → Dict Bytes → Type 0
Fresh k = All (λ e. text_eq e.0 k ≡ false)

-- Each key occurs once, as in a map.
abbrev pub Distinct : Dict Bytes → Type 0
Distinct [] = Unit
Distinct (e ∷ m) = Fresh e.0 m × Distinct m

Above-trans : (k j : Bytes) (m : Dict Bytes) → text_lt k j ≡ true → Above j m → Above k m
Above-trans k j [] h _ = tt
Above-trans k j (e ∷ m) h (p, q) = (text_lt_trans k j e.0 h p, Above-trans k j m h q)

insert_sorted-Above :
    (k j v : Bytes) (m : Dict Bytes)
    → text_lt k j ≡ true
    → Above k m
    → Above k (insert_sorted j v m)
unfolding insert_sorted
insert_sorted-Above k j v [] h _ = (h, tt)
insert_sorted-Above k j v ((i, w) ∷ m) h (p, q) = elim (Bool-cases (text_lt i j)) [
  | inl e ↦ rw e (p, insert_sorted-Above k j v m h q)
  | inr e ↦ rw e (h, (p, q))
]

insert_sorted-Sorted :
    (k v : Bytes) (m : Dict Bytes) → Fresh k m → Sorted m → Sorted (insert_sorted k v m)
unfolding insert_sorted
insert_sorted-Sorted k v [] _ _ = (tt, tt)
insert_sorted-Sorted k v ((j, w) ∷ m) (f, fs) (p, h) = elim (Bool-cases (text_lt j k)) [
  | inl e ↦ rw e (insert_sorted-Above j k v m e p, insert_sorted-Sorted k v m fs h)
  | inr e ↦
      let lt : text_lt k j ≡ true = below k j e f in rw e ((lt, Above-trans k j m lt p), (p, h))
]
  where
    below : (k j : Bytes) → text_lt j k ≡ false → text_eq j k ≡ false → text_lt k j ≡ true
    below k j e f = elim (Bool-cases (text_lt k j)) [
      | inl lt ↦ lt
      | inr ge ↦ absurd (ground (arith, text_eq_iff j k, text_lt_total j k e ge))
    ]

insert_sorted-Fresh :
    (i k v : Bytes) (m : Dict Bytes)
    → text_eq k i ≡ false
    → Fresh i m
    → Fresh i (insert_sorted k v m)
unfolding insert_sorted
insert_sorted-Fresh i k v [] h _ = (h, tt)
insert_sorted-Fresh i k v ((j, w) ∷ m) h (p, q) = elim (Bool-cases (text_lt j k)) [
  | inl e ↦ rw e (p, insert_sorted-Fresh i k v m h q)
  | inr e ↦ rw e (h, (p, q))
]

sort_tags-Fresh : (i : Bytes) (m : Dict Bytes) → Fresh i m → Fresh i (sort_tags m)
unfolding sort_tags
sort_tags-Fresh i [] _ = tt
sort_tags-Fresh i ((k, v) ∷ m) (p, h) =
    insert_sorted-Fresh i k v (sort_tags m) p (sort_tags-Fresh i m h)

pub sort_tags-Sorted : (m : Dict Bytes) → Distinct m → Sorted (sort_tags m)
unfolding sort_tags
sort_tags-Sorted [] _ = tt
sort_tags-Sorted ((k, v) ∷ m) (f, d) =
    insert_sorted-Sorted k v (sort_tags m) (sort_tags-Fresh k m f) (sort_tags-Sorted m d)

lookup-insert_sorted :
    (i k v : Bytes) (m : Dict Bytes)
    → lookup i (insert_sorted k v m) ≡ (if text_eq k i then some v else lookup i m)
unfolding insert_sorted lookup
lookup-insert_sorted i k v [] = refl
lookup-insert_sorted i k v ((j, w) ∷ m) =
    ground (arith, lookup-insert_sorted i k v m, text_lt_irrefl k, text_eq_iff k i, text_eq_iff j i)

pub lookup-sort_tags : (i : Bytes) (m : Dict Bytes) → lookup i (sort_tags m) ≡ lookup i m
unfolding sort_tags lookup
lookup-sort_tags i [] = refl
lookup-sort_tags i ((k, v) ∷ m) =
    ground (arith, lookup-insert_sorted i k v (sort_tags m), lookup-sort_tags i m)

lookup-Above : (k : Bytes) (m : Dict Bytes) → Above k m → lookup k m ≡ none
unfolding lookup
lookup-Above k [] _ = refl
lookup-Above k ((j, w) ∷ m) (p, h) =
    ground (arith, lookup-Above k m h, text_eq_iff j k, text_lt_irrefl k)

lookup-first : (k v : Bytes) (m : Dict Bytes) → lookup k ((k, v) ∷ m) ≡ some v
unfolding lookup
lookup-first k v m = ground (arith, text_eq_refl k)

-- The two lists have the same entries, as maps.
abbrev pub Same : Dict Bytes → Dict Bytes → Type 0
Same m n = (i : Bytes) → lookup i m ≡ lookup i n

not_below : (j w : Bytes) (m n : Dict Bytes) → Same ((j, w) ∷ m) n → Above j n → ⊥
not_below j w m n same above = absurd (cc (same j, lookup-first j w m, lookup-Above j n above))

Same-tails :
    (k v : Bytes) (m n : Dict Bytes)
    → Above k m
    → Above k n
    → Same ((k, v) ∷ m) ((k, v) ∷ n)
    → Same m n
unfolding lookup
Same-tails k v m n p q same i =
    ground (arith, same i, text_eq_iff k i, lookup-Above k m p, lookup-Above k n q)

-- Sorted lists with the same entries are the same list.
Sorted-Same : (m n : Dict Bytes) → Sorted m → Sorted n → Same m n → m ≡ n
Sorted-Same [] [] _ _ _ = refl
Sorted-Same [] ((k, v) ∷ n) _ _ same = absurd (not_below k v n [] (λ i. sym (same i)) tt)
Sorted-Same ((j, w) ∷ m) [] _ _ same = absurd (not_below j w m [] same tt)
Sorted-Same ((j, w) ∷ m) ((k, v) ∷ n) (p, h) (q, g) same = elim (Bool-cases (text_lt j k)) [
  | inl lt ↦ absurd (not_below j w m ((k, v) ∷ n) same (lt, Above-trans j k n lt q))
  | inr ge ↦ elim (Bool-cases (text_lt k j)) [
    | inl lt ↦
        absurd (not_below k v n ((j, w) ∷ m) (λ i. sym (same i)) (lt, Above-trans k j m lt p))
    | inr ge' ↦
        let key : j ≡ k = text_lt_total j k ge ge' in
        let value : w ≡ v = cc (same j, key, lookup-first j w m, lookup-first k v n) in
        let above : Above j n = rw key q in
        let tails : Same m n =
          Same-tails j w m n p above
            (λ i. same i ∙ ap₂ (λ a b. lookup i ((a, b) ∷ n)) (sym key) (sym value)) in
        ap₂ (λ a t. a ∷ t) (ap₂ (λ a b. (a, b)) key value) (Sorted-Same m n h g tails)
  ]
]

-- Two lists of tags without repeated keys that are the same as maps give the same comment, in
-- whatever order they are walked.
pub sql_comment-Same :
    (m n : Dict Bytes) → Distinct m → Distinct n → Same m n → sql_comment m ≡ sql_comment n
unfolding sql_comment
sql_comment-Same [] [] _ _ _ = refl
sql_comment-Same [] ((k, v) ∷ n) _ _ same = absurd (not_below k v n [] (λ i. sym (same i)) tt)
sql_comment-Same ((j, w) ∷ m) [] _ _ same = absurd (not_below j w m [] same tt)
sql_comment-Same (e ∷ m) (f ∷ n) d d' same =
    let sorted : sort_tags (e ∷ m) ≡ sort_tags (f ∷ n) =
      Sorted-Same (sort_tags (e ∷ m)) (sort_tags (f ∷ n)) (sort_tags-Sorted (e ∷ m) d)
        (sort_tags-Sorted (f ∷ n) d')
        (λ i. lookup-sort_tags i (e ∷ m) ∙ same i ∙ sym (lookup-sort_tags i (f ∷ n))) in
    rw sorted refl
