-- ===== src/Shop/Postgres/Newest.antt =====
-- The rows of ORDER BY created_at DESC in tutorial/go/store.go: without ties, they are determined.
use mock_lab.Common.{
  ℕ, zero, suc, ◌≡◌, ◌≤◌, ◌<◌, refl, sym, ap, ap₂, subst, ◌∙◌, inl, inr, Bool, true, not, ◌&&◌,
  List, [], ◌∷◌, All, ltb, ◌==◌, Bool-cases, take, arith,
}
use mock_lab.Common.Text.{text_eq, text_eq_iff, text_eq_refl}
use mock_lab.Shop.Postgres.Tables.{OrderRecord, count, newer, Descending, IsRecent}

abbrev pub at_time : ℕ → OrderRecord → Bool
at_time t r = r.created_at == t

-- No two of the rows were created at the same time.
abbrev pub Untied : List OrderRecord → Type 0
Untied rs = (t : ℕ) → count (at_time t) rs ≤ 1

abbrev same_record : OrderRecord → OrderRecord → Bool
same_record q r =
    text_eq q.id r.id
    && text_eq q.customer r.customer
    && text_eq q.status r.status
    && q.total_cents == r.total_cents
    && q.created_at == r.created_at

same_record_refl : (r : OrderRecord) → same_record r r ≡ true
same_record_refl r =
    ground (arith, text_eq_refl r.id, text_eq_refl r.customer, text_eq_refl r.status)

same_record_sound : (q r : OrderRecord) → same_record q r ≡ true → q ≡ r
same_record_sound q r h =
    let id : q.id ≡ r.id = (text_eq_iff q.id r.id).0 (ground (arith, h)) in
    let customer : q.customer ≡ r.customer =
      (text_eq_iff q.customer r.customer).0 (ground (arith, h)) in
    let status : q.status ≡ r.status = (text_eq_iff q.status r.status).0 (ground (arith, h)) in
    let total : q.total_cents ≡ r.total_cents = ground (arith, h) in
    let created : q.created_at ≡ r.created_at = ground (arith, h) in
    λ i. record {
      id = id i;
      customer = customer i;
      status = status i;
      total_cents = total i;
      created_at = created i;
    }

count-same_record :
    (q : OrderRecord) (rs : List OrderRecord)
    → count (same_record q) rs ≤ count (at_time q.created_at) rs
count-same_record q [] = omega arith
count-same_record q (r ∷ rs) = ground (arith, count-same_record q rs)

count-later :
    (t bound : ℕ) (rs : List OrderRecord)
    → bound < t
    → All (λ q. q.created_at ≤ bound) rs
    → count (at_time t) rs ≡ 0
count-later t bound [] lt h = refl
count-later t bound (r ∷ rs) lt (p, h) = ground (arith, count-later t bound rs lt h, p)

-- A row is not above the first one of an arrangement that has it too.
not_later :
    (x y : OrderRecord) (xs ys : List OrderRecord)
    → ((test : OrderRecord → Bool) → count test (x ∷ xs) ≡ count test (y ∷ ys))
    → Descending (y ∷ ys)
    → x.created_at ≤ y.created_at
not_later x y xs ys each (below, _) = elim (Bool-cases (ltb y.created_at x.created_at)) [
  | inr le ↦ ground (arith, le)
  | inl gt ↦ absurd (
      let lt : y.created_at < x.created_at = ground (arith, gt) in
      ground
        (arith, each (at_time x.created_at), lt, count-later x.created_at y.created_at ys lt below))
]

first_same :
    (x y : OrderRecord) (xs ys : List OrderRecord)
    → ((test : OrderRecord → Bool) → count test (x ∷ xs) ≡ count test (y ∷ ys))
    → Untied (y ∷ ys)
    → x.created_at ≡ y.created_at
    → x ≡ y
first_same x y xs ys each untied e = elim (Bool-cases (same_record x y)) [
  | inl same ↦ same_record_sound x y same
  | inr other ↦ absurd (
      ground (
        arith,
        other,
        e,
        same_record_refl x,
        each (same_record x),
        untied x.created_at,
        count-same_record x ys,
      ))
]

pub arranged_unique :
    (xs ys : List OrderRecord)
    → ((test : OrderRecord → Bool) → count test xs ≡ count test ys)
    → Untied ys
    → Descending xs
    → Descending ys
    → xs ≡ ys
arranged_unique [] [] each untied dx dy = refl
arranged_unique [] (y ∷ ys) each untied dx dy =
    absurd (let e = each (λ r. true) in omega (arith, e))
arranged_unique (x ∷ xs) [] each untied dx dy =
    absurd (let e = each (λ r. true) in omega (arith, e))
arranged_unique (x ∷ xs) (y ∷ ys) each untied dx dy =
    let up = not_later x y xs ys each dy in
    let down = not_later y x ys xs (λ test. sym (each test)) dx in
    let e : x ≡ y = first_same x y xs ys each untied (omega (arith, up, down)) in
    let tails : (test : OrderRecord → Bool) → count test xs ≡ count test ys =
      λ test. (let t : test x ≡ test y = ap test e in ground (arith, each test, t)) in
    let rest : Untied ys = λ t. (let u = untied t in omega (arith, u)) in
    ap₂ ◌∷◌ e (arranged_unique xs ys tails rest dx.1 dy.1)

pub IsRecent-unique :
    (cutoff : ℕ) (orders rs qs : List OrderRecord)
    → Untied (newer cutoff orders)
    → IsRecent cutoff orders rs
    → IsRecent cutoff orders qs
    → rs ≡ qs
IsRecent-unique cutoff orders rs qs untied h g =
    let same : h.arranged ≡ g.arranged =
      arranged_unique h.arranged g.arranged (λ test. h.each test ∙ sym (g.each test))
        (λ t. (let u = untied t in let e = g.each (at_time t) in omega (arith, u, e))) h.descending
        g.descending in
    h.first ∙ ap (take 50) same ∙ sym g.first

none_fails :
    (test : OrderRecord → Bool) (rs : List OrderRecord)
    → All (λ r. test r ≡ true) rs
    → count (λ r. not (test r)) rs ≡ 0
none_fails test [] h = refl
none_fails test (r ∷ rs) (p, h) = ground (arith, p, none_fails test rs h)

passing-All :
    (test : OrderRecord → Bool) (rs : List OrderRecord)
    → count (λ r. not (test r)) rs ≡ 0
    → All (λ r. test r ≡ true) rs
passing-All test [] h = tt
passing-All test (r ∷ rs) h = (ground (arith, h), passing-All test rs (omega (arith, h)))

newer-All :
    (test : OrderRecord → Bool) (cutoff : ℕ) (rs : List OrderRecord)
    → All (λ r. test r ≡ true) rs
    → All (λ r. test r ≡ true) (newer cutoff rs)
newer-All test cutoff [] h = tt
newer-All test cutoff (r ∷ rs) (p, h) = elim (Bool-cases (ltb cutoff r.created_at)) [
  | inl new ↦ rw new (p, newer-All test cutoff rs h)
  | inr old ↦ rw old (newer-All test cutoff rs h)
]

take-All :
    (test : OrderRecord → Bool) (n : ℕ) (rs : List OrderRecord)
    → All (λ r. test r ≡ true) rs
    → All (λ r. test r ≡ true) (take n rs)
take-All test zero rs h = tt
take-All test (suc n) [] h = tt
take-All test (suc n) (r ∷ rs) (p, h) = (p, take-All test n rs h)

-- What all rows of the table pass, the recent ones pass.
pub IsRecent-All :
    (test : OrderRecord → Bool) (cutoff : ℕ) (orders rs : List OrderRecord)
    → All (λ r. test r ≡ true) orders
    → IsRecent cutoff orders rs
    → All (λ r. test r ≡ true) rs
IsRecent-All test cutoff orders rs h recent =
    let failing = none_fails test (newer cutoff orders) (newer-All test cutoff orders h) in
    let all = passing-All test recent.arranged (recent.each (λ r. not (test r)) ∙ failing) in
    subst (All (λ r. test r ≡ true)) (sym recent.first) (take-All test 50 recent.arranged all)
