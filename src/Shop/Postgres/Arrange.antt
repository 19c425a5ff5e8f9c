-- ===== src/Shop/Postgres/Arrange.antt =====
-- A SELECT of the recent orders in memory, for runs of tutorial/go/store.go.
use mock_lab.Common.{
  ℕ, ◌≤◌, ◌≡◌, refl, inl, inr, Bool, List, [], ◌∷◌, All, All-imp, ltb, if◌then◌else◌, Bool-cases,
  take, arith,
}
use mock_lab.Shop.Postgres.Tables.{OrderRecord, count, newer, Descending, IsRecent}

-- ORDER BY created_at DESC, by insertion.
insert_row : OrderRecord → List OrderRecord → List OrderRecord
insert_row r [] = r ∷ []
insert_row r (q ∷ qs) =
    let rest = insert_row r qs in if ltb r.created_at q.created_at then q ∷ rest else r ∷ q ∷ qs

pub arrange : List OrderRecord → List OrderRecord
unfolding insert_row
arrange [] = []
arrange (r ∷ rs) = insert_row r (arrange rs)

abbrev pub recent : ℕ → List OrderRecord → List OrderRecord
recent cutoff orders = take 50 (arrange (newer cutoff orders))

insert_row-count :
    (test : OrderRecord → Bool) (r : OrderRecord) (qs : List OrderRecord)
    → count test (insert_row r qs) ≡ count test (r ∷ qs)
unfolding insert_row
insert_row-count test r [] = refl
insert_row-count test r (q ∷ qs) = elim (Bool-cases (ltb r.created_at q.created_at)) [
  | inl lt ↦ rw lt (omega (arith, insert_row-count test r qs))
  | inr ge ↦ rw ge refl
]

insert_row-below :
    (bound : ℕ) (r : OrderRecord) (qs : List OrderRecord)
    → r.created_at ≤ bound
    → All (λ q. q.created_at ≤ bound) qs
    → All (λ q. q.created_at ≤ bound) (insert_row r qs)
unfolding insert_row
insert_row-below bound r [] h _ = (h, tt)
insert_row-below bound r (q ∷ qs) h (p, ps) = elim (Bool-cases (ltb r.created_at q.created_at)) [
  | inl lt ↦ rw lt (p, insert_row-below bound r qs h ps)
  | inr ge ↦ rw ge (h, (p, ps))
]

insert_row-Descending :
    (r : OrderRecord) (qs : List OrderRecord) → Descending qs → Descending (insert_row r qs)
unfolding insert_row
insert_row-Descending r [] h = (tt, tt)
insert_row-Descending r (q ∷ qs) (below, h) = elim (Bool-cases (ltb r.created_at q.created_at)) [
  | inl lt ↦
      rw lt (
        insert_row-below q.created_at r qs (ground (arith, lt)) below,
        insert_row-Descending r qs h,
      )
  | inr ge ↦
      let le : q.created_at ≤ r.created_at = ground (arith, ge) in
      rw ge (
        (
          le,
          All-imp (λ x. x.created_at ≤ q.created_at) (λ x. x.created_at ≤ r.created_at)
              (λ x e. omega (arith, e, le)) qs below,
        ),
        (below, h),
      )
]

arrange-count :
    (test : OrderRecord → Bool) (rs : List OrderRecord) → count test (arrange rs) ≡ count test rs
unfolding arrange
arrange-count test [] = refl
arrange-count test (r ∷ rs) =
    let one = insert_row-count test r (arrange rs) in omega (arith, one, arrange-count test rs)

arrange-Descending : (rs : List OrderRecord) → Descending (arrange rs)
unfolding arrange
arrange-Descending [] = tt
arrange-Descending (r ∷ rs) = insert_row-Descending r (arrange rs) (arrange-Descending rs)

pub recent-IsRecent :
    (cutoff : ℕ) (orders : List OrderRecord) → IsRecent cutoff orders (recent cutoff orders)
recent-IsRecent cutoff orders = record {
  arranged = arrange (newer cutoff orders);
  each = λ test. arrange-count test (newer cutoff orders);
  descending = arrange-Descending (newer cutoff orders);
  first = refl;
}
