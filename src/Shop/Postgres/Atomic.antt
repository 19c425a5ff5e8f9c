-- ===== src/Shop/Postgres/Atomic.antt =====
-- CreateOrder of tutorial/go/store.go: the order is stored whole, or not at all.
use mock_lab.Common.{
  ℕ, ◌≡◌, ◌⊎◌, refl, sym, ap, ap₂, ◌∙◌, inl, inr, List, [], ◌∷◌, ◌++◌, Option, none, some, map,
  append_assoc, append-nil, Option-cases, arith,
}
use mock_lab.Common.Text.{Bytes, codes}
use mock_lab.Shop.{Line, StoreError, store_failed}
use mock_lab.Shop.Postgres.{
  Value, uuid, text, int4, int8, timestamptz, Answer, not_answered, rows, Database, int32, scan_row,
  scan_time, insert_lines, commit_order, fill_order, create_order, sql_create_order,
  sql_create_order_line, row_error,
}
use mock_lab.Shop.Postgres.Tables.{
  OrderRecord, ItemRecord, Tables, IsPostgres, orders_of, items_of, with_order, with_item,
}

abbrev pub item_of : Bytes → Line → ItemRecord
item_of u l = record {
  order_id = u;
  project_id = l.project_id;
  name = l.name;
  quantity = int32 l.quantity;
  unit_price_cents = int32 l.unit_price_cents;
}

abbrev pub order_of : Bytes → Bytes → ℕ → ℕ → OrderRecord
order_of u customer total created_at = record {
  id = u;
  customer = customer;
  status = codes "placed";
  total_cents = int32 total;
  created_at = created_at;
}

abbrev pub with_items : Bytes → List Line → Tables → Tables
with_items u lines ts = record ts { items = ts.items ++ map (item_of u) lines }

Answer-cases : {A B : Type 0} (x : A ⊎ B) → ((a : A) × (x ≡ inl a)) ⊎ ((b : B) × (x ≡ inr b))
Answer-cases (inl a) = inl (a, refl)
Answer-cases (inr b) = inr (b, refl)

module _ {S T : Type 0} (db : Database S T) {tables : S → Tables} {pending : T → Tables}
    {to_uuid : Bytes → Option Bytes} (pg : IsPostgres db tables pending to_uuid) where
  -- A time that was scanned is the one column of the first row.
  scan_time_row : (r : List Value) (c : ℕ) → scan_time db r ≡ inr c → r ≡ timestamptz c ∷ []
  unfolding scan_time
  scan_time_row (timestamptz t ∷ []) c h = ground arith
  scan_time_row [] c h = cc
  scan_time_row (uuid b ∷ r) c h = cc
  scan_time_row (text b ∷ r) c h = cc
  scan_time_row (int4 b ∷ r) c h = cc
  scan_time_row (int8 b ∷ r) c h = cc
  scan_time_row (timestamptz t ∷ v ∷ r) c h = cc

  scan_time_answer :
      (a : Answer) (c : ℕ)
      → scan_row (scan_time db) a ≡ inr c
      → (more : List (List Value)) × (a ≡ rows ((timestamptz c ∷ []) ∷ more) none)
  unfolding scan_row
  scan_time_answer (not_answered err) c h = absurd (cc)
  scan_time_answer (rows [] none) c h = absurd (cc)
  scan_time_answer (rows [] (some err)) c h = absurd (cc)
  scan_time_answer (rows (r ∷ rs) after) c h = elim (Answer-cases (scan_time db r)) [
    | inl (err, e) ↦ absurd (ground arith)
    | inr (t, e) ↦ elim (Option-cases after) [
      | inl n ↦
          let same : t ≡ c = ground arith in
          (
            rs,
            ap₂ (λ x y. rows (x ∷ rs) y) (scan_time_row r t e ∙ ap (λ x. timestamptz x ∷ []) same)
                n,
          )
      | inr (err, n) ↦ absurd (ground arith)
    ]
  ]

  insert_lines_lem :
      (id u : Bytes) (lines : List Line) (t : T)
      → to_uuid id ≡ some u
      → (insert_lines db id lines t).1 ≡ none
      → pending (insert_lines db id lines t).0 ≡ with_items u lines (pending t)
  unfolding insert_lines
  insert_lines_lem id u [] t known h =
      ap (λ i. record (pending t) { items = i }) (sym (append-nil (pending t).items))
  insert_lines_lem id u (l ∷ lines) t known h =
      let args : List Value =
        text id
        ∷ text l.project_id
        ∷ text l.name
        ∷ int4 (int32 l.quantity)
        ∷ int4 (int32 l.unit_price_cents)
        ∷ [] in
      let x = db.tx_exec sql_create_order_line args t in
      elim (Option-cases x.1) [
        | inl e ↦
            let (v, asked, after) =
              pg.inserts_item id l.project_id l.name (int32 l.quantity) (int32 l.unit_price_cents) t
                x.0 (ap (λ o. (x.0, o)) e) in
            let same : v ≡ u = ground arith in
            let step : insert_lines db id (l ∷ lines) t ≡ insert_lines db id lines x.0 =
              rw (insert_lines, e) refl in
            let rest = insert_lines_lem id u lines x.0 known (ap (λ p. p.1) (sym step) ∙ h) in
            ap (λ p. pending p.0) step
            ∙ rest
            ∙ ap (with_items u lines) (after ∙ ap (λ w. with_item (item_of w l) (pending t)) same)
            ∙ ap (λ i. record (pending t) { items = i })
                (append_assoc (pending t).items (item_of u l ∷ []) (map (item_of u) lines))
        | inr (err, e) ↦ absurd (
            let stop : insert_lines db id (l ∷ lines) t ≡ (x.0, some err) =
              rw (insert_lines, e) refl in
            cc (h, ap (λ p. p.1) stop))
      ]

  -- Nothing is stored.
  abbrev pub Untouched : S → S × (StoreError ⊎ ℕ) → Type 0
  Untouched s (s', r) = (err : StoreError) × (r ≡ inl err) × (tables s' ≡ tables s)

  -- The order is stored with its lines, under an ID that no order and no line had.
  abbrev pub Stored : Bytes → Bytes → ℕ → List Line → S → S × (StoreError ⊎ ℕ) → Type 0
  Stored id customer total lines s (s', r) =
      (u : Bytes) × (created_at : ℕ) × (to_uuid id ≡ some u)
      × (orders_of u (tables s).orders ≡ [])
      × (items_of u (tables s).items ≡ [])
      × (tables s'
          ≡ with_items u lines (with_order (order_of u customer total created_at) (tables s)))
      × ((r ≡ inr created_at) ⊎ ((err : StoreError) × (r ≡ inl err)))

  commit_order_lem :
      (t : T) (created_at : ℕ) (s : S)
      → let r = commit_order db t created_at s in
        Untouched s r
        ⊎ ((tables r.0 ≡ pending t)
            × ((r.1 ≡ inr created_at) ⊎ ((err : StoreError) × (r.1 ≡ inl err))))
  unfolding commit_order
  commit_order_lem t created_at s =
      let x = db.commit t s in
      elim (Option-cases x.1) [
        | inl e ↦ rw (commit_order, e) (inr (pg.commits s x.0 t (ap (λ o. (x.0, o)) e), inl refl))
        | inr (err, e) ↦ elim (pg.commit_fails s x.0 t err (ap (λ o. (x.0, o)) e)) [
          | inl kept ↦ rw (commit_order, e) (inl (store_failed err, refl, kept))
          | inr done ↦ rw (commit_order, e) (inr (done, inr (store_failed err, refl)))
        ]
      ]

  fill_order_lem :
      (id customer : Bytes) (total : ℕ) (lines : List Line) (s : S) (t : T)
      → pending t ≡ tables s
      → let r = fill_order db id customer total lines t s in
        Untouched s r ⊎ Stored id customer total lines s r
  unfolding fill_order
  fill_order_lem id customer total lines s t start =
      let args : List Value = text id ∷ text customer ∷ int4 (int32 total) ∷ [] in
      let x = db.tx_query sql_create_order args t in
      elim (Answer-cases (scan_row (scan_time db) x.1)) [
        | inl (err, e) ↦ rw (fill_order, e) (inl (row_error err, refl, pg.rolls_back s x.0))
        | inr (created_at, e) ↦
            let (more, answer) = scan_time_answer x.1 created_at e in
            let (u, known, fresh, after) =
              pg.inserts_order id customer (int32 total) created_at more t x.0
                (ap (λ a. (x.0, a)) answer) in
            let y = insert_lines db id lines x.0 in
            elim (Option-cases y.1) [
              | inr (err, f) ↦
                  rw (fill_order, e, f) (inl (store_failed err, refl, pg.rolls_back s y.0))
              | inl f ↦
                  let filled : pending y.0
                      ≡ with_items u lines
                          (with_order (order_of u customer total created_at) (tables s)) =
                    insert_lines_lem id u lines x.0 known f
                    ∙ ap (with_items u lines)
                        (after ∙ ap (with_order (order_of u customer total created_at)) start) in
                  let no_items = pg.has_order t u fresh in
                  rw (fill_order, e, f)
                    (elim (commit_order_lem y.0 created_at s) [
                      | inl untouched ↦ inl untouched
                      | inr (done, answered) ↦ inr (
                        u,
                        created_at,
                        known,
                        ap (λ ts. orders_of u ts.orders) (sym start) ∙ fresh,
                        ap (λ ts. items_of u ts.items) (sym start) ∙ no_items,
                        done ∙ filled,
                        answered,
                      )
                    ])
            ]
      ]

  -- `CreateOrder` either stores nothing, and answers with an error; or it stores the order with all
  -- its lines, under an ID that no order and no line had, and answers with its time, or with the error
  -- of a commit that was done all the same.
  pub create_order-IsAtomic :
      (id customer : Bytes) (total : ℕ) (lines : List Line) (s : S)
      → let r = create_order db id customer total lines s in
        Untouched s r ⊎ Stored id customer total lines s r
  unfolding create_order
  create_order-IsAtomic id customer total lines s = elim (Answer-cases (db.begin s)) [
    | inl (err, e) ↦ rw (create_order, e) (inl (store_failed err, refl, refl))
    | inr (t, e) ↦
        rw (create_order, e) (fill_order_lem id customer total lines s t (pg.begins s t e))
  ]
