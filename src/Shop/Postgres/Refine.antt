-- ===== src/Shop/Postgres/Refine.antt =====
-- PGStore of tutorial/go/store.go is a store as the handlers expect one.
use mock_lab.Common.{
  ℕ, ◌%◌, ◌^◌, ◌≡◌, ◌<◌, refl, sym, ap, ap₂, ◌∙◌, inl, inr, List, [], ◌∷◌, ◌++◌, Option, some, map,
  length, All, arith,
}
use mock_lab.Common.Text.{Bytes, codes, text_eq_refl}
use mock_lab.Common.Hex.{IsBytes}
use mock_lab.Shop.{Line}
use mock_lab.Shop.Total.{Fits}
use mock_lab.Shop.Reading.{IsStore}
use mock_lab.Shop.Postgres.{
  Database, int32, int_of_int32, uuid_string, scan_row, scan_rows, scan_all, scan_order, scan_line,
  get_order, get_lines, create_order, pg_store,
}
use mock_lab.Shop.Postgres.Tables.{
  Tables, IsPostgres, orders_of, items_of, orders_of-append, items_of-append, item_columns,
  with_order,
}
use mock_lab.Shop.Postgres.Atomic.{item_of, order_of, with_items, create_order-IsAtomic}

-- The text of a UUID, as `String` writes it.
pub record IsUuid (id : Bytes) : Type 0 where
  pub bytes : Bytes
  pub size : length bytes ≡ 16
  pub bounds : IsBytes bytes
  pub text : id ≡ uuid_string bytes

int32_fits : (n : ℕ) → n < 2 ^ 31 → int_of_int32 (int32 n) ≡ n
int32_fits n h = let e : n % 2 ^ 32 ≡ n = omega arith in rw e (ground arith)

items_of-item_of :
    (u : Bytes) (lines : List Line) → items_of u (map (item_of u) lines) ≡ map (item_of u) lines
items_of-item_of u [] = refl
items_of-item_of u (l ∷ lines) =
    rw (text_eq_refl u) (ap (λ i. item_of u l ∷ i) (items_of-item_of u lines))

scan_rows-item_of :
    {S T : Type 0} (db : Database S T) (u : Bytes) (lines : List Line)
    → All Fits lines
    → scan_rows (scan_line db) (map item_columns (map (item_of u) lines)) ≡ inr lines
unfolding scan_rows scan_line
scan_rows-item_of db u [] h = refl
scan_rows-item_of db u (l ∷ lines) ((q, p), h) =
    rw (scan_rows-item_of db u lines h, int32_fits l.quantity q, int32_fits l.unit_price_cents p)
      refl

module _ {S T : Type 0} (db : Database S T) {tables : S → Tables} {pending : T → Tables}
    {to_uuid : Bytes → Option Bytes} (pg : IsPostgres db tables pending to_uuid) where
  get_order-stored :
      (u customer : Bytes) (total created_at : ℕ) (lines : List Line) (s s' : S)
      → total < 2 ^ 31
      → to_uuid (uuid_string u) ≡ some u
      → orders_of u (tables s).orders ≡ []
      → tables s'
        ≡ with_items u lines (with_order (order_of u customer total created_at) (tables s))
      → get_order db (uuid_string u) s'
        ≡ inr (record {
          id = uuid_string u;
          customer = customer;
          status = codes "placed";
          total_cents = total;
          created_at = created_at;
          item_count = 0;
        })
  unfolding get_order
  get_order-stored u customer total created_at lines s s' fits known fresh after =
      let r = order_of u customer total created_at in
      let found : orders_of u (tables s').orders ≡ r ∷ [] =
        ap (λ ts. orders_of u ts.orders) after
        ∙ orders_of-append u (tables s).orders (r ∷ [])
        ∙ ap₂ ◌++◌ fresh (rw (text_eq_refl u) refl) in
      rw (get_order, pg.selects_order (uuid_string u) u s' known, found)
        (unfold scan_row scan_order in rw (int32_fits total fits) refl)

  get_lines-stored :
      (u customer : Bytes) (total created_at : ℕ) (lines : List Line) (s s' : S)
      → All Fits lines
      → to_uuid (uuid_string u) ≡ some u
      → items_of u (tables s).items ≡ []
      → tables s'
        ≡ with_items u lines (with_order (order_of u customer total created_at) (tables s))
      → get_lines db (uuid_string u) s' ≡ inr lines
  unfolding get_lines
  get_lines-stored u customer total created_at lines s s' fits known fresh after =
      let found : items_of u (tables s').items ≡ map (item_of u) lines =
        ap (λ ts. items_of u ts.items) after
        ∙ items_of-append u (tables s).items (map (item_of u) lines)
        ∙ ap₂ ◌++◌ fresh (items_of-item_of u lines) in
      rw (get_lines, pg.selects_items (uuid_string u) u s' known, found)
        (rw (scan_all, scan_rows-item_of db u lines fits) refl)

  finds_uuid :
      (u customer : Bytes) (total : ℕ) (lines : List Line) (s : S) (created_at : ℕ)
      → length u ≡ 16
      → IsBytes u
      → total < 2 ^ 31
      → All Fits lines
      → (create_order db (uuid_string u) customer total lines s).1 ≡ inr created_at
      → let s' = (create_order db (uuid_string u) customer total lines s).0 in
        (get_order db (uuid_string u) s'
          ≡ inr (record {
            id = uuid_string u;
            customer = customer;
            status = codes "placed";
            total_cents = total;
            created_at = created_at;
            item_count = 0;
          }))
        × (get_lines db (uuid_string u) s' ≡ inr lines)
  finds_uuid u customer total lines s created_at size bounds fits lines_fit e =
      let id = uuid_string u in
      let s' = (create_order db id customer total lines s).0 in
      let known = pg.reads_uuid u size bounds in
      elim (create_order-IsAtomic db pg id customer total lines s) [
        | inl (err, failed, _) ↦ absurd (cc (e, failed))
        | inr (v, t, asked, fresh, no_items, after, inr (err, failed)) ↦ absurd (cc (e, failed))
        | inr (v, t, asked, fresh, no_items, after, inl answered) ↦
            let same : v ≡ u = cc (asked, known) in
            let time : t ≡ created_at = cc (e, answered) in
            let stored : tables s'
                ≡ with_items u lines
                    (with_order (order_of u customer total created_at) (tables s)) =
              after
              ∙ ap₂
                  (λ w c. with_items w lines (with_order (order_of w customer total c) (tables s)))
                  same time in
            (
              get_order-stored u customer total created_at lines s s' fits known
                  (ap (λ w. orders_of w (tables s).orders) (sym same) ∙ fresh) stored,
              get_lines-stored u customer total created_at lines s s' lines_fit known
                  (ap (λ w. items_of w (tables s).items) (sym same) ∙ no_items) stored,
            )
      ]

  -- PGStore is a store as the handlers expect one: on a database that keeps what is documented of
  -- Postgres (`IsPostgres`), an order that it took under the text of a UUID, with numbers below 2^31,
  -- is found under this text with the customer, the total and the time that it was given, the status
  -- "placed", and its lines in their order.
  pub pg_store-IsStore : IsStore IsUuid (pg_store db)
  pg_store-IsStore = record {
    finds = λ id customer total lines s created_at named fits lines_fit e.
        let e' : (create_order db (uuid_string named.bytes) customer total lines s).1
            ≡ inr created_at =
          ap (λ i. (create_order db i customer total lines s).1) (sym named.text) ∙ e in
        rw named.text (
          finds_uuid named.bytes customer total lines s created_at named.size named.bounds fits
            lines_fit e');
  }
