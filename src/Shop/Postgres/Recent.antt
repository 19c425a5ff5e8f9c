-- ===== src/Shop/Postgres/Recent.antt =====
-- The recent orders of PGStore, with one statement or with one for each order.
use mock_lab.Common.{
  none, ◌∷◌, [], ◌∙◌, arith, ℕ, ◌-◌, ◌≡◌, refl, sym, ap, inr, true, false, List, [], ◌∷◌, Option,
  map, length, length-map, All, ◌⊎◌,
}
use mock_lab.Common.Text.{Bytes}
use mock_lab.Common.Hex.{IsBytes, IsBytes-of_all}
use mock_lab.Shop.{Line, OrderRow, App}
use mock_lab.Shop.Handlers.{list_orders}
use mock_lab.Shop.Listing.{AreCounted, Agrees, list_orders-slow}
use mock_lab.Shop.Postgres.{
  Value, rows, timestamptz, sql_list_recent, sql_list_recent_count, Database, int_of_int32,
  uuid_string, scan_rows, scan_all, scan_order, scan_counted, scan_line, get_lines, list, pg_store,
}
use mock_lab.Shop.Postgres.Newest.{Untied, IsRecent-unique, IsRecent-All}
use mock_lab.Shop.Postgres.Tables.{
  is_uuid, newer, OrderRecord, ItemRecord, Tables, IsPostgres, items_of, order_columns,
  counted_columns, item_columns,
}

-- What is scanned from the columns of an order, and of an item.
abbrev row_of : OrderRecord → OrderRow
row_of r = record {
  id = uuid_string r.id;
  customer = r.customer;
  status = r.status;
  total_cents = int_of_int32 r.total_cents;
  created_at = r.created_at;
  item_count = 0;
}

abbrev counted_row : List ItemRecord → OrderRecord → OrderRow
counted_row items r = record (row_of r) { item_count = length (items_of r.id items) }

abbrev line_of : ItemRecord → Line
line_of r = record {
  project_id = r.project_id;
  name = r.name;
  quantity = int_of_int32 r.quantity;
  unit_price_cents = int_of_int32 r.unit_price_cents;
}

scan_rows-map :
    {A R : Type 0} (scan : List Value → Bytes ⊎ A) (columns : R → List Value) (f : R → A)
    → ((r : R) → scan (columns r) ≡ inr (f r))
    → (rs : List R) → scan_rows scan (map columns rs) ≡ inr (map f rs)
unfolding scan_rows
scan_rows-map scan columns f h [] = refl
scan_rows-map scan columns f h (r ∷ rs) = rw (h r, scan_rows-map scan columns f h rs) refl

module _ {S T : Type 0} (db : Database S T) {tables : S → Tables} {pending : T → Tables}
    {to_uuid : Bytes → Option Bytes} (pg : IsPostgres db tables pending to_uuid) (s : S) where
  get_lines-items :
      (u : Bytes)
      → length u ≡ 16
      → IsBytes u
      → get_lines db (uuid_string u) s ≡ inr (map line_of (items_of u (tables s).items))
  unfolding get_lines
  get_lines-items u size bounds =
      rw
        (
          get_lines,
          pg.selects_items (uuid_string u) u s (pg.reads_uuid u size bounds),
          scan_all,
          scan_rows-map (scan_line db) item_columns line_of (λ r. unfold scan_line in refl)
              (items_of u (tables s).items),
        )
        refl

  rows-AreCounted :
      (rs : List OrderRecord)
      → All (λ r. is_uuid r.id ≡ true) rs
      → AreCounted (pg_store db) s (map row_of rs) (map (counted_row (tables s).items) rs)
  rows-AreCounted [] h = tt
  rows-AreCounted (r ∷ rs) (named, h) = (
    record {
      lines = map line_of (items_of r.id (tables s).items);
      found =
          get_lines-items r.id (ground (arith, named))
            (IsBytes-of_all r.id (ground (arith, named)));
      same =
          ap (λ n. record (row_of r) { item_count = n })
            (sym (length-map line_of (items_of r.id (tables s).items)));
    },
    rows-AreCounted rs h,
  )

  recent_rows :
      (cutoff : ℕ) (rs : List OrderRecord)
      → db.query sql_list_recent (timestamptz cutoff ∷ []) s ≡ rows (map order_columns rs) none
      → (pg_store db).list_recent cutoff s ≡ inr (map row_of rs)
  unfolding list
  recent_rows cutoff rs selected =
      rw
        (
          list,
          selected,
          scan_all,
          scan_rows-map (scan_order db) order_columns row_of (λ r. unfold scan_order in refl) rs,
        )
        refl

  recent_counted :
      (cutoff : ℕ) (rs : List OrderRecord)
      → db.query sql_list_recent_count (timestamptz cutoff ∷ []) s
        ≡ rows (map (counted_columns (tables s).items) rs) none
      → (pg_store db).list_recent_with_counts cutoff s ≡ inr (map (counted_row (tables s).items) rs)
  unfolding list
  recent_counted cutoff rs selected =
      rw
        (
          list,
          selected,
          scan_all,
          scan_rows-map (scan_counted db) (counted_columns (tables s).items)
              (counted_row (tables s).items) (λ r. unfold scan_counted in refl) rs,
        )
        refl

  pg_store-Agrees :
      (cutoff : ℕ)
      → All (λ r. is_uuid r.id ≡ true) (tables s).orders
      → Untied (newer cutoff (tables s).orders)
      → Agrees (pg_store db) s cutoff
  pg_store-Agrees cutoff named untied =
      let (rs, recent, selected) = pg.selects_recent cutoff s in
      let (qs, counted, selected') = pg.selects_recent_count cutoff s in
      let same = IsRecent-unique cutoff (tables s).orders qs rs untied counted recent in
      record {
        rows = map row_of rs;
        counted = map (counted_row (tables s).items) rs;
        recent = recent_rows cutoff rs selected;
        with_counts =
            recent_counted cutoff qs selected'
            ∙ ap (λ l. inr (map (counted_row (tables s).items) l)) same;
        counts =
            rows-AreCounted rs
              (IsRecent-All (λ r. is_uuid r.id) cutoff (tables s).orders rs named recent);
      }

  -- With PGStore on a database that keeps what is documented of Postgres (`IsPostgres`), whose order IDs
  -- are UUIDs, the slow listing, with one statement for the lines of each order, answers as the fast
  -- one does, whose one statement counts them, if no two orders of the last hour were created at the
  -- same time: then the two statements select the same orders, each by its own arrangement.
  pub list_orders-pg_slow :
      (app : App)
      → All (λ r. is_uuid r.id ≡ true) (tables s).orders
      → Untied (newer (app.now 0 - 3_600_000_000_000) (tables s).orders)
      → list_orders (pg_store db) (record app { slow = true }) s
        ≡ list_orders (pg_store db) (record app { slow = false }) s
  list_orders-pg_slow app named untied =
      list_orders-slow (pg_store db) s app
        (pg_store-Agrees (app.now 0 - 3_600_000_000_000) named untied)
