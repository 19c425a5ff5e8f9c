-- ===== src/Shop/Postgres/Tables.antt =====
-- The tables of tutorial/contract/schema.sql, and what Postgres makes of the statements of
-- tutorial/go/store.go on them.
use mock_lab.Common.{
  ℕ, ◌+◌, ◌≤◌, ◌≡◌, ◌⊎◌, Bool, take, ltb, ◌==◌, ◌&&◌, all, refl, List, [], ◌∷◌, ◌++◌, Option, none,
  some, length, map, All, if◌then◌else◌, arith, inr,
}
use mock_lab.Common.Text.{Bytes, codes, text_eq}
use mock_lab.Common.Hex.{IsBytes}
use mock_lab.Shop.Postgres.{
  Value, uuid, text, int4, int8, timestamptz, rows, Database, uuid_string, sql_create_order,
  sql_create_order_line, sql_get_order, sql_get_order_lines, sql_list_recent, sql_list_recent_count,
  sql_order_status,
}

-- A row of `orders`, and one of `order_items`; `id` and `order_id` are the bytes of a UUID.
pub record OrderRecord : Type 0 where
  pub id : Bytes
  pub customer : Bytes
  pub status : Bytes
  pub total_cents : ℕ
  pub created_at : ℕ

pub record ItemRecord : Type 0 where
  pub order_id : Bytes
  pub project_id : Bytes
  pub name : Bytes
  pub quantity : ℕ
  pub unit_price_cents : ℕ

-- The rows in the order in which they were inserted.
pub record Tables : Type 0 where
  pub orders : List OrderRecord
  pub items : List ItemRecord

-- `WHERE id = u`
abbrev pub orders_of : Bytes → List OrderRecord → List OrderRecord
orders_of u [] = []
orders_of u (r ∷ rs) = if text_eq r.id u then r ∷ orders_of u rs else orders_of u rs

-- `WHERE order_id = u`
abbrev pub items_of : Bytes → List ItemRecord → List ItemRecord
items_of u [] = []
items_of u (r ∷ rs) = if text_eq r.order_id u then r ∷ items_of u rs else items_of u rs

pub orders_of-append :
    (u : Bytes) (rs ss : List OrderRecord)
    → orders_of u (rs ++ ss) ≡ orders_of u rs ++ orders_of u ss
orders_of-append u [] ss = refl
orders_of-append u (r ∷ rs) ss = ground (arith, orders_of-append u rs ss)

pub items_of-append :
    (u : Bytes) (rs ss : List ItemRecord) → items_of u (rs ++ ss) ≡ items_of u rs ++ items_of u ss
items_of-append u [] ss = refl
items_of-append u (r ∷ rs) ss = ground (arith, items_of-append u rs ss)

-- The columns of the SELECT lists.
abbrev pub order_columns : OrderRecord → List Value
order_columns r =
    uuid r.id ∷ text r.customer ∷ text r.status ∷ int4 r.total_cents ∷ timestamptz r.created_at ∷ []

abbrev pub counted_columns : List ItemRecord → OrderRecord → List Value
counted_columns items r =
    uuid r.id
    ∷ text r.customer
    ∷ text r.status
    ∷ int4 r.total_cents
    ∷ timestamptz r.created_at
    ∷ int8 (length (items_of r.id items))
    ∷ []

abbrev pub item_columns : ItemRecord → List Value
item_columns r = text r.project_id ∷ text r.name ∷ int4 r.quantity ∷ int4 r.unit_price_cents ∷ []

abbrev pub status_columns : OrderRecord → List Value
status_columns r = text r.status ∷ []

abbrev pub with_order : OrderRecord → Tables → Tables
with_order r ts = record ts { orders = ts.orders ++ r ∷ [] }

abbrev pub with_item : ItemRecord → Tables → Tables
with_item r ts = record ts { items = ts.items ++ r ∷ [] }

-- The value of a column of the type uuid: sixteen bytes.
abbrev pub is_uuid : Bytes → Bool
is_uuid u = length u == 16 && all (λ c. ltb c 256) u

-- How many rows pass a test.
abbrev pub count : (OrderRecord → Bool) → List OrderRecord → ℕ
count test [] = 0
count test (r ∷ rs) = (if test r then 1 else 0) + count test rs

-- `WHERE created_at > cutoff`
abbrev pub newer : ℕ → List OrderRecord → List OrderRecord
newer cutoff [] = []
newer cutoff (r ∷ rs) = if ltb cutoff r.created_at then r ∷ newer cutoff rs else newer cutoff rs

abbrev pub Descending : List OrderRecord → Type 0
Descending [] = Unit
Descending (r ∷ rs) = All (λ q. q.created_at ≤ r.created_at) rs × Descending rs

-- `WHERE created_at > cutoff ORDER BY created_at DESC LIMIT 50`: the first rows of some arrangement of
-- the selected rows, the newest first. Which one, where rows are tied, is not documented.
pub record IsRecent (cutoff : ℕ) (orders rs : List OrderRecord) : Type 0 where
  pub arranged : List OrderRecord
  pub each : (test : OrderRecord → Bool) → count test arranged ≡ count test (newer cutoff orders)
  pub descending : Descending arranged
  pub first : rs ≡ take 50 arranged

-- What is documented of Postgres and of pgx: `tables` are the committed tables, `pending` those
-- that a transaction sees, and `to_uuid` reads a text as a UUID. The reads of a database that answers give the rows that the
-- statement selects; writes may fail.
pub record IsPostgres {S T : Type 0} (db : Database S T) (tables : S → Tables)
    (pending : T → Tables) (to_uuid : Bytes → Option Bytes) : Type 0 where
  -- The text of a UUID is read as this UUID.
  pub reads_uuid : (u : Bytes) → length u ≡ 16 → IsBytes u → to_uuid (uuid_string u) ≡ some u
  -- A transaction begins with the committed tables.
  pub begins : (s : S) (t : T) → db.begin s ≡ inr t → pending t ≡ tables s
  -- `orders.id` is the primary key: a row is inserted only where no other has the ID.
  pub inserts_order :
      (id customer : Bytes) (total created_at : ℕ) (more : List (List Value)) (t t' : T)
      → db.tx_query sql_create_order (text id ∷ text customer ∷ int4 total ∷ []) t
        ≡ (t', rows ((timestamptz created_at ∷ []) ∷ more) none)
      → (u : Bytes) × (to_uuid id ≡ some u)
        × (orders_of u (pending t).orders ≡ [])
        × (pending t'
            ≡ with_order
                (record {
                  id = u;
                  customer = customer;
                  status = codes "placed";
                  total_cents = total;
                  created_at = created_at;
                })
                (pending t))
  pub inserts_item :
      (id project_id name : Bytes) (quantity price : ℕ) (t t' : T)
      → db.tx_exec sql_create_order_line
          (text id ∷ text project_id ∷ text name ∷ int4 quantity ∷ int4 price ∷ [])
          t
        ≡ (t', none)
      → (u : Bytes) × (to_uuid id ≡ some u)
        × (pending t'
            ≡ with_item
                (record {
                  order_id = u;
                  project_id = project_id;
                  name = name;
                  quantity = quantity;
                  unit_price_cents = price;
                })
                (pending t))
  -- `order_items.order_id` is a foreign key: only an order that is there has items.
  pub has_order :
      (t : T) (u : Bytes) → orders_of u (pending t).orders ≡ [] → items_of u (pending t).items ≡ []
  pub commits : (s s' : S) (t : T) → db.commit t s ≡ (s', none) → tables s' ≡ pending t
  -- A commit that fails may have been done all the same.
  pub commit_fails :
      (s s' : S) (t : T) (err : Bytes)
      → db.commit t s ≡ (s', some err)
      → (tables s' ≡ tables s) ⊎ (tables s' ≡ pending t)
  pub rolls_back : (s : S) (t : T) → tables (db.rollback t s) ≡ tables s
  pub selects_order :
      (id u : Bytes) (s : S)
      → to_uuid id ≡ some u
      → db.query sql_get_order (text id ∷ []) s
        ≡ rows (map order_columns (orders_of u (tables s).orders)) none
  pub selects_status :
      (id u : Bytes) (s : S)
      → to_uuid id ≡ some u
      → db.query sql_order_status (text id ∷ []) s
        ≡ rows (map status_columns (orders_of u (tables s).orders)) none
  pub selects_items :
      (id u : Bytes) (s : S)
      → to_uuid id ≡ some u
      → db.query sql_get_order_lines (text id ∷ []) s
        ≡ rows (map item_columns (items_of u (tables s).items)) none
  pub selects_recent :
      (cutoff : ℕ) (s : S)
      → (rs : List OrderRecord) × IsRecent cutoff (tables s).orders rs
        × (db.query sql_list_recent (timestamptz cutoff ∷ []) s ≡ rows (map order_columns rs) none)
  pub selects_recent_count :
      (cutoff : ℕ) (s : S)
      → (rs : List OrderRecord) × IsRecent cutoff (tables s).orders rs
        × (db.query sql_list_recent_count (timestamptz cutoff ∷ []) s
            ≡ rows (map (counted_columns (tables s).items) rs) none)
