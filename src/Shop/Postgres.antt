-- ===== src/Shop/Postgres.antt =====
-- tutorial/go/store.go: PGStore, the implementation of the store on a Postgres database.
-- The pool and the database behind it are a parameter: `S` is what is committed, `T` what a
-- transaction sees. The columns of 32 bits and Go's `int` are patterns of 32 and of 64 bits.
pub mod Uuid
pub mod Tables
pub mod Atomic
pub mod Refine
pub mod Newest
pub mod Arrange
pub mod Recent
mod Memory
mod Tests
use mock_lab.Common.{
  ℕ, zero, suc, ◌+◌, ◌-◌, ◌/◌, ◌%◌, ◌^◌, ◌⊎◌, inl, inr, Bool, true, false, ◌||◌, List, [], ◌∷◌,
  ◌++◌, Option, none, some, ◌==◌, ltb, if◌then◌else◌,
}
use mock_lab.Common.Text.{Bytes, codes}
use mock_lab.Common.Hex.{hex_digit}
use mock_lab.Shop.{Line, OrderRow, StoreError, order_not_found, store_failed, StoreOf}

-- The SQL texts.
pub sql_create_order : Bytes
sql_create_order =
    codes
      "INSERT INTO orders (id, customer, status, total_cents) VALUES ($1::uuid, $2, 'placed', $3) RETURNING created_at"

pub sql_create_order_line : Bytes
sql_create_order_line =
    codes
      "INSERT INTO order_items (order_id, project_id, name, quantity, unit_price_cents) VALUES ($1::uuid, $2, $3, $4, $5)"

pub sql_get_order : Bytes
sql_get_order =
    codes "SELECT id, customer, status, total_cents, created_at FROM orders WHERE id = $1::uuid"

pub sql_get_order_lines : Bytes
sql_get_order_lines =
    codes
      "SELECT project_id, name, quantity, unit_price_cents FROM order_items WHERE order_id = $1::uuid ORDER BY id"

pub sql_list_recent : Bytes
sql_list_recent =
    codes
      "SELECT id, customer, status, total_cents, created_at FROM orders WHERE created_at > $1::timestamptz ORDER BY created_at DESC LIMIT 50"

pub sql_list_recent_count : Bytes
sql_list_recent_count =
    codes
      "SELECT o.id, o.customer, o.status, o.total_cents, o.created_at, (SELECT COUNT(*) FROM order_items i WHERE i.order_id = o.id) AS item_count FROM orders o WHERE o.created_at > $1::timestamptz ORDER BY o.created_at DESC LIMIT 50"

pub sql_order_status : Bytes
sql_order_status = codes "SELECT status FROM orders WHERE id = $1::uuid"

-- An argument of a statement, or a column of a row.
pub data Value : Type 0 where
  uuid : Bytes → Value
  text : Bytes → Value
  int4 : ℕ → Value
  int8 : ℕ → Value
  timestamptz : ℕ → Value

-- What a query brings back: an error, or the rows with the error, if any, that ended them.
pub data Answer : Type 0 where
  not_answered : Bytes → Answer
  rows : List (List Value) → Option Bytes → Answer

-- The pool and the transactions that it begins, with the text of pgx for a row that a Scan refuses.
pub record Database (S T : Type 0) : Type 0 where
  pub begin : S → Bytes ⊎ T
  pub tx_query : Bytes → List Value → T → T × Answer
  pub tx_exec : Bytes → List Value → T → T × Option Bytes
  pub commit : T → S → S × Option Bytes
  pub rollback : T → S → S
  pub query : Bytes → List Value → S → Answer
  pub scan_error : List Value → Bytes

-- `int32(n)`
abbrev pub int32 : ℕ → ℕ
int32 n = n % 2 ^ 32

-- `int(w)` of an int32: the sign is extended.
abbrev pub int_of_int32 : ℕ → ℕ
int_of_int32 w = if ltb w (2 ^ 31) then w else 2 ^ 64 - 2 ^ 32 + w

-- The loop of `uuidString`, at index `i`.
pub uuid_from : ℕ → Bytes → Bytes
uuid_from i [] = []
uuid_from i (c ∷ b) =
    let rest = hex_digit (c / 16) ∷ hex_digit (c % 16) ∷ uuid_from (suc i) b in
    if i == 4 || i == 6 || i == 8 || i == 10 then b'-' ∷ rest else rest

pub uuid_string : Bytes → Bytes
unfolding uuid_from
uuid_string = uuid_from 0

-- `pgx.ErrNoRows`, or any other error.
pub data RowError : Type 0 where
  no_rows : RowError
  row_failed : Bytes → RowError

-- `QueryRow(…).Scan(…)`, with what the Scan makes of a row.
pub scan_row : {A : Type 0} → (List Value → Bytes ⊎ A) → Answer → RowError ⊎ A
scan_row scan (not_answered err) = inl (row_failed err)
scan_row scan (rows [] none) = inl no_rows
scan_row scan (rows [] (some err)) = inl (row_failed err)
scan_row scan (rows (r ∷ rs) after) = elim (scan r) [
  | inl err ↦ inl (row_failed err)
  | inr a ↦ elim after [ none ↦ inr a | some err ↦ inl (row_failed err) ]
]

-- The loop over `rows.Next()`.
pub scan_rows : {A : Type 0} → (List Value → Bytes ⊎ A) → List (List Value) → Bytes ⊎ List A
scan_rows scan [] = inr []
scan_rows scan (r ∷ rs) = elim (scan r) [
  | inl err ↦ inl err
  | inr a ↦ elim (scan_rows scan rs) [ inl err ↦ inl err | inr as' ↦ inr (a ∷ as') ]
]

-- `Query`, the loop, and `rows.Err()`.
pub scan_all : {A : Type 0} → (List Value → Bytes ⊎ A) → Answer → StoreError ⊎ List A
unfolding scan_rows
scan_all scan (not_answered err) = inl (store_failed err)
scan_all scan (rows rs after) = elim (scan_rows scan rs) [
  | inl err ↦ inl (store_failed err)
  | inr as' ↦ elim after [ none ↦ inr as' | some err ↦ inl (store_failed err) ]
]

-- The text of `pgx.ErrNoRows`.
abbrev pub no_rows_text : Bytes
no_rows_text = codes "no rows in result set"

abbrev pub row_error : RowError → StoreError
row_error no_rows = store_failed no_rows_text
row_error (row_failed err) = store_failed err

-- The error of a lookup by ID.
abbrev pub lookup_error : RowError → StoreError
lookup_error no_rows = order_not_found
lookup_error (row_failed err) = store_failed err

module _ {S T : Type 0} (db : Database S T) where
  pub scan_time : List Value → Bytes ⊎ ℕ
  scan_time (timestamptz t ∷ []) = inr t
  scan_time r = inl (db.scan_error r)

  pub scan_order : List Value → Bytes ⊎ OrderRow
  scan_order (uuid u ∷ text customer ∷ text status ∷ int4 tc ∷ timestamptz t ∷ []) = inr (record {
    id = uuid_string u;
    customer = customer;
    status = status;
    total_cents = int_of_int32 tc;
    created_at = t;
    item_count = 0;
  })
  scan_order r = inl (db.scan_error r)

  pub scan_counted : List Value → Bytes ⊎ OrderRow
  scan_counted (uuid u ∷ text customer ∷ text status ∷ int4 tc ∷ timestamptz t ∷ int8 count ∷ []) =
      inr (record {
        id = uuid_string u;
        customer = customer;
        status = status;
        total_cents = int_of_int32 tc;
        created_at = t;
        item_count = count;
      })
  scan_counted r = inl (db.scan_error r)

  pub scan_line : List Value → Bytes ⊎ Line
  scan_line (text project_id ∷ text name ∷ int4 q ∷ int4 unt ∷ []) = inr (record {
    project_id = project_id;
    name = name;
    quantity = int_of_int32 q;
    unit_price_cents = int_of_int32 unt;
  })
  scan_line r = inl (db.scan_error r)

  pub scan_status : List Value → Bytes ⊎ Bytes
  scan_status (text status ∷ []) = inr status
  scan_status r = inl (db.scan_error r)

  -- The loop of `CreateOrder` over the lines.
  pub insert_lines : Bytes → List Line → T → T × Option Bytes
  insert_lines id [] t = (t, none)
  insert_lines id (l ∷ lines) t =
      let (t', e) =
        db.tx_exec sql_create_order_line
          (text id
            ∷ text l.project_id
            ∷ text l.name
            ∷ int4 (int32 l.quantity)
            ∷ int4 (int32 l.unit_price_cents)
            ∷ [])
          t in
      elim e [ some err ↦ (t', some err) | none ↦ insert_lines id lines t' ]

  -- `Commit`. Behind it the transaction is closed, and the deferred `Rollback` does nothing.
  pub commit_order : T → ℕ → S → S × (StoreError ⊎ ℕ)
  commit_order t created_at s =
      let (s', e) = db.commit t s in
      (s', elim e [ some err ↦ inl (store_failed err) | none ↦ inr created_at ])

  -- `CreateOrder` behind `Begin`; a return before `Commit` rolls back.
  pub fill_order : Bytes → Bytes → ℕ → List Line → T → S → S × (StoreError ⊎ ℕ)
  unfolding insert_lines commit_order
  fill_order id customer total lines t s =
      let (t1, a) =
        db.tx_query sql_create_order (text id ∷ text customer ∷ int4 (int32 total) ∷ []) t in
      elim (scan_row scan_time a) [
        | inl err ↦ (db.rollback t1 s, inl (row_error err))
        | inr created_at ↦
            let (t2, e) = insert_lines id lines t1 in
            elim e [
              | some err ↦ (db.rollback t2 s, inl (store_failed err))
              | none ↦ commit_order t2 created_at s
            ]
      ]

  pub create_order : Bytes → Bytes → ℕ → List Line → S → S × (StoreError ⊎ ℕ)
  unfolding fill_order
  create_order id customer total lines s = elim (db.begin s) [
    | inl err ↦ (s, inl (store_failed err))
    | inr t ↦ fill_order id customer total lines t s
  ]

  pub get_order : Bytes → S → StoreError ⊎ OrderRow
  unfolding scan_row scan_order
  get_order id s = elim (scan_row scan_order (db.query sql_get_order (text id ∷ []) s)) [
    | inl err ↦ inl (lookup_error err)
    | inr row ↦ inr row
  ]

  pub get_lines : Bytes → S → StoreError ⊎ List Line
  unfolding scan_all scan_line
  get_lines id s = scan_all scan_line (db.query sql_get_order_lines (text id ∷ []) s)

  pub order_status : Bytes → S → StoreError ⊎ Bytes
  unfolding scan_row scan_status
  order_status id s = elim (scan_row scan_status (db.query sql_order_status (text id ∷ []) s)) [
    | inl err ↦ inl (lookup_error err)
    | inr status ↦ inr status
  ]

  -- `list`
  pub list : Bytes → Bool → ℕ → S → StoreError ⊎ List OrderRow
  unfolding scan_all scan_order scan_counted
  list query with_count cutoff s =
      scan_all (if with_count then scan_counted else scan_order)
        (db.query query (timestamptz cutoff ∷ []) s)

  -- PGStore as a `Store`.
  abbrev pub pg_store : StoreOf S
  pg_store = record {
    create_order = create_order;
    get_order = get_order;
    get_lines = get_lines;
    order_status = order_status;
    list_recent = list sql_list_recent false;
    list_recent_with_counts = list sql_list_recent_count true;
  }
