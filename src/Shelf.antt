-- ===== src/Shelf.antt =====
-- labs/sqlcommenter/main.go: the orders API on Postgres, whose statements carry the request's tags.
-- The database is a record of functions from the statements run before and the statement to what it
-- brings back; a handler takes the list of the statements run so far and gives back the longer list.
-- A float64 stands by its decimal text, and a timestamp by its JSON text.
pub mod Orders
pub mod Transaction
pub mod Prepared
pub mod Lookups
mod Tests
use mock_lab.Common.{
  ℕ, ◌≡◌, ◌⊎◌, inl, inr, Bool, true, false, not, ◌||◌, List, [], ◌∷◌, ◌++◌, Option, none, some,
  ◌==◌, if◌then◌else◌, map,
}
use mock_lab.Common.Text.{Bytes, codes, is_empty, text_eq}
use mock_lab.Common.Int.{ℤ, decimal_int}
use mock_lab.Common.Integer.{parse_int}
use mock_lab.Common.Json.{Json, Members, str, number, arr, obj, end, member, elems_of}
use mock_lab.Common.Http.{Response, json, application_json}
use mock_lab.Tag.{
  TraceContext, RequestTags, CommentMode, comment_trace, tag, trace_from_request, traceparent,
}

pub data DbError : Type 0 where
  no_rows : DbError
  db_error : Bytes → DbError

pub data Arg : Type 0 where
  int_arg : ℤ → Arg
  text_arg : Bytes → Arg
  float_arg : Bytes → Arg

-- A statement as it is sent, with its arguments; `prepare` makes a named statement on a connection,
-- and `run` runs it.
pub data Stmt : Type 0 where
  sql : Bytes → List Arg → Stmt
  prepare : ℕ → Bytes → Stmt
  run : ℕ → List Arg → Stmt

pub record Product : Type 0 where
  pub id : ℤ
  pub name : Bytes
  pub price : Bytes
  pub stock : ℤ

pub record OrderItem : Type 0 where
  pub product_id : ℤ
  pub quantity : ℤ
  pub price : Bytes

pub record OrderHead : Type 0 where
  pub id : ℤ
  pub customer : Bytes
  pub total : Bytes
  pub created_at : Bytes

pub record Sales : Type 0 where
  pub product : Bytes
  pub units : ℤ
  pub revenue : Bytes

abbrev pub Log : Type 0
Log = List Stmt

-- What the pool and the connections bring back, by the statements before.
pub record Db : Type 0 where
  pub acquire : Log → DbError ⊎ ℕ
  pub exec : Log → Stmt → Option DbError
  pub scan_int : Log → Stmt → DbError ⊎ ℤ
  pub scan_float : Log → Stmt → DbError ⊎ Bytes
  pub scan_order : Log → Stmt → DbError ⊎ OrderHead
  pub products : Log → Stmt → DbError ⊎ List Product
  pub product : Log → Stmt → DbError ⊎ Product
  pub items : Log → Stmt → DbError ⊎ List OrderItem
  pub sales : Log → Stmt → DbError ⊎ List Sales

abbrev pub write_json : ℕ → Json → Response
write_json status v = record { status = status; content_type = application_json; body = json v }

abbrev pub error_json : Bytes → Json
error_json msg = obj (member (codes "error") (str msg) end)

pub http_error : DbError → Response
http_error no_rows = write_json 404 (error_json (codes "not found"))
http_error (db_error err) = write_json 500 (error_json err)

-- `routeOf`: a pattern from its first slash on, or whole.
from_slash : Bytes → Bytes → Bytes
from_slash pattern [] = pattern
from_slash pattern (c ∷ s) = let rest = from_slash pattern s in if c == b'/' then c ∷ s else rest

pub route_of : Bytes → Bytes
unfolding from_slash
route_of pattern = from_slash pattern pattern

abbrev is_trace : CommentMode → Bool
is_trace comment_trace = true
is_trace _ = false

abbrev no_trace : TraceContext
no_trace = record { trace_id = []; span_id = []; flags = []; started = false }

-- `handle`: the tags of a request, and the traceparent header of its response ("" for none).
pub handle : CommentMode → Bytes → (ℕ → ℕ) → (ℕ → ℕ) → Bytes → RequestTags × Bytes
unfolding route_of
handle mode pattern trace_bytes span_bytes header =
    let trace = trace_from_request trace_bytes span_bytes header in
    if is_trace mode
    then (record { trace = trace; route = route_of pattern }, traceparent trace)
    else (record { trace = no_trace; route = route_of pattern }, [])

-- `pathID`: the ID, or the response.
pub path_id : Bytes → Response ⊎ ℤ
path_id s = elim (parse_int s) [
  | none ↦ inl (write_json 400 (error_json (codes "id must be a number")))
  | some id ↦ inr id
]

abbrev pub product_json : Product → Json
product_json p = obj (
    member (codes "id") (number (decimal_int p.id)) (
      member (codes "name") (str p.name) (
        member (codes "price") (number p.price)
          (member (codes "stock") (number (decimal_int p.stock)) end))))

-- `health`, whose statement is not tagged.
pub health : Db → Log → Response × Log
health db log =
    let s = sql (codes "SELECT count(*) FROM products") [] in
    (
      elim (db.scan_int log s) [
        | inl err ↦ http_error err
        | inr n ↦ write_json 200 (
            obj (
              member (codes "products") (number (decimal_int n))
                (member (codes "status") (str (codes "ok")) end)))
      ],
      log ++ s ∷ [],
    )

module _ (db : Db) (mode : CommentMode) (tags : RequestTags) where
  -- `tag(ctx, …)` in the context of the request.
  abbrev pub tagged : Bytes → Bytes
  tagged text = tag mode (some tags) text

  pub list_products : Log → Response × Log
  list_products log =
      let s =
        sql (tagged (codes "SELECT id, name, price::float8, stock FROM products ORDER BY id")) [] in
      (
        elim (db.products log s) [
          | inl err ↦ http_error err
          | inr products ↦ write_json 200 (arr (elems_of (map product_json products)))
        ],
        log ++ s ∷ [],
      )

  -- A price of zero is left out.
  abbrev pub item_json : OrderItem → Json
  item_json it =
      let price : Members =
        if text_eq it.price (codes "0")
        then end
        else member (codes "price") (number it.price) end in
      obj (
        member (codes "product_id") (number (decimal_int it.product_id))
          (member (codes "quantity") (number (decimal_int it.quantity)) price))

  pub get_order : Bytes → Log → Response × Log
  get_order id_text log =
      let head : ℤ → Stmt = λ id.
        sql
          (tagged
            (codes "SELECT id, customer, total::float8, created_at FROM orders WHERE id = $1"))
          (int_arg id ∷ []) in
      let rows : ℤ → Stmt = λ id.
        sql
          (tagged (
            codes
              "SELECT product_id, quantity, price::float8 FROM order_items WHERE order_id = $1 ORDER BY product_id"))
          (int_arg id ∷ []) in
      elim (path_id id_text) [
        | inl response ↦ (response, log)
        | inr id ↦ elim (db.scan_order log (head id)) [
          | inl err ↦ (http_error err, log ++ head id ∷ [])
          | inr o ↦
              let log1 = log ++ head id ∷ [] in
              (
                elim (db.items log1 (rows id)) [
                  | inl err ↦ http_error err
                  | inr items ↦ write_json 200 (
                      obj (
                        member (codes "id") (number (decimal_int o.id)) (
                          member (codes "customer") (str o.customer) (
                            member (codes "total") (number o.total) (
                              member (codes "created_at") (str o.created_at) (
                                member (codes "items") (arr (elems_of (map item_json items)))
                                  end))))))
                ],
                log1 ++ rows id ∷ [],
              )
        ]
      ]
