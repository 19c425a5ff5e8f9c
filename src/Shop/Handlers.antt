-- ===== src/Shop/Handlers.antt =====
-- tutorial/go/handlers.go: the handlers.
use mock_lab.Common.{
  ℕ, suc, ◌+◌, ◌-◌, ◌*◌, ◌⊎◌, inl, inr, List, [], ◌∷◌, ◌++◌, Option, none, some, map, length,
  if◌then◌else◌, ◌==◌, not,
}
use mock_lab.Common.Text.{Bytes, codes}
use mock_lab.Common.Float.{Float}
use mock_lab.Common.Json.{Json, str, int, arr, obj, end, member, elems_of}
use mock_lab.Common.Http.{Response}
use mock_lab.Shop.{
  unknown_project, catalog_unavailable, Project, price_cents, Got, decode_got, upstream_catalog,
  project_path, Line, OrderRow, StoreError, order_not_found, store_failed, StoreOf, App, write_json,
  write_error, internal_error, total_value, RequestItem, OrderRequest, parse_order_request,
}

abbrev pub healthz : Response
healthz = write_json 200 (obj (member (codes "status") (str (codes "ok")) end))

abbrev pub product_json : Project → Json
product_json p = obj (
    member (codes "project_id") (str p.id) (
      member (codes "name") (str p.name) (
        member (codes "maturity") (str p.maturity)
          (member (codes "unit_price_cents") (int (price_cents p.maturity)) end))))

unfoldable pub catalog : App → Got (List Project) → Response
catalog app answer = elim (upstream_catalog answer) [
  | inl err ↦ write_error 502 (codes "catalog unavailable")
  | inr projects ↦ write_json 200 (
      obj (
        member (codes "products") (arr (elems_of (map product_json projects)))
          (member (codes "generated_at") (str (app.format_time (app.now 0))) end)))
]

abbrev pub line_json : Line → Json
line_json l = obj (
    member (codes "project_id") (str l.project_id) (
      member (codes "name") (str l.name) (
        member (codes "quantity") (int l.quantity)
          (member (codes "unit_price_cents") (int l.unit_price_cents) end))))

-- `orderObject`
unfoldable pub order_object : App → Bytes → Bytes → Bytes → List Line → ℕ → ℕ → Json
order_object app id customer status lines total created_at = obj (
    member (codes "id") (str id) (
      member (codes "customer") (str customer) (
        member (codes "status") (str status) (
          member (codes "items") (arr (elems_of (map line_json lines))) (
            member (codes "total_cents") (total_value app total) (
              member (codes "created_at") (str (app.format_time created_at))
                (member (codes "generated_at") (str (app.format_time (app.now 0))) end)))))))

-- The projects API, by the number of calls before and the path.
abbrev pub Upstream : Type 0
Upstream = ℕ → Bytes → Got Project

-- The loop of `createOrder`: `calls` calls were made, and the total and the lines so far are given.
unfoldable pub price_items :
    Upstream → ℕ → ℕ → List Line → List RequestItem → Response ⊎ (ℕ × List Line)
price_items upstream calls total lines [] = inr (total, lines)
price_items upstream calls total lines (it ∷ items) =
    elim (decode_got (upstream calls (project_path it.project_id))) [
      | inl unknown_project ↦ inl (write_error 422 (codes "unknown project: " ++ it.project_id))
      | inl catalog_unavailable ↦ inl (write_error 502 (codes "catalog unavailable"))
      | inr p ↦
          let price = price_cents p.maturity in
          let line : Line = record {
            project_id = it.project_id;
            name = p.name;
            quantity = it.quantity;
            unit_price_cents = price;
          } in
          price_items upstream (suc calls) (total + it.quantity * price) (lines ++ line ∷ []) items
    ]

-- `parseOrderID`, by what `uuid.Parse` and `String` make of a text.
unfoldable pub parse_order_id : (Bytes → Option Bytes) → Bytes → Option Bytes
parse_order_id uuid s = if not (length s == 36) then none else uuid s

abbrev pub order_not_found_error : Response
order_not_found_error = write_error 404 (codes "order not found")

module _ {S : Type 0} (store : StoreOf S) (app : App) where
  -- The part of `createOrder` behind the parsing; `id` is the new UUID.
  unfoldable pub place_order : Upstream → Bytes → OrderRequest → S → S × Response
  unfolding price_items
  place_order upstream id req s = elim (price_items upstream 0 0 [] req.items) [
    | inl response ↦ (s, response)
    | inr (total, lines) ↦
        let (s', created) = store.create_order id req.customer total lines s in
        (
          s',
          elim created [
            | inl err ↦ internal_error
            | inr created_at ↦
                write_json 201
                  (order_object app id req.customer (codes "placed") lines total created_at)
          ],
        )
  ]

  -- `createOrder`. The body is `none` if reading it failed, and otherwise its document, if it is one.
  unfoldable pub create_order :
      (Bytes → Option Float) → Upstream → Bytes → Option (Option Json) → S → S × Response
  unfolding place_order
  create_order parse_float upstream id none s = (s, write_error 400 (codes "invalid JSON body"))
  create_order parse_float upstream id (some body) s = elim (parse_order_request parse_float body) [
    | inl msg ↦ (s, write_error 400 msg)
    | inr req ↦ place_order upstream id req s
  ]

  unfoldable pub get_order : (Bytes → Option Bytes) → Bytes → S → Response
  unfolding parse_order_id
  get_order uuid path_id s = elim (parse_order_id uuid path_id) [
    | none ↦ order_not_found_error
    | some id ↦ elim (store.get_order id s) [
      | inl order_not_found ↦ order_not_found_error
      | inl (store_failed err) ↦ internal_error
      | inr row ↦ elim (store.get_lines id s) [
        | inl err ↦ internal_error
        | inr lines ↦
            write_json 200
              (order_object app row.id row.customer row.status lines row.total_cents row.created_at)
      ]
    ]
  ]

  unfoldable pub get_status : (Bytes → Option Bytes) → Bytes → S → Response
  unfolding parse_order_id
  get_status uuid path_id s = elim (parse_order_id uuid path_id) [
    | none ↦ order_not_found_error
    | some id ↦ elim (store.order_status id s) [
      | inl order_not_found ↦ order_not_found_error
      | inl (store_failed err) ↦ internal_error
      | inr status ↦ write_json 200 (
          obj (
            member (codes "id") (str id) (
              member (codes "status") (str status)
                (member (codes "generated_at") (str (app.format_time (app.now 0))) end))))
    ]
  ]

  -- The loop of `recentOrders` over the rows.
  unfoldable pub count_items : List OrderRow → S → StoreError ⊎ List OrderRow
  count_items [] s = inr []
  count_items (row ∷ rows) s =
      let rest = count_items rows s in
      elim (store.get_lines row.id s) [
        | inl err ↦ inl err
        | inr lines ↦ elim rest [
          | inl err ↦ inl err
          | inr counted ↦ inr (record row { item_count = length lines } ∷ counted)
        ]
      ]

  unfoldable pub recent_orders : ℕ → S → StoreError ⊎ List OrderRow
  unfolding count_items
  recent_orders cutoff s =
      if not app.slow
      then store.list_recent_with_counts cutoff s
      else elim (store.list_recent cutoff s) [ inl err ↦ inl err | inr rows ↦ count_items rows s ]

  abbrev pub summary_json : OrderRow → Json
  summary_json row = obj (
      member (codes "id") (str row.id) (
        member (codes "customer") (str row.customer) (
          member (codes "status") (str row.status) (
            member (codes "item_count") (int row.item_count) (
              member (codes "total_cents") (total_value app row.total_cents)
                (member (codes "created_at") (str (app.format_time row.created_at)) end))))))

  -- `listOrders`: the orders of the last hour, a count of nanoseconds. It calls `Now` twice.
  unfoldable pub list_orders : S → Response
  unfolding recent_orders
  list_orders s = elim (recent_orders (app.now 0 - 3_600_000_000_000) s) [
    | inl err ↦ internal_error
    | inr rows ↦ write_json 200 (
        obj (
          member (codes "orders") (arr (elems_of (map summary_json rows)))
            (member (codes "generated_at") (str (app.format_time (app.now 1))) end)))
  ]
