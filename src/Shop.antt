-- ===== src/Shop.antt =====
-- tutorial/go/upstream.go and handlers.go: the order service of the tutorial, its client of the
-- projects API and its handlers, over the interface of its store.
-- A call of the projects API is a function of how many calls the request has made before, and of the
-- path; the store is a state that its operations act on.
pub mod Handlers
pub mod Quantity
pub mod Request
pub mod Total
pub mod Store
pub mod Reading
pub mod Listing
pub mod Postgres
mod Tests
use mock_lab.Common.{
  ℕ, zero, suc, ◌+◌, ◌-◌, ◌*◌, ◌⊎◌, inl, inr, Bool, true, false, not, ◌&&◌, ◌||◌, List, [], ◌∷◌,
  ◌++◌, Option, none, some, ◌==◌, ltb, length, map, if◌then◌else◌,
}
use mock_lab.Common.Text.{Bytes, codes, text_eq, is_empty}
use mock_lab.Common.Decimal.{decimal}
use mock_lab.Common.Int.{ℤ, pos, negsuc}
use mock_lab.Common.Float.{Float, is_trunc, exceeds, int_of}
use mock_lab.Common.Json.{
  Json, str, int, arr, obj, number, end, member, elems, elems_of, Members, get, as_string,
  as_object,
}
use mock_lab.Common.Http.{Response, json, application_json}
use mock_lab.Common.Url.{path_escape}

-- The errors of the upstream client.
pub data UpstreamError : Type 0 where
  unknown_project : UpstreamError
  catalog_unavailable : UpstreamError

pub record Project : Type 0 where
  pub id : Bytes
  pub name : Bytes
  pub maturity : Bytes

pub price_cents : Bytes → ℕ
price_cents maturity =
    if text_eq maturity (codes "Graduated")
    then 1200
    else if text_eq maturity (codes "Incubating")
    then 800
    else if text_eq maturity (codes "Sandbox")
    then 500
    else 1000

-- What a GET brings back: an error on the way, or a status and what the body decodes to.
pub data Got (A : Type 0) : Type 0 where
  not_got : Got A
  got : ℕ → Option A → Got A

-- `Upstream.get`, behind the call.
pub decode_got : {A : Type 0} → Got A → UpstreamError ⊎ A
decode_got not_got = inl catalog_unavailable
decode_got (got status document) =
    if status == 200
    then elim document [ none ↦ inl catalog_unavailable | some a ↦ inr a ]
    else if status == 404
    then inl unknown_project
    else inl catalog_unavailable

-- The target of `Upstream.get`, by the base, the path and the time in milliseconds.
abbrev pub target : Bytes → Bytes → ℕ → Bytes
target base path millis = base ++ path ++ codes "?ts=" ++ decimal millis

-- `Upstream.Catalog`: an unknown catalog is an unavailable one.
pub upstream_catalog : Got (List Project) → UpstreamError ⊎ List Project
unfolding decode_got
upstream_catalog answer = elim (decode_got answer) [
  | inl unknown_project ↦ inl catalog_unavailable
  | inl catalog_unavailable ↦ inl catalog_unavailable
  | inr projects ↦ inr projects
]

abbrev pub project_path : Bytes → Bytes
project_path id = codes "/v1/project/" ++ path_escape id

pub record Line : Type 0 where
  pub project_id : Bytes
  pub name : Bytes
  pub quantity : ℕ
  pub unit_price_cents : ℕ

pub record OrderRow : Type 0 where
  pub id : Bytes
  pub customer : Bytes
  pub status : Bytes
  pub total_cents : ℕ
  pub created_at : ℕ
  pub item_count : ℕ

pub data StoreError : Type 0 where
  order_not_found : StoreError
  store_failed : Bytes → StoreError

-- The interface `Store`, on a state of the database.
pub record StoreOf (S : Type 0) : Type 0 where
  pub create_order : Bytes → Bytes → ℕ → List Line → S → S × (StoreError ⊎ ℕ)
  pub get_order : Bytes → S → StoreError ⊎ OrderRow
  pub get_lines : Bytes → S → StoreError ⊎ List Line
  pub order_status : Bytes → S → StoreError ⊎ Bytes
  pub list_recent : ℕ → S → StoreError ⊎ List OrderRow
  pub list_recent_with_counts : ℕ → S → StoreError ⊎ List OrderRow

-- The fields of `App` besides the store and the client, and how a time is formatted. An `App` stands
-- for one request: `now k` is what the call of `Now` gives that the request makes behind `k` others.
pub record App : Type 0 where
  pub version : Bytes
  pub slow : Bool
  pub now : ℕ → ℕ
  pub format_time : ℕ → Bytes

abbrev pub write_json : ℕ → Json → Response
write_json status v = record { status = status; content_type = application_json; body = json v }

abbrev pub write_error : ℕ → Bytes → Response
write_error status msg = write_json status (obj (member (codes "error") (str msg) end))

abbrev pub internal_error : Response
internal_error = write_error 500 (codes "internal error")

-- A number, or its text under v2.
unfoldable pub total_value : App → ℕ → Json
total_value app cents = if text_eq app.version (codes "v2") then str (decimal cents) else int cents

pub record RequestItem : Type 0 where
  pub project_id : Bytes
  pub quantity : ℕ

pub record OrderRequest : Type 0 where
  pub customer : Bytes
  pub items : List RequestItem

-- `integerValue`; `parse_float` is `strconv.ParseFloat` to 64 bits, `none` for its errors.
pub integer_value : (Bytes → Option Float) → Option Json → Option ℤ
integer_value parse_float (some (number literal)) = elim (parse_float literal) [
  | none ↦ none
  | some f ↦
      if not (is_trunc f)
        || (f.negative && exceeds 1_000_000_000 f)
        || (not f.negative && exceeds 1_000_000_000 f)
      then none
      else some (int_of f)
]
integer_value parse_float _ = none

-- A quantity from 1 to 99.
abbrev pub quantity_of : Option ℤ → Option ℕ
quantity_of (some (pos n)) = if ltb n 1 || ltb 99 n then none else some n
quantity_of _ = none

-- The members of an entry; what is no object has none.
abbrev pub item_members : Json → Members
item_members raw = elim (as_object raw) [ none ↦ end | some ms ↦ ms ]

-- The loop of `ParseOrderRequest` over the entries: an error message, or the items.
pub parse_items : (Bytes → Option Float) → List Json → Bytes ⊎ List RequestItem
unfolding integer_value
parse_items parse_float [] = inr []
parse_items parse_float (raw ∷ raws) =
    let item : Members = item_members raw in
    let rest = parse_items parse_float raws in
    elim (as_string (get (codes "project_id") item)) [
      | none ↦ inl (codes "project_id is required")
      | some project_id ↦
          if is_empty project_id
          then inl (codes "project_id is required")
          else elim (quantity_of (integer_value parse_float (get (codes "quantity") item))) [
            | none ↦ inl (codes "quantity must be between 1 and 99")
            | some n ↦ elim rest [
              | inl msg ↦ inl msg
              | inr items ↦ inr (record { project_id = project_id; quantity = n } ∷ items)
            ]
          ]
    ]

-- `v.([]any)`
abbrev pub as_list : Option Json → Option (List Json)
as_list (some (arr vs)) = some (elems vs)
as_list _ = none

-- `ParseOrderRequest`, by the one document that the body is, if it is one.
pub parse_order_request : (Bytes → Option Float) → Option Json → Bytes ⊎ OrderRequest
unfolding parse_items
parse_order_request parse_float (some (obj ms)) = elim (as_string (get (codes "customer") ms)) [
  | none ↦ inl (codes "customer is required")
  | some customer ↦
      if is_empty customer
      then inl (codes "customer is required")
      else elim (as_list (get (codes "items") ms)) [
        | none ↦ inl (codes "items must have 1 to 10 entries")
        | some raws ↦
            if ltb (length raws) 1 || ltb 10 (length raws)
            then inl (codes "items must have 1 to 10 entries")
            else elim (parse_items parse_float raws) [
              | inl msg ↦ inl msg
              | inr items ↦ inr (record { customer = customer; items = items })
            ]
      ]
]
parse_order_request parse_float _ = inl (codes "invalid JSON body")
