-- ===== src/Tempo.antt =====
-- labs/tempo/internal/catalog/catalog.go, labs/tempo/cmd/app/main.go and
-- labs/tempo/cmd/inventory/main.go: the catalog view, its client of the inventory, and the inventory.
-- A lookup is a function of how many lookups the request has made before, and of the URL. A number of
-- Go's `int` is an integer, whose sums wrap around. Spans are values, without the times.
pub mod Request
pub mod Build
pub mod Lookup
pub mod Fixture
mod Tests
use mock_lab.Common.{
  ℕ, suc, ◌+◌, ◌-◌, ◌*◌, ◌%◌, ◌^◌, ◌⊎◌, inl, inr, Bool, true, false, not, ◌&&◌, ◌||◌, List, [], ◌∷◌,
  ◌++◌, Option, none, some, ◌==◌, ltb, length, map, all, if◌then◌else◌,
}
use mock_lab.Common.Text.{Bytes, codes, text_eq, is_empty, trim_space, cut_prefix, quote}
use mock_lab.Common.Decimal.{decimal}
use mock_lab.Common.Int.{ℤ, pos, negsuc}
use mock_lab.Common.Integer.{parse_int, add_int64}
use mock_lab.Common.Url.{path_escape, path_unescape}
use mock_lab.Common.UrlPath.{escape_path, join3}

pub record InventoryItem : Type 0 where
  pub product_id : Bytes
  pub available : Bool
  pub quantity : ℤ

pub record Result : Type 0 where
  pub items : List InventoryItem
  pub requested_items : ℕ
  pub available_items : ℕ
  pub total_quantity : ℤ

-- What a lookup brings back: the request is not built, the call fails, or a response arrives, with its
-- status, the text of the status, and the error of its decoding or the item.
pub data Found : Type 0 where
  not_built : Bytes → Found
  not_called : Bytes → Found
  found : ℕ → Bytes → Bytes ⊎ InventoryItem → Found

-- The span of a lookup: the product, and the error and the status that are set on it, if any.
pub record Span : Type 0 where
  pub product : Bytes
  pub failure : Option (Bytes × Bytes)

-- The base URL: its scheme and host with "://" between, and its path.
pub record Base : Type 0 where
  pub origin : Bytes
  pub path : Bytes

-- `NewService`, by what `url.Parse` makes of the base URL: an error, or its scheme, host and the rest.
pub new_service : Bytes ⊎ (Bytes × Bytes × Base) → Bytes ⊎ Base
new_service (inl err) = inl (codes "parse inventory URL: " ++ err)
new_service (inr (scheme, host, base)) =
    if is_empty scheme || is_empty host
    then inl (codes "inventory URL must include scheme and host")
    else inr base

-- A slash between the host and a path that starts with none.
abbrev pub with_slash : Bytes → Bytes
with_slash [] = []
with_slash (c ∷ s) = if c == b'/' then c ∷ s else b'/' ∷ c ∷ s

-- The path of `endpoint.String()`.
pub endpoint_path : Bytes → Bytes → Bytes
endpoint_path base id =
    with_slash (escape_path (join3 base (codes "v1/inventory") (path_escape id)))

-- The checks of `fetchInventory` on what a lookup brings back: the item, or the error with the status
-- of the span.
pub check_found : Bytes → Found → (Bytes × Bytes × Bytes) ⊎ InventoryItem
check_found id (not_built err) = inl (
  codes "build inventory request for " ++ quote id ++ codes ": " ++ err,
  err,
  codes "build request",
)
check_found id (not_called err) =
    inl (
      codes "fetch inventory for " ++ quote id ++ codes ": " ++ err,
      err,
      codes "request inventory",
    )
check_found id (found status text decoded) =
    if not (status == 200)
    then (let err = codes "inventory for " ++ quote id ++ codes " returned " ++ text in
        inl (err, err, text))
    else elim decoded [
      | inl err ↦ inl (
        codes "decode inventory for " ++ quote id ++ codes ": " ++ err,
        err,
        codes "decode response",
      )
      | inr item ↦
          let err =
            codes "inventory returned product "
            ++ quote item.product_id
            ++ codes " for "
            ++ quote id in
          if not (text_eq item.product_id id)
          then inl (err, err, codes "product mismatch")
          else inr item
    ]

-- The inventory, by the number of lookups before and the URL.
abbrev pub Inventory : Type 0
Inventory = ℕ → Bytes → Found

-- `fetchInventory`
pub fetch_inventory : Inventory → Base → ℕ → Bytes → (Bytes ⊎ InventoryItem) × Span
unfolding check_found endpoint_path
fetch_inventory inventory base calls id =
    elim (check_found id (inventory calls (base.origin ++ endpoint_path base.path id))) [
      | inl (err, recorded, status) ↦
          (inl err, record { product = id; failure = some (recorded, status) })
      | inr item ↦ (inr item, record { product = id; failure = none })
    ]

-- The first loop of `Build`, behind `calls` lookups, with the spans.
pub fetch_all : Inventory → Base → ℕ → List Bytes → (Bytes ⊎ List InventoryItem) × List Span
unfolding fetch_inventory
fetch_all inventory base calls [] = (inr [], [])
fetch_all inventory base calls (id ∷ ids) =
    let (one, span) = fetch_inventory inventory base calls id in
    let (rest, spans) = fetch_all inventory base (suc calls) ids in
    elim one [
      | inl err ↦ (inl err, span ∷ [])
      | inr item ↦ (elim rest [ inl err ↦ inl err | inr items ↦ inr (item ∷ items) ], span ∷ spans)
    ]

-- The second loop of `Build`.
pub tally : Result → List InventoryItem → Result
tally r [] = r
tally r (item ∷ items) =
    tally
      (record r {
        available_items = if item.available then suc r.available_items else r.available_items;
        total_quantity = add_int64 r.total_quantity item.quantity;
      })
      items

pub build : Inventory → Base → List Bytes → (Bytes ⊎ Result) × List Span
unfolding fetch_all tally
build inventory base ids =
    let (fetched, spans) = fetch_all inventory base 0 ids in
    (
      elim fetched [
        | inl err ↦ inl err
        | inr items ↦ inr (
            tally
              (record {
                items = items;
                requested_items = length items;
                available_items = 0;
                total_quantity = pos 0;
              })
              items)
      ],
      spans,
    )

abbrev pub max_product_ids : ℕ
max_product_ids = 20

-- A body, as the decoder reads it: the error of the first document or its product IDs, and whether
-- nothing follows.
pub record Body : Type 0 where
  pub first : Bytes ⊎ List Bytes
  pub ends : Bool

abbrev pub has : Bytes → List Bytes → Bool
has id [] = false
has id (s ∷ seen) = text_eq s id || has id seen

abbrev pub field_at : ℕ → Bytes
field_at i = codes "product_ids[" ++ decimal i ++ codes "]"

-- The loop of `decodeCatalogRequest`, at index `i`: an error if there is one.
pub check_ids : ℕ → List Bytes → List Bytes → Option Bytes
check_ids i seen [] = none
check_ids i seen (id ∷ ids) =
    let rest = check_ids (suc i) (id ∷ seen) ids in
    if is_empty (trim_space id)
    then some (field_at i ++ codes " must not be blank")
    else if has id seen
    then some (field_at i ++ codes " duplicates " ++ quote id)
    else rest

pub decode_catalog_request : Body → Bytes ⊎ List Bytes
unfolding check_ids
decode_catalog_request body = elim body.first [
  | inl err ↦ inl (codes "decode request: " ++ err)
  | inr ids ↦
      if not body.ends
      then inl (codes "decode request: expected one JSON object")
      else if length ids == 0 || ltb max_product_ids (length ids)
      then inl
          (codes "product_ids must contain 1 to " ++ decimal max_product_ids ++ codes " values")
      else elim (check_ids 0 [] ids) [ some err ↦ inl err | none ↦ inr ids ]
]

-- A result, or `http.Error` with a text and a status.
pub data Reply : Type 0 where
  shown : Result → Reply
  refused : Bytes → ℕ → Reply

-- `catalogHandler`
pub catalog_handler : Inventory → Base → Body → Reply × List Span
unfolding decode_catalog_request build
catalog_handler inventory base body = elim (decode_catalog_request body) [
  | inl err ↦ (refused err 400, [])
  | inr ids ↦
      let (result, spans) = build inventory base ids in
      (elim result [ inl err ↦ refused err 502 | inr r ↦ shown r ], spans)
]

-- `quantityFor` of the inventory; `Atoi` is `ParseInt` in 64 bits.
pub quantity_for : Bytes → Option ℕ
quantity_for id = elim (cut_prefix (codes "sku-") id) [
  | none ↦ none
  | some digits ↦ elim (parse_int digits) [
    | some (pos n) ↦ if ltb n 1 || ltb 999 n then none else some (n * 7 % 23)
    | some (negsuc n) ↦ none
    | none ↦ none
  ]
]

-- The handler of the inventory, by the path value: the item, or "unknown product" with 404.
pub inventory_handler : Bytes → Option InventoryItem
unfolding quantity_for
inventory_handler id = elim (quantity_for id) [
  | none ↦ none
  | some quantity ↦
      some (record { product_id = id; available = ltb 0 quantity; quantity = pos quantity })
]

abbrev pub no_slash : Bytes → Bool
no_slash s = all (λ c. not (c == b'/')) s

-- The path value of the route `GET /v1/inventory/{productID}`: the one segment behind the prefix,
-- unescaped.
pub path_value : Bytes → Option Bytes
path_value path = elim (cut_prefix (codes "/v1/inventory/") path) [
  | none ↦ none
  | some segment ↦
      if is_empty segment || not (no_slash segment) then none else path_unescape segment
]
