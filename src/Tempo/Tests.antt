-- ===== src/Tempo/Tests.antt =====
-- The catalog view of labs/tempo on concrete requests.
use mock_lab.Common.{
  ℕ, ◌≡◌, ◌⊎◌, ◌↔◌, ◌≤◌, refl, inl, inr, true, false, List, [], ◌∷◌, ◌++◌, Option, some, length,
  arith,
}
use mock_lab.Common.Text.{Bytes, codes}
use mock_lab.Common.Int.{pos}
use mock_lab.Common.Hex.{IsBytes-of_all}
use mock_lab.Common.Url.{path_escape}
use mock_lab.Tempo.{
  InventoryItem, Body, endpoint_path, path_value, build, decode_catalog_request, catalog_handler,
  shown,
}
use mock_lab.Tempo.Request.{IsCatalog, decode_catalog_request_iff}
use mock_lab.Tempo.Build.{AreFound, Fails, counted, products, build_lem}
use mock_lab.Tempo.Lookup.{IsSegment, is_plain, path_value-endpoint_path}
use mock_lab.Tempo.Fixture.{served, sku, item_of, base, catalog_handler-served}

abbrev origin : Bytes
origin = codes "http://i"

abbrev ids : List Bytes
ids = codes "sku-3" ∷ codes "none" ∷ codes "sku-4" ∷ []

abbrev body : Body
body = record { first = inr ids; ends = true }

decode_catalog_request_iff_example : (decode_catalog_request body ≡ inr ids) ↔ IsCatalog body ids
decode_catalog_request_iff_example = decode_catalog_request_iff body ids

build_lem_example :
    let (r, spans) = build (served origin) (base origin) ids in
    ((err : Bytes) × (r ≡ inl err) × Fails (served origin) (base origin) 0 ids err spans)
    ⊎ ((items : List InventoryItem) × (r ≡ inr (counted items))
        × AreFound (served origin) (base origin) 0 ids items
        × (length items ≡ length ids)
        × (products spans ≡ ids))
build_lem_example = build_lem (served origin) (base origin) ids

abbrev spaced : Bytes
spaced = codes "sku 1"

spaced-IsSegment : IsSegment spaced
unfolding codes mock_lab.Common.Text.text_eq
spaced-IsSegment = record {
  bytes = IsBytes-of_all spaced refl;
  full = refl;
  not_dot = refl;
  not_dots = refl;
}

path_value-endpoint_path_example :
    (path_value (endpoint_path [] spaced) ≡ some (path_escape spaced))
    × ((path_value (endpoint_path [] spaced) ≡ some spaced) ↔ (is_plain spaced ≡ true))
path_value-endpoint_path_example = path_value-endpoint_path spaced spaced-IsSegment

-- The path of the request escapes the escape.
spaced_path : endpoint_path [] spaced ≡ codes "/v1/inventory/sku%25201"
unfolding endpoint_path mock_lab.Common.UrlPath.escape_path
    mock_lab.Common.UrlPath.escapes_in_whole_path mock_lab.Common.UrlPath.join3
    mock_lab.Common.UrlPath.clean mock_lab.Common.Text.join mock_lab.Common.Text.text_eq path_escape
    mock_lab.Common.Url.escapes_in_path mock_lab.Common.Url.upper_hex codes
spaced_path = refl

-- A path in the base URL is cleaned with the rest.
based_path : endpoint_path (codes "/api/../x/") (codes "sku-1") ≡ codes "/x/v1/inventory/sku-1"
unfolding endpoint_path mock_lab.Common.UrlPath.escape_path
    mock_lab.Common.UrlPath.escapes_in_whole_path mock_lab.Common.UrlPath.join3
    mock_lab.Common.UrlPath.clean mock_lab.Common.Text.join mock_lab.Common.Text.text_eq path_escape
    mock_lab.Common.Url.escapes_in_path codes
based_path = refl

abbrev numbers : List ℕ
numbers = 3 ∷ 23 ∷ []

catalog_handler-served_example :
    (catalog_handler
      (served origin)
      (base origin)
      (record { first = inr (sku 3 ∷ sku 23 ∷ []); ends = true })).0
    ≡ shown (record {
      items = item_of 3 ∷ item_of 23 ∷ [];
      requested_items = 2;
      available_items = 1;
      total_quantity = pos 21;
    })
catalog_handler-served_example =
    catalog_handler-served origin numbers (omega arith) (omega arith) (omega arith)
      (((λ e. omega (arith, e)), tt), (tt, tt))
