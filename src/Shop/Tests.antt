-- ===== src/Shop/Tests.antt =====
-- The order service over a store in memory.
use mock_lab.Common.{
  false, none, ◌≡◌, ◌⊎◌, ◌↔◌, inl, inr, refl, false, List, [], ◌∷◌, Option, some, length, map,
  if◌then◌else◌,
}
use mock_lab.Common.Text.{Bytes, codes, text_eq, text_eq_refl}
use mock_lab.Common.Float.{Float}
use mock_lab.Common.Json.{Json, str, arr, obj, number, nil, cons, member, end, get}
use mock_lab.Shop.{
  Project, Got, got, Line, OrderRow, StoreError, order_not_found, StoreOf, App, RequestItem,
  OrderRequest, parse_order_request, price_cents,
}
use mock_lab.Shop.Handlers.{Upstream, create_order, get_order, price_items, place_order}
use mock_lab.Shop.Request.{IsRequest, parse_order_request_iff}
use mock_lab.Shop.Total.{sum_lines}
use mock_lab.Shop.Store.{IsRefusal, IsPlaced, answer_of, create_order_lem}
use mock_lab.Shop.Reading.{IsReadBack, IsStore, get_order-create_order_same}

-- The orders with their lines, the newest first; all are created at 7.
abbrev Memory : Type 0
Memory = List (OrderRow × List Line)

abbrev find : Bytes → Memory → StoreError ⊎ (OrderRow × List Line)
find id [] = inl order_not_found
find id (e ∷ s) = if text_eq e.0.id id then inr e else find id s

abbrev first_of : StoreError ⊎ (OrderRow × List Line) → StoreError ⊎ OrderRow
first_of (inl err) = inl err
first_of (inr e) = inr e.0

abbrev second_of : StoreError ⊎ (OrderRow × List Line) → StoreError ⊎ List Line
second_of (inl err) = inl err
second_of (inr e) = inr e.1

abbrev counted : OrderRow × List Line → OrderRow
counted e = record e.0 { item_count = length e.1 }

abbrev memory : StoreOf Memory
memory = record {
  create_order = λ id customer total lines s. (
    (
      record {
        id = id;
        customer = customer;
        status = codes "placed";
        total_cents = total;
        created_at = 7;
        item_count = 0;
      },
      lines,
    )
        ∷ s,
    inr 7,
  );
  get_order = λ id s. first_of (find id s);
  get_lines = λ id s. second_of (find id s);
  order_status = λ id s. elim (find id s) [ inl err ↦ inl err | inr e ↦ inr e.0.status ];
  list_recent = λ cutoff s. inr (map (λ e. e.0) s);
  list_recent_with_counts = λ cutoff s. inr (map counted s);
}

abbrev AnyText : Bytes → Type 0
AnyText id = Unit

memory-IsStore : IsStore AnyText memory
memory-IsStore = record {
  finds = λ id customer total lines s created_at named total_fits lines_fit e. (
    rw (text_eq_refl id) (let t : created_at ≡ 7 = cc e in rw t refl),
    rw (text_eq_refl id) refl,
  );
}

abbrev app : App
app = record { version = codes "v1"; slow = false; now = λ k. 9; format_time = λ t. codes "time" }

abbrev parse_float : Bytes → Option Float
parse_float literal =
    if text_eq literal (codes "2.0")
    then some (record { negative = false; magnitude = 4; exponent = 1 })
    else if text_eq literal (codes "1.5")
    then some (record { negative = false; magnitude = 3; exponent = 1 })
    else none

one_and_a_half : mock_lab.Shop.integer_value parse_float (some (number (codes "1.5"))) ≡ none
unfolding mock_lab.Shop.integer_value text_eq codes
one_and_a_half = refl

abbrev upstream : Upstream
upstream k path =
    got 200 (some (record { id = codes "helm"; name = codes "Helm"; maturity = codes "Graduated" }))

abbrev document : Json
document = obj (
    member (codes "customer") (str (codes "ada")) (
      member (codes "items")
        (arr (
          cons
            (obj (
              member (codes "project_id") (str (codes "helm"))
                (member (codes "quantity") (number (codes "2.0")) end)))
            nil))
        end))

abbrev request : OrderRequest
request = record {
  customer = codes "ada";
  items = record { project_id = codes "helm"; quantity = 2 } ∷ [];
}

abbrev order_id : Bytes
order_id = codes "6ba7b810-9dad-11d1-80b4-00c04fd430c8"

abbrev uuid : Bytes → Option Bytes
uuid s = some s

parse_order_request_iff_example :
    (parse_order_request parse_float (some document) ≡ inr request)
    ↔ IsRequest parse_float (some document) request
parse_order_request_iff_example = parse_order_request_iff parse_float (some document) request

create_order_lem_example :
    let (s', response) =
      create_order memory app parse_float upstream order_id (some (some document)) [] in
    ((s' ≡ []) × IsRefusal response)
    ⊎ ((req : OrderRequest) × (lines : List Line) × IsPlaced memory app parse_float upstream
          (some (some document))
          req
          lines
        × (s' ≡ (memory.create_order order_id req.customer (sum_lines lines) lines []).0)
        × (response
            ≡ answer_of memory app parse_float upstream order_id req lines
                (memory.create_order order_id req.customer (sum_lines lines) lines []).1))
create_order_lem_example =
    create_order_lem memory app parse_float upstream order_id (some (some document)) []

created :
    (create_order memory app parse_float upstream order_id (some (some document)) []).1.status ≡ 201
unfolding create_order place_order price_items parse_order_request mock_lab.Shop.parse_items
    mock_lab.Shop.integer_value mock_lab.Shop.decode_got get text_eq codes
created = refl

size_36 : length order_id ≡ 36
unfolding codes
size_36 = refl

get_order-create_order_same_example :
    let (s', response) =
      create_order memory app parse_float upstream order_id (some (some document)) [] in
    IsReadBack app order_id response
      (get_order memory (record app { now = λ k. 12 }) uuid order_id s')
      (λ k. 12)
get_order-create_order_same_example =
    get_order-create_order_same memory app parse_float upstream uuid memory-IsStore order_id
      (some (some document)) [] (λ k. 12) tt size_36 refl created
