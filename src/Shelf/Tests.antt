-- ===== src/Shelf/Tests.antt =====
-- The orders API over a database that answers everything.
use mock_lab.Common.{ℕ, List, if◌then◌else◌, ◌≡◌, ◌⊎◌, inl, inr, refl, false, [], ◌∷◌, none, some}
use mock_lab.Common.Text.{codes}
use mock_lab.Common.Int.{pos}
use mock_lab.Common.Integer.{parse_int}
use mock_lab.Tag.{RequestTags, comment_route}
use mock_lab.Shelf.{Db, run, int_arg, OrderItem, route_of, no_rows}
use mock_lab.Shelf.Orders.{
  CreateOrderRequest, begin, create_order, has, prepare_product, get_product,
}
use mock_lab.Shelf.Prepared.{preparations, AllReady}
use mock_lab.Shelf.Lookups.{Event, look_up, place, run_events, run_events-AllReady}
use mock_lab.Shelf.Transaction.{NotBegun, IsTransaction, create_order-IsTransaction}

abbrev db : Db
db = record {
  acquire = λ log. inr 1;
  exec = λ log s. none;
  scan_int = λ log s. inr (pos 5);
  scan_float = λ log s. inr (codes "24.5");
  scan_order = λ log s. inl no_rows;
  products = λ log s. inr [];
  product = λ log s. inl no_rows;
  items = λ log s. inr [];
  sales = λ log s. inr [];
}

abbrev tags : RequestTags
tags = record {
  trace = record { trace_id = []; span_id = []; flags = []; started = false };
  route = codes "/orders";
}

abbrev request : CreateOrderRequest
request = record {
  customer = codes "ada";
  items = record { product_id = pos 1; quantity = pos 2; price = codes "0" } ∷ [];
}

route_of_test : route_of (codes "GET /orders/{id}") ≡ codes "/orders/{id}"
unfolding route_of mock_lab.Shelf.from_slash codes
route_of_test = refl

create_order_test : (create_order db comment_route tags (some request) []).0.status ≡ 201
unfolding create_order mock_lab.Shelf.Orders.transaction mock_lab.Shelf.Orders.add_items codes
create_order_test = refl

create_order-IsTransaction_example :
    let (response, log') = create_order db comment_route tags (some request) [] in
    NotBegun db comment_route tags (some request) [] response log'
    ⊎ IsTransaction db comment_route tags [] response.status log'
create_order-IsTransaction_example =
    create_order-IsTransaction db comment_route tags (some request) []

-- Two lookups of a product over one connection, the first with another route than the second, and an
-- order between them.
abbrev other_tags : RequestTags
other_tags = record { trace = tags.trace; route = codes "/other" }

abbrev events : List Event
events =
    look_up other_tags (codes "1")
    ∷ place tags (some request)
    ∷ look_up tags (codes "1")
    ∷ look_up tags (codes "x")
    ∷ []

-- The second lookup runs the statement that has the comment of the first.
look_up_twice :
    run_events db comment_route
      (look_up other_tags (codes "1") ∷ look_up tags (codes "1") ∷ [])
      ([], [])
    ≡ (
      1 ∷ [],
      prepare_product db comment_route other_tags 1
          ∷ run 1 (int_arg (pos 1) ∷ [])
          ∷ run 1 (int_arg (pos 1) ∷ [])
          ∷ [],
    )
unfolding run_events mock_lab.Shelf.Lookups.after get_product codes mock_lab.Shelf.path_id parse_int
look_up_twice = refl

run_events-AllReady_example :
    let (prepared, log) = run_events db comment_route events ([], []) in
    AllReady db [] log × ((c : ℕ) → preparations db c [] log ≡ (if has c prepared then 1 else 0))
run_events-AllReady_example = run_events-AllReady db comment_route events
