-- ===== src/Demo/Tests.antt =====
-- The demo app on concrete requests.
use mock_lab.Common.{
  ℕ, ◌≡◌, ◌≢◌, ◌↔◌, ◌⊎◌, ◌≤◌, refl, Bool, true, false, ◌||◌, List, [], ◌∷◌, ◌++◌, Option, none,
  some, length, arith,
}
use mock_lab.Common.Text.{Bytes, codes, text_eq, cut_prefix, is_empty}
use mock_lab.Common.Dict.{lookup, insert}
use mock_lab.Common.Json.{Json, Members, str, int, obj, arr, nil, cons, member, end, decode_string}
use mock_lab.Common.Http.{Fetched, answered}
use mock_lab.Ids.{rand_id}
use mock_lab.Demo.{
  Order, State, Request, write_json, order_json, by_maturity, counts_json, stats_handler,
  token_handler, authed, unauthorized, new_order, create_order_handler, get_order_handler,
}
use mock_lab.Demo.Orders.{Accepted, with_order, create_order_handler_lem, get_order-create_order}
use mock_lab.Demo.History.{
  Event, issue, create, initial, run, IsOrder, run-IsOrder, issued, authed-run, run_of_NoIssue,
  run-keeps,
}
use mock_lab.Demo.Routes
use mock_lab.Demo.Routes.{Draw, Route, post_token, post_order, get_projects}
use mock_lab.Demo.Refactor
use mock_lab.Demo.Refactor.Same.{answers, tracked, answers_same}

-- A downstream that knows every project, and lists two.
abbrev catalog : List Members
catalog =
    member (codes "maturity") (str (codes "Sandbox")) end
    ∷ member (codes "maturity") (int 3) end
    ∷ []

abbrev catalog_json : Json
catalog_json = arr (
    cons (obj (member (codes "maturity") (str (codes "Sandbox")) end))
      (cons (obj (member (codes "maturity") (int 3) end)) nil))

abbrev up : Bytes → Fetched
up url = answered 200 [] (some catalog_json)

abbrev base : Bytes
base = codes "http://d"

abbrev bytes_a : ℕ → ℕ
bytes_a i = 10

abbrev bytes_b : ℕ → ℕ
bytes_b i = 11

abbrev ts : Bytes
ts = codes "2024-01-01T00:00:00Z"

-- A state with one token.
abbrev with_token : State
with_token = record { valid_tokens = (codes "t", true) ∷ []; orders = [] }

abbrev ask : Request
ask = record {
  authorization = codes "Bearer t";
  body = some (obj (member (codes "project") (str (codes "helm")) end));
  id = [];
}

ask-Accepted : Accepted up base bytes_a ts ask with_token (codes "helm")
unfolding authed cut_prefix lookup text_eq codes decode_string mock_lab.Common.Json.decode_members
    mock_lab.Common.Text.to_lower
ask-Accepted = record {
  token = refl;
  decoded = refl;
  named = refl;
  page = [];
  document = some catalog_json;
  exists = refl;
}

no_header : authed [] with_token ≡ false
unfolding authed cut_prefix codes
no_header = refl

create_order_handler_lem_example :
    let (s', response) = create_order_handler up base bytes_a ts ask with_token in
    ((response.status ≡ 201)
      × ((project : Bytes) × Accepted up base bytes_a ts ask with_token project
          × (s' ≡ with_order up base bytes_a ts project with_token)))
    ⊎ ((response.status ≢ 201) × (s' ≡ with_token))
create_order_handler_lem_example = create_order_handler_lem up base bytes_a ts ask with_token

get_order-create_order_example :
    let (s', response) = create_order_handler up base bytes_a ts ask with_token in
    let o = new_order bytes_a ts (codes "helm") in
    (response ≡ write_json 201 (order_json o))
    × (get_order_handler (record ask { id = o.order_id }) s' ≡ write_json 200 (order_json o))
    × (get_order_handler (record ask { authorization = []; id = o.order_id }) s' ≡ unauthorized)
get_order-create_order_example =
    get_order-create_order up base bytes_a ts ask with_token [] ask-Accepted no_header

-- A token, and an order with it.
abbrev session : List Event
session =
    issue bytes_a
    ∷ create up bytes_b ts (record ask { authorization = codes "Bearer " ++ rand_id [] 32 bytes_a })
    ∷ []

session_order :
    lookup (rand_id (codes "order-") 8 bytes_b) (run base session initial).orders
    ≡ some (new_order bytes_b ts (codes "helm"))
unfolding run mock_lab.Demo.History.after token_handler create_order_handler
    mock_lab.Demo.place_order new_order authed cut_prefix lookup insert text_eq codes decode_string
    mock_lab.Common.Json.decode_members mock_lab.Common.Text.to_lower rand_id
    mock_lab.Common.Hex.hex mock_lab.Common.Hex.hex_digit
session_order = refl

run-IsOrder_example :
    IsOrder base (rand_id (codes "order-") 8 bytes_b) (new_order bytes_b ts (codes "helm"))
run-IsOrder_example = run-IsOrder base session (rand_id (codes "order-") 8 bytes_b) session_order

authed-run_example :
    authed (codes "Bearer t") (run base session with_token)
    ≡ (issued base (codes "Bearer t") session || authed (codes "Bearer t") with_token)
authed-run_example = authed-run base session (codes "Bearer t") with_token

not_that_id : rand_id (codes "order-") 8 bytes_b ≢ codes "order-1"
unfolding rand_id mock_lab.Common.Hex.hex mock_lab.Common.Hex.hex_digit codes
not_that_id e = cc e

-- A token, an order that uses it, and the list of projects.
abbrev requests : List (Draw × Route)
requests =
    (record { http_get = up; random = bytes_a; ts = ts }, post_token)
    ∷ (
      record { http_get = up; random = bytes_b; ts = ts },
      post_order (record ask { authorization = codes "Bearer " ++ rand_id [] 32 bytes_a }),
    )
    ∷ (record { http_get = up; random = bytes_b; ts = ts }, get_projects (codes "/api/projects"))
    ∷ []

answers_same_example :
    (answers (Refactor.serve base) requests initial ≡ answers (Routes.serve base) requests initial)
    × (tracked (Refactor.serve base) requests initial ≡ [])
answers_same_example = answers_same base requests
