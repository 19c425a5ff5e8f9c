-- ===== src/Demo/Refactor.antt =====
-- labs/ai-refactor/main.go: the demo app as the refactoring lab has it, without the beacon.
-- Its struct `order` and its maps are those of languages/go/main.go, whose types it shares here.
pub mod Same
use mock_lab.Common.{
  ℕ, ◌+◌, Bool, true, false, not, ◌||◌, List, [], ◌∷◌, ◌++◌, Option, none, some, ◌==◌, length,
  if◌then◌else◌,
}
use mock_lab.Common.Text.{Bytes, codes, text_eq, is_empty, cut_prefix, quote}
use mock_lab.Common.Dict.{Dict, lookup, insert}
use mock_lab.Common.Counter.{increment}
use mock_lab.Common.Hex.{hex}
use mock_lab.Common.Json.{
  Json, null, str, int, arr, obj, end, member, elems, Members, get, as_string, decode_string,
}
use mock_lab.Common.Http.{
  Fetched, failed, answered, Response, json, text, http_error, application_json,
}
use mock_lab.Ids.{rand_id, slice}
use mock_lab.Demo.{Order, State, Request, decode_projects, counts_json}
use mock_lab.Demo.Routes.{
  Route, get_root, get_projects, get_project, get_categories, get_stats, post_token, post_order,
  get_order, Draw, Handled, reads, writes,
}

abbrev pub write_json : ℕ → Json → Response
write_json status v = record { status = status; content_type = application_json; body = json v }

abbrev pub error_json : Bytes → Members → Json
error_json msg more = obj (member (codes "error") (str msg) more)

pub order_json : Order → Json
order_json o = obj (
    member (codes "order_id") (str o.order_id) (
      member (codes "project") (str o.project)
        (member (codes "status") (str o.status) (member (codes "created") (str o.created) end))))

pub root_handler : Bytes → Bytes → Response
root_handler downstream ts = write_json 200 (
    obj (
      member (codes "downstream") (str downstream) (
        member (codes "service") (str (codes "proxymock-cncf-demo"))
          (member (codes "ts") (str ts) end))))

-- `fetch`: the downstream's status and body are passed on.
pub fetch : (Bytes → Fetched) → Bytes → Bytes → Response
fetch http_get downstream path = elim (http_get (downstream ++ path)) [
  | failed err ↦
      http_error
        (codes "{\"error\":"
          ++ quote err
          ++ codes ",\"hint\":\"downstream unreachable - try 'proxymock mock'\"}")
        502
  | answered status body document ↦ record {
    status = status;
    content_type = application_json;
    body = text body;
  }
]

-- The loop of `statsHandler` over the projects.
pub by_maturity : Dict ℕ → List Members → Dict ℕ
by_maturity m [] = m
by_maturity m (p ∷ ps) =
    by_maturity
      (elim (as_string (get (codes "maturity") p)) [ none ↦ m | some level ↦ increment level m ]) ps

pub stats_handler : (Bytes → Fetched) → Bytes → Response
unfolding by_maturity
stats_handler http_get downstream = elim (http_get (downstream ++ codes "/v1/projects")) [
  | failed err ↦ http_error (codes "{\"error\":" ++ quote err ++ codes "}") 502
  | answered status body document ↦ elim (decode_projects document) [
    | none ↦ http_error (codes "{\"error\":\"bad downstream response\"}") 502
    | some projects ↦ write_json 200 (
        obj (
          member (codes "by_maturity") (obj (counts_json (by_maturity [] projects)))
            (member (codes "total") (int (length projects)) end)))
  ]
]

pub token_handler : (ℕ → ℕ) → State → State × Response
token_handler random s =
    let token = rand_id [] 32 random in
    (
      record s { valid_tokens = insert token true s.valid_tokens },
      write_json 200 (
          obj (
            member (codes "access_token") (str token) (
              member (codes "expires_in") (int 3600)
                (member (codes "token_type") (str (codes "Bearer")) end)))),
    )

-- `validTokens[t]`: a missing key reads as false.
pub authed : Bytes → State → Bool
authed authorization s = elim (cut_prefix (codes "Bearer ") authorization) [
  | none ↦ false
  | some token ↦ elim (lookup token s.valid_tokens) [ none ↦ false | some ok ↦ ok ]
]

pub unauthorized : Response
unauthorized = write_json 401 (error_json (codes "missing or invalid bearer token") end)

-- The order that `createOrderHandler` makes; `ts` is the formatted time.
pub new_order : (ℕ → ℕ) → Bytes → Bytes → Order
new_order random ts project = record {
  order_id = rand_id (codes "order-") 8 random;
  project = project;
  status = codes "created";
  created = ts;
}

-- The part of `createOrderHandler` behind the request's checks.
pub place_order : (Bytes → Fetched) → Bytes → (ℕ → ℕ) → Bytes → Bytes → State → State × Response
place_order http_get downstream random ts project s =
    elim (http_get (downstream ++ codes "/v1/project/" ++ project)) [
      | failed err ↦ (s, write_json 502 (error_json err end))
      | answered status body document ↦
          if not (status == 200)
          then (
            s,
            write_json 404
                (error_json (codes "unknown project") (member (codes "project") (str project) end)),
          )
          else (let o = new_order random ts project in
              (record s { orders = insert o.order_id o s.orders }, write_json 201 (order_json o)))
    ]

pub create_order_handler :
    (Bytes → Fetched) → Bytes → (ℕ → ℕ) → Bytes → Request → State → State × Response
create_order_handler http_get downstream random ts r s =
    if not (authed r.authorization s)
    then (s, unauthorized)
    else elim (decode_string (codes "project") r.body) [
      | none ↦ (s, write_json 400 (error_json (codes "project is required") end))
      | some project ↦
          if is_empty project
          then (s, write_json 400 (error_json (codes "project is required") end))
          else place_order http_get downstream random ts project s
    ]

pub get_order_handler : Request → State → Response
get_order_handler r s =
    if not (authed r.authorization s) then unauthorized else elim (lookup r.id s.orders) [
      | none ↦
          write_json 404
            (error_json (codes "order not found") (member (codes "order_id") (str r.id) end))
      | some o ↦ write_json 200 (order_json o)
    ]

-- The mux of `main`: no route reports to a beacon.
pub serve : Bytes → Draw → Route → State → Handled
serve downstream d get_root s = reads s [] (root_handler downstream d.ts)
serve downstream d (get_projects path) s =
    reads s [] (fetch d.http_get downstream (codes "/v1/projects"))
serve downstream d (get_project path id) s =
    reads s [] (fetch d.http_get downstream (codes "/v1/project/" ++ id))
serve downstream d (get_categories path) s =
    reads s [] (fetch d.http_get downstream (codes "/v1/categories"))
serve downstream d (get_stats path) s = reads s [] (stats_handler d.http_get downstream)
serve downstream d post_token s = writes (token_handler d.random s)
serve downstream d (post_order r) s =
    writes (create_order_handler d.http_get downstream d.random d.ts r s)
serve downstream d (get_order r) s = reads s [] (get_order_handler r s)
