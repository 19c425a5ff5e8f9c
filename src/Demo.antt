-- ===== src/Demo.antt =====
-- languages/go/main.go: the handlers of the demo app, its tokens and its orders.
-- A handler is a function of the request and of what the downstream answers; the two that write
-- shared state take the state and give it back. Each holds the mutex for its one access, so that
-- requests act on the state one after the other.
pub mod Auth
pub mod Orders
pub mod History
pub mod Stats
pub mod Refactor
pub mod Routes
mod Tests
use mock_lab.Common.{
  ℕ, ◌+◌, Bool, true, false, not, ◌||◌, List, [], ◌∷◌, ◌++◌, Option, none, some, ◌==◌, length,
  if◌then◌else◌,
}
use mock_lab.Common.Text.{Bytes, codes, text_eq, is_empty, cut_prefix, quote}
use mock_lab.Common.Dict.{Dict, lookup, insert}
use mock_lab.Common.Counter.{increment}
use mock_lab.Common.Json.{
  Json, null, str, int, arr, obj, end, member, elems, Members, get, as_string, decode_string,
}
use mock_lab.Common.Http.{
  Fetched, failed, answered, Response, json, text, http_error, application_json,
}
use mock_lab.Ids.{rand_id}

pub record Order : Type 0 where
  pub order_id : Bytes
  pub project : Bytes
  pub status : Bytes
  pub created : Bytes

pub record State : Type 0 where
  pub valid_tokens : Dict Bool
  pub orders : Dict Order

-- What the handlers read of a request: the Authorization header ("" if there is none), the
-- document of the body, and the path value `id`.
pub record Request : Type 0 where
  pub authorization : Bytes
  pub body : Option Json
  pub id : Bytes

abbrev pub write_json : ℕ → Json → Response
write_json status v = record { status = status; content_type = application_json; body = json v }

abbrev pub error_json : Bytes → Members → Json
error_json msg more = obj (member (codes "error") (str msg) more)

pub order_json : Order → Json
order_json o = obj (
    member (codes "order_id") (str o.order_id) (
      member (codes "project") (str o.project)
        (member (codes "status") (str o.status) (member (codes "created") (str o.created) end))))

pub root_handler : Bytes → Bytes → Response
root_handler downstream ts = write_json 200 (
    obj (
      member (codes "downstream") (str downstream) (
        member (codes "service") (str (codes "proxymock-cncf-demo"))
          (member (codes "ts") (str ts) end))))

-- `fetch`: the downstream's status and body are passed on.
pub fetch : (Bytes → Fetched) → Bytes → Bytes → Response
fetch http_get downstream path = elim (http_get (downstream ++ path)) [
  | failed err ↦
      http_error
        (codes "{\"error\":"
          ++ quote err
          ++ codes ",\"hint\":\"downstream unreachable - try 'proxymock mock'\"}")
        502
  | answered status body document ↦ record {
    status = status;
    content_type = application_json;
    body = text body;
  }
]

-- A document decoded into `[]map[string]any`: null is the nil slice, a null element the nil map.
decode_maps : List Json → Option (List Members)
decode_maps [] = some []
decode_maps (obj ms ∷ vs) = elim (decode_maps vs) [ none ↦ none | some rest ↦ some (ms ∷ rest) ]
decode_maps (null ∷ vs) = elim (decode_maps vs) [ none ↦ none | some rest ↦ some (end ∷ rest) ]
decode_maps (_ ∷ vs) = none

pub decode_projects : Option Json → Option (List Members)
unfolding decode_maps
decode_projects (some (arr vs)) = decode_maps (elems vs)
decode_projects (some null) = some []
decode_projects _ = none

-- The loop of `statsHandler` over the projects.
pub by_maturity : Dict ℕ → List Members → Dict ℕ
by_maturity m [] = m
by_maturity m (p ∷ ps) =
    by_maturity
      (elim (as_string (get (codes "maturity") p)) [ none ↦ m | some level ↦ increment level m ]) ps

-- The entries of a map; the encoder would write them sorted by name.
pub counts_json : Dict ℕ → Members
counts_json [] = end
counts_json ((k, n) ∷ m) = member k (int n) (counts_json m)

pub stats_handler : (Bytes → Fetched) → Bytes → Response
unfolding by_maturity counts_json
stats_handler http_get downstream = elim (http_get (downstream ++ codes "/v1/projects")) [
  | failed err ↦ http_error (codes "{\"error\":" ++ quote err ++ codes "}") 502
  | answered status body document ↦ elim (decode_projects document) [
    | none ↦ http_error (codes "{\"error\":\"bad downstream response\"}") 502
    | some projects ↦ write_json 200 (
        obj (
          member (codes "by_maturity") (obj (counts_json (by_maturity [] projects)))
            (member (codes "total") (int (length projects)) end)))
  ]
]

pub token_handler : (ℕ → ℕ) → State → State × Response
token_handler random s =
    let token = rand_id [] 32 random in
    (
      record s { valid_tokens = insert token true s.valid_tokens },
      write_json 200 (
          obj (
            member (codes "access_token") (str token) (
              member (codes "expires_in") (int 3600)
                (member (codes "token_type") (str (codes "Bearer")) end)))),
    )

-- `validTokens[t]`: a missing key reads as false.
pub authed : Bytes → State → Bool
authed authorization s = elim (cut_prefix (codes "Bearer ") authorization) [
  | none ↦ false
  | some token ↦ elim (lookup token s.valid_tokens) [ none ↦ false | some ok ↦ ok ]
]

pub unauthorized : Response
unauthorized = write_json 401 (error_json (codes "missing or invalid bearer token") end)

-- The order that `createOrderHandler` makes; `ts` is the formatted time.
pub new_order : (ℕ → ℕ) → Bytes → Bytes → Order
new_order random ts project = record {
  order_id = rand_id (codes "order-") 8 random;
  project = project;
  status = codes "created";
  created = ts;
}

-- The part of `createOrderHandler` behind the request's checks.
pub place_order : (Bytes → Fetched) → Bytes → (ℕ → ℕ) → Bytes → Bytes → State → State × Response
place_order http_get downstream random ts project s =
    elim (http_get (downstream ++ codes "/v1/project/" ++ project)) [
      | failed err ↦ (s, write_json 502 (error_json err end))
      | answered status body document ↦
          if not (status == 200)
          then (
            s,
            write_json 404
                (error_json (codes "unknown project") (member (codes "project") (str project) end)),
          )
          else (let o = new_order random ts project in
              (record s { orders = insert o.order_id o s.orders }, write_json 201 (order_json o)))
    ]

pub create_order_handler :
    (Bytes → Fetched) → Bytes → (ℕ → ℕ) → Bytes → Request → State → State × Response
create_order_handler http_get downstream random ts r s =
    if not (authed r.authorization s)
    then (s, unauthorized)
    else elim (decode_string (codes "project") r.body) [
      | none ↦ (s, write_json 400 (error_json (codes "project is required") end))
      | some project ↦
          if is_empty project
          then (s, write_json 400 (error_json (codes "project is required") end))
          else place_order http_get downstream random ts project s
    ]

pub get_order_handler : Request → State → Response
get_order_handler r s =
    if not (authed r.authorization s) then unauthorized else elim (lookup r.id s.orders) [
      | none ↦
          write_json 404
            (error_json (codes "order not found") (member (codes "order_id") (str r.id) end))
      | some o ↦ write_json 200 (order_json o)
    ]
