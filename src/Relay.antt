-- ===== src/Relay.antt =====
-- shared/dashboard/main.go: the relay behind the dashboard page, which sends the page's calls on to
-- the app or to the recording proxy.
-- The handler gives back the calls that it makes with its result; the request is taken as it is
-- decoded, and what the client brings back is a function of the call.
pub mod Rules
pub mod Forward
mod Tests
use mock_lab.Common.{
  ℕ, ◌^◌, Bool, true, false, not, ◌&&◌, ◌||◌, List, [], ◌∷◌, ◌++◌, Option, none, some, ◌==◌, ltb,
  leb, length, take, all, if◌then◌else◌,
}
use mock_lab.Common.Text.{Bytes, codes, text_eq, is_empty, cut_prefix}
use mock_lab.Common.Int.{ℤ, pos, is_nat, decimal_int}
use mock_lab.Common.Url.{is_alnum}

pub record RelayRequest : Type 0 where
  pub port : ℤ
  pub method : Bytes
  pub path : Bytes
  pub body : Bytes
  pub token : Bytes

pub record RelayResult : Type 0 where
  pub port : ℤ
  pub method : Bytes
  pub path : Bytes
  pub status : ℕ
  pub elapsed_ms : ℕ
  pub body : Bytes
  pub error : Bytes
  pub detail : Bytes

-- A call of the client; "" stands for a header that is not set.
pub record Outgoing : Type 0 where
  pub method : Bytes
  pub url : Bytes
  pub body : Option Bytes
  pub content_type : Bytes
  pub authorization : Bytes
  pub user_agent : Bytes

-- What `client.Do` brings back: an error, which is a timeout or not, or a response, whose body is
-- the bytes that arrive and whether it breaks off after them.
pub data Sent : Type 0 where
  do_error : Bool → Sent
  responded : ℕ → Bytes → Bool → Sent

abbrev pub method_get : Bytes
method_get = codes "GET"

abbrev pub method_post : Bytes
method_post = codes "POST"

abbrev pub is_slug_byte : ℕ → Bool
is_slug_byte c = is_alnum c || c == b'-' || c == b'_'

pub slug : Bytes → Bool
slug s = if is_empty s || ltb 80 (length s) then false else all is_slug_byte s

abbrev pub is_token_byte : ℕ → Bool
is_token_byte c =
    is_alnum c || c == b'.' || c == b'_' || c == b'~' || c == b'+' || c == b'/' || c == b'-'

pub token_ok : Bytes → Bool
token_ok s = if ltb 256 (length s) then false else all is_token_byte s

abbrev pub is_fixed : Bytes → Bool
is_fixed path =
    text_eq path (codes "/")
    || text_eq path (codes "/api/projects")
    || text_eq path (codes "/api/categories")
    || text_eq path (codes "/api/stats")

-- The cases of the switch behind a prefix: the rest is tested as a slug.
abbrev pub behind : Bytes → Bytes → Bool → Bool
behind prefix path otherwise = elim (cut_prefix prefix path) [
  | none ↦ otherwise
  | some rest ↦ slug rest
]

pub allowed : Bytes → Bytes → Bool
unfolding slug
allowed method path =
    let posts = text_eq path (codes "/oauth/token") || text_eq path (codes "/api/orders") in
    let gets =
      is_fixed path
      || behind (codes "/api/projects/") path (behind (codes "/api/orders/") path false) in
    if text_eq method method_get then gets else text_eq method method_post && posts

-- `validate`: the message of the error, if there is one.
pub validate : RelayRequest → Option Bytes
unfolding allowed token_ok
validate req =
    if not (is_nat 8080 req.port) && not (is_nat 4143 req.port)
    then some (codes "Choose port 8080 or 4143.")
    else if not (text_eq req.method method_get) && not (text_eq req.method method_post)
    then some (codes "Only GET and POST are used.")
    else if not (allowed req.method req.path)
    then some (codes "That path is not one of the demo calls.")
    else if ltb (2 ^ 16) (length req.body)
    then some (codes "Body is too large.")
    else if not (is_empty req.token) && not (token_ok req.token)
    then some (codes "Token has unexpected characters.")
    else none

pub target_base : Bytes → ℤ → Bytes
target_base upstream_base port =
    if not (is_empty upstream_base)
    then upstream_base
    else codes "http://localhost:" ++ decimal_int port

-- The request that `forward` builds.
pub outgoing : Bytes → RelayRequest → Outgoing
unfolding target_base
outgoing upstream_base req =
    let is_post = text_eq req.method method_post in
    record {
      method = req.method;
      url = target_base upstream_base req.port ++ req.path;
      body = if is_post then some req.body else none;
      content_type = if is_post && not (is_empty req.body) then codes "application/json" else [];
      authorization = if is_empty req.token then [] else codes "Bearer " ++ req.token;
      user_agent = codes "mock-lab-dashboard";
    }

abbrev pub blank : RelayRequest → RelayResult
blank req = record {
  port = req.port;
  method = req.method;
  path = req.path;
  status = 0;
  elapsed_ms = 0;
  body = [];
  error = [];
  detail = [];
}

-- `forward`: the calls made, and the result. `builds` is whether `http.NewRequest` takes a method
-- and a URL. At most 1<<20 bytes are read, and nothing behind them is looked at.
pub forward :
    (Bytes → Bytes → Bool)
    → (Outgoing → Sent × ℕ)
    → Bytes
    → RelayRequest
    → List Outgoing × RelayResult
unfolding outgoing
forward builds client upstream_base req =
    let o = outgoing upstream_base req in
    let out = blank req in
    if not (builds o.method o.url)
    then (
      [],
      record out { error = codes "request_failed"; detail = codes "Could not build the request." },
    )
    else (let timed = record out { elapsed_ms = (client o).1 } in
        (
          o ∷ [],
          elim (client o).0 [
            | do_error true ↦ record timed { error = codes "timeout" }
            | do_error false ↦ record timed { error = codes "unreachable" }
            | responded status bytes breaks ↦
                if breaks && ltb (length bytes) (2 ^ 20)
                then record timed {
                  error = codes "request_failed";
                  detail = codes "The response stopped before it finished.";
                }
                else record timed { status = status; body = take (2 ^ 20) bytes }
          ],
        ))

abbrev pub bad_request : Bytes → RelayResult
bad_request detail = record {
  port = pos 0;
  method = [];
  path = [];
  status = 0;
  elapsed_ms = 0;
  body = [];
  error = codes "bad_request";
  detail = detail;
}

-- `relayHandler`: the calls made, the status, and the result that is written.
pub relay_handler :
    (Bytes → Bytes → Bool)
    → (Outgoing → Sent × ℕ)
    → Bytes
    → Option RelayRequest
    → List Outgoing × ℕ × RelayResult
unfolding validate forward
relay_handler builds client upstream_base none =
    ([], 400, bad_request (codes "The request was not valid JSON."))
relay_handler builds client upstream_base (some req) = elim (validate req) [
  | some err ↦ ([], 400, bad_request err)
  | none ↦ let (calls, out) = forward builds client upstream_base req in (calls, 200, out)
]
