-- ===== src/Reference/Routes.antt =====
-- shared/server/main.go: the routes of the reference API but for those of outerspace.go.
use mock_lab.Common.{ℕ, ◌+◌, true, List, [], ◌∷◌, ◌++◌, map}
use mock_lab.Common.Text.{Bytes, codes}
use mock_lab.Common.Hex.{hex}
use mock_lab.Common.Json.{Json, str, int, bool, arr, obj, end, member, elems_of}
use mock_lab.Common.Http.{Response}
use mock_lab.Ids.{slice, new_order_id}
use mock_lab.Reference.{
  Project, write_json, get_projects, get_project, get_maturity, get_categories, job_status,
  get_inventory, post_order,
}

pub data Route : Type 0 where
  get_healthz : Route
  all_projects : Route
  one_project : Bytes → Route
  at_level : Bytes → Route
  all_categories : Route
  post_track : Bytes → Route
  post_graphql : Route
  get_feed : Route
  one_inventory : Bytes → Route
  get_job : Route
  get_time : Route
  new_order : Route
  one_order : Bytes → Route
  post_token : Route
  get_me : Route

-- What the environment gives a request: the random bytes and the formatted time.
pub record Draw : Type 0 where
  pub random : ℕ → ℕ
  pub now : Bytes

-- A response with the headers Location and Set-Cookie, "" where there is none.
pub record Reply : Type 0 where
  pub response : Response
  pub location : Bytes
  pub cookie : Bytes

abbrev pub plain : Response → Reply
plain response = record { response = response; location = []; cookie = [] }

abbrev pub healthy : Json
healthy = obj (member (codes "status") (str (codes "ok")) end)

abbrev feed_items : Json
feed_items = arr (elems_of (map str (codes "cncf-1" ∷ codes "cncf-2" ∷ codes "cncf-3" ∷ [])))

pub feed : (ℕ → ℕ) → Response
feed random = write_json (
    obj (
      member (codes "items") feed_items
        (member (codes "nextCursor") (str (hex (slice 0 16 random))) end)))

pub time_now : Bytes → Response
time_now now =
    write_json
      (obj (member (codes "now") (str now) (member (codes "region") (str (codes "lab")) end)))

pub get_order : Bytes → Response
get_order id = write_json (
    obj (
      member (codes "id") (str id) (
        member (codes "items") (arr (elems_of (map str (codes "cncf-1" ∷ codes "cncf-2" ∷ []))))
          (member (codes "status") (str (codes "open")) end))))

-- `POST /v1/auth/token`: the session takes the first sixteen random bytes, the token the next.
pub auth_token : (ℕ → ℕ) → Reply
auth_token random = record {
  response = write_json (
      obj (
        member (codes "access_token") (str (new_order_id (λ i. random (16 + i)))) (
          member (codes "expires_in") (int 3600)
            (member (codes "token_type") (str (codes "Bearer")) end))));
  location = [];
  cookie = codes "SESSIONID=" ++ new_order_id random ++ codes "; Path=/; HttpOnly";
}

-- The mux of `main`, over the counter `jobN`.
unfoldable pub serve : List Project → Draw → Route → ℕ → ℕ × Reply
serve projects d get_healthz n = (n, plain (write_json healthy))
serve projects d all_projects n = (n, plain (get_projects projects))
serve projects d (one_project id) n = (n, plain (get_project projects id))
serve projects d (at_level level) n = (n, plain (get_maturity projects level))
serve projects d all_categories n = (n, plain (get_categories projects))
serve projects d (post_track id) n =
    (n, plain (write_json (obj (member (codes "tracked") (bool true) end))))
serve projects d post_graphql n =
    let event = obj (member (codes "event") (obj (member (codes "ok") (bool true) end)) end) in
    (n, plain (write_json (obj (member (codes "data") event end))))
serve projects d get_feed n = (n, plain (feed d.random))
serve projects d (one_inventory sku) n = (n, plain (get_inventory sku))
serve projects d get_job n = let (m, response) = job_status d.now n in (m, plain response)
serve projects d get_time n = (n, plain (time_now d.now))
serve projects d new_order n =
    let (location, response) = post_order d.random in
    (n, record { response = response; location = location; cookie = [] })
serve projects d (one_order id) n = (n, plain (get_order id))
serve projects d post_token n = (n, auth_token d.random)
serve projects d get_me n = (
  n,
  plain (
      write_json (
        obj (
          member (codes "plan") (str (codes "oss"))
            (member (codes "user") (str (codes "cncf-bot")) end)))),
)
