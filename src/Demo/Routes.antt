-- ===== src/Demo/Routes.antt =====
-- languages/go/main.go: the routes of the demo app, with the beacon in front of four of them.
use mock_lab.Common.{ℕ, List, [], ◌∷◌, ◌++◌}
use mock_lab.Common.Text.{Bytes, codes}
use mock_lab.Common.Http.{Fetched, Response}
use mock_lab.Demo.{
  State, Request, root_handler, fetch, stats_handler, token_handler, create_order_handler,
  get_order_handler,
}

-- A request by the route that it takes, with its path where the beacon reports it.
pub data Route : Type 0 where
  get_root : Route
  get_projects : Bytes → Route
  get_project : Bytes → Bytes → Route
  get_categories : Bytes → Route
  get_stats : Bytes → Route
  post_token : Route
  post_order : Request → Route
  get_order : Request → Route

-- What the environment gives a request: what the downstream answers to a GET, the random bytes, and
-- the formatted time.
pub record Draw : Type 0 where
  pub http_get : Bytes → Fetched
  pub random : ℕ → ℕ
  pub ts : Bytes

-- The state and the response behind a request, and the paths that `trackEvent` is called with.
pub record Handled : Type 0 where
  pub state : State
  pub response : Response
  pub tracked : List Bytes

abbrev pub reads : State → List Bytes → Response → Handled
reads s tracked response = record { state = s; response = response; tracked = tracked }

abbrev pub writes : State × Response → Handled
writes (s, response) = record { state = s; response = response; tracked = [] }

-- The mux of `main`.
unfoldable pub serve : Bytes → Draw → Route → State → Handled
serve downstream d get_root s = reads s [] (root_handler downstream d.ts)
serve downstream d (get_projects path) s =
    reads s (path ∷ []) (fetch d.http_get downstream (codes "/v1/projects"))
serve downstream d (get_project path id) s =
    reads s (path ∷ []) (fetch d.http_get downstream (codes "/v1/project/" ++ id))
serve downstream d (get_categories path) s =
    reads s (path ∷ []) (fetch d.http_get downstream (codes "/v1/categories"))
serve downstream d (get_stats path) s = reads s (path ∷ []) (stats_handler d.http_get downstream)
serve downstream d post_token s = writes (token_handler d.random s)
serve downstream d (post_order r) s =
    writes (create_order_handler d.http_get downstream d.random d.ts r s)
serve downstream d (get_order r) s = reads s [] (get_order_handler r s)
