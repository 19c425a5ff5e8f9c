-- ===== src/Traffic.antt =====
-- tutorial/go/cmd/traffic/main.go: the driver that sends the traffic of the tutorial to a service and
-- checks its answers.
-- An answer is a function of the requests before it and of the request. `json.Compact` and the reading
-- of a body as a document are parameters.
pub mod Exit
mod Tests
use mock_lab.Common.{
  ℕ, zero, suc, ◌+◌, ◌%◌, ◌||◌, Bool, true, false, not, List, [], ◌∷◌, ◌++◌, Option, none, some,
  ◌==◌, ltb, length, get_or, if◌then◌else◌,
}
use mock_lab.Common.Text.{Bytes, codes, is_empty}
use mock_lab.Common.Json.{Json, decode_string}

pub record BadRequest : Type 0 where
  pub method : Bytes
  pub path : Bytes
  pub body : Bytes
  pub expect : ℕ

pub record TrafficFile : Type 0 where
  pub catalog_calls : ℕ
  pub order_rounds : ℕ
  pub list_calls : ℕ
  pub orders : List Bytes
  pub bad_requests : List BadRequest

-- The counts of the driver.
pub record Driver : Type 0 where
  pub sent : ℕ
  pub unexpected : ℕ
  pub failed : Bool

pub record Request : Type 0 where
  pub method : Bytes
  pub path : Bytes
  pub body : Bytes

-- What becomes of a request: it is not built, the client fails, or a status and a body arrive.
pub data Outcome : Type 0 where
  not_built : Outcome
  not_sent : Outcome
  answered : ℕ → Bytes → Outcome

-- The driver, and the requests that it has sent, with the statuses that it wants.
pub record Run : Type 0 where
  pub driver : Driver
  pub log : List (Request × ℕ)

abbrev pub fail : Run → Run
fail r = record r { driver = record r.driver { failed = true } }

abbrev pub requests : List (Request × ℕ) → List Request
requests [] = []
requests ((q, want) ∷ log) = q ∷ requests log

-- `do` behind `client.Do`, by the outcome of the request.
unfoldable pub receive : Outcome → Request → ℕ → Run → Option Bytes × Run
receive not_built q want r = (none, fail r)
receive not_sent q want r = (
  none,
  fail (record {
    driver = record r.driver { sent = r.driver.sent + 1 };
    log = r.log ++ (q, want) ∷ [];
  }),
)
receive (answered status page) q want r =
    let counted = record r.driver { sent = r.driver.sent + 1 } in
    (
      some page,
      record {
        driver =
            if not (status == want)
            then record counted { unexpected = counted.unexpected + 1 }
            else counted;
        log = r.log ++ (q, want) ∷ [];
      },
    )

-- `do` behind the body: the request is sent.
unfoldable pub send : (List Request → Request → Outcome) → Request → ℕ → Run → Option Bytes × Run
unfolding receive
send net q want r = receive (net (requests r.log) q) q want r

abbrev pub start : Run
start = record { driver = record { sent = 0; unexpected = 0; failed = false }; log = [] }

module _ (compact : Bytes → Option Bytes) (document : Bytes → Option Json)
    (net : List Request → Request → Outcome) where
  -- `do`: the body of the response, if there is one.
  pub do_request : Bytes → Bytes → Bytes → ℕ → Run → Option Bytes × Run
  unfolding send
  do_request method path [] want r =
      send net (record { method = method; path = path; body = [] }) want r
  do_request method path (c ∷ body) want r = elim (compact (c ∷ body)) [
    | none ↦ (none, fail r)
    | some small ↦ send net (record { method = method; path = path; body = small }) want r
  ]

  -- `n` requests that are the same.
  pub repeat : ℕ → Bytes → Bytes → ℕ → Run → Run
  unfolding do_request
  repeat zero method path want r = r
  repeat (suc n) method path want r = repeat n method path want (do_request method path [] want r).1

  -- The ID in the response to an order, or "" where there is none.
  pub created_id : Option Bytes → Bytes
  created_id none = []
  created_id (some page) = elim (decode_string (codes "id") (document page)) [
    | none ↦ []
    | some id ↦ id
  ]

  -- The two reads of an order.
  pub read_order : Bytes → Run → Run
  unfolding do_request
  read_order id r =
      let r1 = (do_request (codes "GET") (codes "/orders/" ++ id) [] 200 r).1 in
      (do_request (codes "GET") (codes "/orders/" ++ id ++ codes "/status") [] 200 r1).1

  -- The rounds from number `i` on, of which `n` are left.
  pub order_rounds : ℕ → ℕ → List Bytes → Run → Run
  unfolding do_request read_order created_id
  order_rounds zero i orders r = r
  order_rounds (suc n) i orders r =
      let order = get_or orders (i % length orders) [] in
      let (page, r1) = do_request (codes "POST") (codes "/orders") order 201 r in
      let id = created_id page in
      order_rounds n (suc i) orders (if is_empty id then fail r1 else read_order id r1)

  pub send_bad : List BadRequest → Run → Run
  unfolding do_request
  send_bad [] r = r
  send_bad (b ∷ bs) r = send_bad bs (do_request b.method b.path b.body b.expect r).1

  -- The sequence of `main`.
  pub drive : TrafficFile → Run
  unfolding do_request repeat order_rounds send_bad
  drive tf =
      let r1 = (do_request (codes "GET") (codes "/healthz") [] 200 start).1 in
      let r2 = repeat tf.catalog_calls (codes "GET") (codes "/catalog") 200 r1 in
      let r3 = order_rounds tf.order_rounds 0 tf.orders r2 in
      let r4 = repeat tf.list_calls (codes "GET") (codes "/orders") 200 r3 in
      send_bad tf.bad_requests r4

  -- The exit status of `main`, for a file that was read.
  pub exit_status : TrafficFile → ℕ
  unfolding drive
  exit_status tf =
      let d = (drive tf).driver in
      if length tf.orders == 0 || ltb 0 d.unexpected || d.failed then 1 else 0
