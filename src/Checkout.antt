-- ===== src/Checkout.antt =====
-- labs/prometheus/internal/checkout/checkout.go and metrics.go: the quote API that Prometheus
-- observes, with its histograms; and labs/prometheus/cmd/pricing/main.go, its pricing fixture.
-- A histogram is the list of what it has observed; times and durations are counts of nanoseconds.
-- The format of a SKU and the bounds of a quantity are those of the quote API of labs/loki.
pub mod Recording
pub mod Handler
pub mod Fixture
mod Tests
use mock_lab.Common.{
  ℕ, ◌-◌, ◌⊎◌, inl, inr, Bool, true, false, not, ◌||◌, List, [], ◌∷◌, ◌++◌, Option, none, some,
  ◌==◌, if◌then◌else◌,
}
use mock_lab.Common.Text.{Bytes, codes, text_eq, is_empty}
use mock_lab.Common.Dict.{Dict, lookup}
use mock_lab.Common.Decimal.{decimal}
use mock_lab.Common.Int.{ℤ, pos}
use mock_lab.Common.Integer.{parse_int, mul_int64}
use mock_lab.Quote.{
  QuoteResponse, Reply, quoted, refused, is_sku, in_range, not_positive, sku_error, quantity_error,
}

pub record PriceResponse : Type 0 where
  pub sku : Bytes
  pub unit_price_cents : ℤ
  pub currency : Bytes

-- The hooks of the client trace, with the time of each.
pub data ConnEvent : Type 0 where
  get_conn : ℕ → ConnEvent
  got_conn : ℕ → ConnEvent

-- What a call of the pricing service brings back: the request is not built, the call fails, or a
-- response arrives, with the error of its decoding or the price (fields that are not in the struct are
-- an error). Before that the hooks of the trace have run.
pub data Call : Type 0 where
  not_built : Bytes → Call
  not_called : List ConnEvent → Bytes → Call
  priced : List ConnEvent → ℕ → Bytes ⊎ PriceResponse → Call

-- The waits that the hooks observe, by the time of the last `GetConn`, if there was one.
pub conn_waits : Option ℕ → List ConnEvent → List ℕ
conn_waits start [] = []
conn_waits start (get_conn t ∷ es) = conn_waits (some t) es
conn_waits none (got_conn t ∷ es) = conn_waits none es
conn_waits (some began) (got_conn t ∷ es) = (t - began) ∷ conn_waits (some began) es

-- The checks of `fetchPrice` on a decoded price.
pub check_price : Bytes → PriceResponse → Bytes ⊎ PriceResponse
check_price sku price =
    if not (text_eq price.sku sku)
    then inl (codes "pricing responded for a different sku")
    else if not_positive price.unit_price_cents || is_empty price.currency
    then inl (codes "pricing response is incomplete")
    else inr price

-- `fetchPrice`: the text of the error, or the price; and the waits that it observes.
pub fetch_price : Bytes → Call → (Bytes ⊎ PriceResponse) × List ℕ
unfolding check_price conn_waits
fetch_price sku (not_built err) = (inl (codes "build pricing request: " ++ err), [])
fetch_price sku (not_called events err) =
    (inl (codes "call pricing: " ++ err), conn_waits none events)
fetch_price sku (priced events status decoded) = (
  if not (status == 200)
      then inl (codes "pricing returned status " ++ decimal status)
      else elim decoded [
        | inl err ↦ inl (codes "decode pricing response: " ++ err)
        | inr price ↦ check_price sku price
      ],
  conn_waits none events,
)

-- `Handler`, by the query values `sku` and `qty` and the call that it may make: the reply, and the
-- waits that are observed.
pub handler : Call → Bytes → Bytes → Reply × List ℕ
unfolding fetch_price
handler call sku qty =
    let (fetched, waits) = fetch_price sku call in
    if not (is_sku sku) then (refused sku_error 400, []) else elim (parse_int qty) [
      | none ↦ (refused quantity_error 400, [])
      | some quantity ↦ if not (in_range quantity) then (refused quantity_error 400, []) else (
        elim fetched [
          | inl err ↦ refused err 502
          | inr price ↦ quoted (record {
            sku = price.sku;
            quantity = quantity;
            unit_price_cents = price.unit_price_cents;
            total_cents = mul_int64 price.unit_price_cents quantity;
            currency = price.currency;
          })
        ],
        waits,
      )
    ]

-- What a handler does to the ResponseWriter: a status, or a part of the body.
pub data Write : Type 0 where
  header : ℕ → Write
  body : Write

-- `http.Error` writes the status first; an encoder writes the body alone.
pub writes_of : Reply → List Write
writes_of (quoted q) = body ∷ []
writes_of (refused text status) = header status ∷ body ∷ []

pub record StatusRecorder : Type 0 where
  pub code : ℕ
  pub wrote_header : Bool

-- `statusRecorder.WriteHeader`; `Write` is that of the ResponseWriter behind it.
pub recorded : StatusRecorder → List Write → StatusRecorder
recorded r [] = r
recorded r (header code ∷ ws) =
    recorded (record { code = if not r.wrote_header then code else r.code; wrote_header = true }) ws
recorded r (body ∷ ws) = recorded r ws

-- An observation of the request-duration histogram.
pub record Sample : Type 0 where
  pub route : Bytes
  pub method : Bytes
  pub code : Bytes
  pub took : ℕ

pub record Metrics : Type 0 where
  pub request_duration : List Sample
  pub conn_wait : List ℕ

-- `ObserveConnWait`, for each wait in turn.
pub observe_conn_wait : List ℕ → Metrics → Metrics
observe_conn_wait waits m = record m { conn_wait = m.conn_wait ++ waits }

-- `InstrumentRoute`, behind the handler: what it wrote, and the times at which it started and ended.
pub instrument_route : Bytes → Bytes → ℕ → ℕ → List Write → Metrics → Metrics
unfolding recorded
instrument_route route method started ended writes m =
    let recorder = recorded (record { code = 200; wrote_header = false }) writes in
    let sample : Sample = record {
      route = route;
      method = method;
      code = decimal recorder.code;
      took = ended - started;
    } in
    record m { request_duration = m.request_duration ++ sample ∷ [] }

-- A request of the quote route, with what the environment gives it.
pub record QuoteRequest : Type 0 where
  pub method : Bytes
  pub sku : Bytes
  pub qty : Bytes
  pub call : Call
  pub started : ℕ
  pub ended : ℕ

abbrev pub quote_route : Bytes
quote_route = codes "/api/quote"

-- The instrumented handler on a request.
pub serve : QuoteRequest → Metrics → Metrics × Reply
unfolding handler observe_conn_wait instrument_route writes_of
serve r m =
    let (reply, waits) = handler r.call r.sku r.qty in
    (
      instrument_route quote_route r.method r.started r.ended (writes_of reply)
          (observe_conn_wait waits m),
      reply,
    )

-- `catalog` of the pricing fixture.
pub catalog : Dict ℕ
catalog =
    (codes "SSC-4110", 1899)
    ∷ (codes "SSC-4111", 2499)
    ∷ (codes "SSC-5200", 649)
    ∷ (codes "SSC-5201", 4250)
    ∷ (codes "SSC-7300", 12999)
    ∷ []

-- `GET /v1/price/{sku}` of the fixture, over a connection with these events: the price, or 404 with a
-- text that is no price.
pub price_handler : List ConnEvent → Bytes → Call
unfolding catalog
price_handler events sku = elim (lookup sku catalog) [
  | none ↦ priced events 404 (inl (codes "unknown sku"))
  | some cents ↦
      priced events 200
        (inr (record { sku = sku; unit_price_cents = pos cents; currency = codes "USD" }))
]
