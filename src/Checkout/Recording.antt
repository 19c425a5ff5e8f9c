-- ===== src/Checkout/Recording.antt =====
-- The histograms of labs/prometheus over a run of requests.
use mock_lab.Common.{
  ℕ, ◌-◌, ◌≡◌, refl, sym, ap, ◌∙◌, false, List, [], ◌∷◌, ◌++◌, map, append_assoc, append-nil,
}
use mock_lab.Common.Decimal.{decimal}
use mock_lab.Quote.{Reply, quoted, refused}
use mock_lab.Checkout.{
  handler, writes_of, recorded, Sample, Metrics, observe_conn_wait, instrument_route, QuoteRequest,
  quote_route, serve,
}

-- The status that a reply is sent with.
abbrev pub status_of : Reply → ℕ
status_of (quoted q) = 200
status_of (refused text status) = status

-- What the handler makes of a request, whatever was observed before.
abbrev pub reply_of : QuoteRequest → Reply
reply_of r = (handler r.call r.sku r.qty).0

abbrev pub waits_of : QuoteRequest → List ℕ
waits_of r = (handler r.call r.sku r.qty).1

abbrev pub sample_of : QuoteRequest → Sample
sample_of r = record {
  route = quote_route;
  method = r.method;
  code = decimal (status_of (reply_of r));
  took = r.ended - r.started;
}

abbrev pub all_waits : List QuoteRequest → List ℕ
all_waits [] = []
all_waits (r ∷ rs) = waits_of r ++ all_waits rs

-- A run of requests, with the replies.
pub run : List QuoteRequest → Metrics → Metrics × List Reply
run [] m = (m, [])
run (r ∷ rs) m =
    let (m1, reply) = serve r m in let (m2, replies) = run rs m1 in (m2, reply ∷ replies)

recorded-writes_of :
    (reply : Reply)
    → (recorded (record { code = 200; wrote_header = false }) (writes_of reply)).code
      ≡ status_of reply
unfolding recorded writes_of
recorded-writes_of (quoted q) = refl
recorded-writes_of (refused text status) = refl

serve_lem :
    (r : QuoteRequest) (m : Metrics)
    → serve r m ≡ (
      record {
        request_duration = m.request_duration ++ sample_of r ∷ [];
        conn_wait = m.conn_wait ++ waits_of r;
      },
      reply_of r,
    )
unfolding serve instrument_route observe_conn_wait
serve_lem r m =
    ap
      (λ c. (
        record {
          request_duration =
              m.request_duration
              ++ (record {
                route = quote_route;
                method = r.method;
                code = decimal c;
                took = r.ended - r.started;
              })
                ∷ [];
          conn_wait = m.conn_wait ++ waits_of r;
        },
        reply_of r,
      ))
      (recorded-writes_of (reply_of r))

-- Over a run of requests to the quote route the duration histogram gains one observation for each
-- request, in their order, with the route, the method, the status of the reply and the time that it
-- took; the histogram of the connection waits gains what the calls have waited; and the replies are
-- those of the handler, whatever was observed before.
pub run_lem :
    (rs : List QuoteRequest) (m : Metrics)
    → let (m', replies) = run rs m in
      (m'.request_duration ≡ m.request_duration ++ map sample_of rs)
      × (m'.conn_wait ≡ m.conn_wait ++ all_waits rs)
      × (replies ≡ map reply_of rs)
unfolding run
run_lem [] m = (sym (append-nil m.request_duration), sym (append-nil m.conn_wait), refl)
run_lem (r ∷ rs) m =
    let m1 : Metrics = record {
      request_duration = m.request_duration ++ sample_of r ∷ [];
      conn_wait = m.conn_wait ++ waits_of r;
    } in
    let step = serve_lem r m in
    let (durations, waits, replies) = run_lem rs m1 in
    (
      ap (λ p. (run rs p.0).0.request_duration) step
          ∙ durations
          ∙ append_assoc m.request_duration (sample_of r ∷ []) (map sample_of rs),
      ap (λ p. (run rs p.0).0.conn_wait) step
          ∙ waits
          ∙ append_assoc m.conn_wait (waits_of r) (all_waits rs),
      ap (λ p. p.1 ∷ (run rs p.0).1) step ∙ ap (λ l. reply_of r ∷ l) replies,
    )
