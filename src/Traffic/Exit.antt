-- ===== src/Traffic/Exit.antt =====
-- What the exit status of the traffic driver tells about the answers of the service.
use mock_lab.Common.{
  ℕ, zero, suc, ◌+◌, ◌*◌, ◌||◌, ◌≡◌, refl, sym, ap, ◌∙◌, ◌≢◌, false, inl, inr, List, [], ◌∷◌, ◌++◌,
  append_assoc, append-nil, Option, none, some, length, length-append, ltb, ◌==◌, Bool-cases, arith,
  get_or, if◌then◌else◌, ◌%◌,
}
use mock_lab.Common.Text.{Bytes, codes, is_empty}
use mock_lab.Common.Json.{Json}
use mock_lab.Traffic.{
  BadRequest, TrafficFile, Driver, Request, Outcome, not_built, not_sent, answered, Run, fail,
  requests, receive, send, do_request, repeat, created_id, read_order, order_rounds, send_bad,
  start, drive, exit_status,
}

requests-append :
    (log more : List (Request × ℕ)) → requests (log ++ more) ≡ requests log ++ requests more
requests-append [] more = refl
requests-append ((q, want) ∷ log) more = ap (λ l. q ∷ l) (requests-append log more)

module _ (net : List Request → Request → Outcome) where
  -- Each request of the log, sent behind those of `before`, was answered with the status wanted.
  pub AsWanted : List Request → List (Request × ℕ) → Type 0
  AsWanted before [] = Unit
  AsWanted before ((q, want) ∷ log) =
      ((page : Bytes) × (net before q ≡ answered want page)) × AsWanted (before ++ q ∷ []) log

  AsWanted-snoc :
      (before : List Request) (log : List (Request × ℕ)) (q : Request) (want : ℕ) (page : Bytes)
      → AsWanted before log
      → net (before ++ requests log) q ≡ answered want page
      → AsWanted before (log ++ (q, want) ∷ [])
  unfolding AsWanted
  AsWanted-snoc before [] q want page h e =
      ((page, ap (λ l. net l q) (sym (append-nil before)) ∙ e), tt)
  AsWanted-snoc before ((p, w) ∷ log) q want page h e = (
    h.0,
    AsWanted-snoc (before ++ p ∷ []) log q want page h.1
        (ap (λ l. net l q) (append_assoc before (p ∷ []) (requests log)) ∙ e),
  )

-- Nothing has failed so far.
Fine : Run → Type 0
Fine r = (r.driver.unexpected ≡ 0) × (r.driver.failed ≡ false)

module _ (compact : Bytes → Option Bytes) (document : Bytes → Option Json)
    (net : List Request → Request → Outcome) where
  -- Behind `r`, `n` requests lead to `s`, all answered as wanted, if nothing has failed in `s`.
  record Leads (n : ℕ) (r s : Run) : Type 0 where
    shows :
        Fine s
        → Fine r
          × (length s.log ≡ length r.log + n)
          × (AsWanted net [] r.log → AsWanted net [] s.log)

  Leads-trans : {k m n : ℕ} {r s t : Run} → Leads m r s → Leads n s t → k ≡ m + n → Leads k r t
  Leads-trans f g sum = record {
    shows = λ h.
        let late = g.shows h in
        let early = f.shows late.0 in
        (early.0, omega (arith, early.1, late.1, sum), λ w. late.2 (early.2 w));
  }

  Leads-refl : (r : Run) → Leads 0 r r
  Leads-refl r = record { shows = λ h. (h, omega arith, λ w. w) }

  -- Where something has failed, there is nothing to show.
  fail-Leads : (n : ℕ) (r s : Run) → Leads n r (fail s)
  unfolding Fine
  fail-Leads n r s = record { shows = λ h. absurd (cc h.1) }

  receive-Leads :
      (o : Outcome) (q : Request) (want : ℕ) (r : Run)
      → net (requests r.log) q ≡ o
      → Leads 1 r (receive o q want r).1
  unfolding Fine receive
  receive-Leads not_built q want r e = fail-Leads 1 r r
  receive-Leads not_sent q want r e = record { shows = λ h. absurd (cc h.1) }
  receive-Leads (answered status page) q want r e = elim (Bool-cases (status == want)) [
    | inl same ↦
        let wanted : status ≡ want = ground arith in
        rw same (record {
          shows = λ h. (
            h,
            length-append r.log ((q, want) ∷ []),
            λ w. AsWanted-snoc net [] r.log q want page w (e ∙ ap (λ n. answered n page) wanted),
          );
        })
    | inr other ↦ rw other (record { shows = λ h. absurd (omega (arith, h.0)) })
  ]

  send-Leads : (q : Request) (want : ℕ) (r : Run) → Leads 1 r (send net q want r).1
  unfolding send
  send-Leads q want r = receive-Leads (net (requests r.log) q) q want r refl

  do_request-Leads :
      (method path body : Bytes) (want : ℕ) (r : Run)
      → Leads 1 r (do_request compact document net method path body want r).1
  unfolding do_request
  do_request-Leads method path [] want r =
      send-Leads (record { method = method; path = path; body = [] }) want r
  do_request-Leads method path (c ∷ body) want r = compacted (compact (c ∷ body))
    where
      compacted :
          (o : Option Bytes)
          → Leads 1 r
              (elim o as (λ _. Option Bytes × Run) [
                | none ↦ (none, fail r)
                | some small ↦
                    send net (record { method = method; path = path; body = small }) want r
              ]).1
      compacted none = fail-Leads 1 r r
      compacted (some small) =
          send-Leads (record { method = method; path = path; body = small }) want r

  repeat-Leads :
      (n : ℕ) (method path : Bytes) (want : ℕ) (r : Run)
      → Leads n r (repeat compact document net n method path want r)
  unfolding repeat
  repeat-Leads zero method path want r = Leads-refl r
  repeat-Leads (suc n) method path want r =
      Leads-trans (do_request-Leads method path [] want r) (repeat-Leads n method path want _)
        (omega arith)

  read_order-Leads : (id : Bytes) (r : Run) → Leads 2 r (read_order compact document net id r)
  unfolding read_order
  read_order-Leads id r =
      Leads-trans (do_request-Leads _ _ [] 200 r) (do_request-Leads _ _ [] 200 _) (omega arith)

  order_rounds-Leads :
      (n i : ℕ) (orders : List Bytes) (r : Run)
      → Leads (n * 3) r (order_rounds compact document net n i orders r)
  unfolding order_rounds
  order_rounds-Leads zero i orders r = Leads-refl r
  order_rounds-Leads (suc n) i orders r =
      let order = get_or orders (i % length orders) [] in
      let made = do_request compact document net (codes "POST") (codes "/orders") order 201 r in
      let id = created_id compact document net made.0 in
      let first = do_request-Leads (codes "POST") (codes "/orders") order 201 r in
      let later = order_rounds-Leads n (suc i) orders in
      elim (Bool-cases (is_empty id)) [
        | inl empty ↦
            rw empty (Leads-trans (fail-Leads 3 r made.1) (later (fail made.1)) (omega arith))
        | inr full ↦
            let read = Leads-trans {k = 3} first (read_order-Leads id made.1) (omega arith) in
            rw full (Leads-trans read (later _) (omega arith))
      ]

  send_bad-Leads :
      (bs : List BadRequest) (r : Run) → Leads (length bs) r (send_bad compact document net bs r)
  unfolding send_bad
  send_bad-Leads [] r = Leads-refl r
  send_bad-Leads (b ∷ bs) r =
      let sent = do_request-Leads b.method b.path b.body b.expect r in
      Leads-trans sent (send_bad-Leads bs _) (omega arith)

  drive-Leads :
      (tf : TrafficFile)
      → Leads
          (1 + tf.catalog_calls + tf.order_rounds * 3 + tf.list_calls + length tf.bad_requests)
          start
          (drive compact document net tf)
  unfolding drive
  drive-Leads tf =
      let health = do_request-Leads (codes "GET") (codes "/healthz") [] 200 start in
      let catalog = repeat-Leads tf.catalog_calls (codes "GET") (codes "/catalog") 200 _ in
      let orders = order_rounds-Leads tf.order_rounds 0 tf.orders _ in
      let lists = repeat-Leads tf.list_calls (codes "GET") (codes "/orders") 200 _ in
      let steps = Leads-trans health catalog refl in
      let steps = Leads-trans steps orders refl in
      let steps = Leads-trans steps lists refl in
      Leads-trans steps (send_bad-Leads tf.bad_requests _) refl

-- Where the driver exits with status 0, the file has orders, every request that the driver sent was
-- answered with the status that it wanted, and none was left out: one for the health of the service,
-- the calls of the catalog, three requests for each round of an order, the calls of the list, and the
-- bad requests.
pub exit_status_lem :
    (compact : Bytes → Option Bytes) (document : Bytes → Option Json)
    (net : List Request → Request → Outcome) (tf : TrafficFile)
    → exit_status compact document net tf ≡ 0
    → let log = (drive compact document net tf).log in
      (tf.orders ≢ [])
      × AsWanted net [] log
      × (length log
          ≡ 1 + tf.catalog_calls + tf.order_rounds * 3 + tf.list_calls + length tf.bad_requests)
unfolding exit_status Fine AsWanted
exit_status_lem compact document net tf h =
    let seen = by_parts (length tf.orders) (drive compact document net tf).driver h in
    let found = (drive-Leads compact document net tf).shows (seen.1, seen.2) in
    (λ e. seen.0 (ap length e), found.2 tt, found.1 ∙ omega arith)
  where
    by_parts :
        (n : ℕ) (d : Driver)
        → ◌≡◌ {A = ℕ} (if n == 0 || ltb 0 d.unexpected || d.failed then 1 else 0) 0
        → (n ≢ 0) × (d.unexpected ≡ 0) × (d.failed ≡ false)
    by_parts n d e = (ground arith, ground arith, ground arith)
