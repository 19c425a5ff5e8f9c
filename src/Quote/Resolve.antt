-- ===== src/Quote/Resolve.antt =====
-- What `resolvePrice` may answer, and what it costs.
use mock_lab.Common.{
  Sum-cases, ℕ, zero, suc, ◌+◌, ◌≡◌, ◌≤◌, ◌⊎◌, inl, inr, refl, subst, sym, ◌∙◌, false, Option,
  arith, Bool-cases, Option-cases, ltb,
}
use mock_lab.Common.Text.{Bytes, text_eq, text_eq_iff}
use mock_lab.Quote.{
  PriceResponse, ResolvedPrice, Attempt, state_settled, state_repricing, source_live,
  source_last_settled, not_positive, fetch_price, after_attempts, resolve_from, resolve_price,
  pricing_attempts, zero_price,
}
use mock_lab.Quote.Price.{IsPositive, not_positive_iff, IsPrice, fetch_price_iff, states_differ}

module _ (pricing : ℕ → Attempt) (done : ℕ → Option Bytes) (sku : Bytes) where
  -- Attempt `n` brings back the price `p`.
  abbrev pub Fetches : ℕ → PriceResponse → Type 0
  Fetches n p = fetch_price sku (pricing n) ≡ inr p

  -- Attempt `n` brings back a price in repricing.
  pub record Reprices (n : ℕ) : Type 0 where
    pub price : PriceResponse
    pub fetched : Fetches n price
    pub state : price.state ≡ state_repricing

  -- So do `count` attempts from number `n` on.
  abbrev pub AllReprice : ℕ → ℕ → Type 0
  AllReprice n zero = Unit
  AllReprice n (suc count) = Reprices n × AllReprice (n + 1) count

  -- The first settled price, at attempt `from + skipped`.
  pub record IsLive (from : ℕ) (r : ResolvedPrice) : Type 0 where
    pub skipped : ℕ
    pub before : AllReprice from skipped
    pub price : PriceResponse
    pub fetched : Fetches (from + skipped) price
    pub state : price.state ≡ state_settled
    pub attempt : r.attempts ≡ from + skipped
    pub in_time : r.attempts ≤ pricing_attempts
    pub source : r.source ≡ source_live
    pub cents : r.unit_price_cents ≡ price.unit_price_cents
    pub currency : r.currency ≡ price.currency

  -- The last settled price that the last of the attempts names, of which none is settled.
  pub record IsFallback (r : ResolvedPrice) (last : PriceResponse) : Type 0 where
    pub attempt : r.attempts ≡ pricing_attempts
    pub source : r.source ≡ source_last_settled
    pub cents : r.unit_price_cents ≡ last.last_settled_price_cents
    pub currency : r.currency ≡ last.currency

  after_attempts_sound :
      (latest : PriceResponse) {r : ResolvedPrice}
      → (after_attempts latest).result ≡ inr r
      → IsPositive r.unit_price_cents × IsFallback r latest
  unfolding after_attempts
  after_attempts_sound latest {r} h =
      let positive : not_positive latest.last_settled_price_cents ≡ false = ground arith in
      let cents : r.unit_price_cents ≡ latest.last_settled_price_cents = ground arith in
      (
        subst IsPositive (sym cents) ((not_positive_iff _).0 positive),
        record {
          attempt = ground arith;
          source = ground arith;
          cents = cents;
          currency = ground arith;
        },
      )

  -- One round of the loop on a price in repricing that does not end it.
  resolve_from-suc :
      (left attempt : ℕ) (latest price : PriceResponse)
      → Fetches attempt price
      → price.state ≡ state_repricing
      → let next = resolve_from pricing done sku left (attempt + 1) price in
        let whole = resolve_from pricing done sku (suc left) attempt latest in
        (whole.result ≡ next.result) ⊎ ((err : Bytes) × (whole.result ≡ inl err))
  unfolding resolve_from
  resolve_from-suc left attempt latest price f s =
      let open_ : text_eq price.state state_settled ≡ false = rw s states_differ in
      elim (Bool-cases (ltb attempt pricing_attempts)) [
        | inl lt ↦ elim (Option-cases (done attempt)) [
          | inl e ↦ inl (rw (resolve_from, f, open_, lt, e) refl)
          | inr (err, e) ↦ inr (err, rw (resolve_from, f, open_, lt, e) refl)
        ]
        | inr ge ↦ inl (rw (resolve_from, f, open_, ge) refl)
      ]

  resolve_from_settled :
      (left attempt : ℕ) (latest price : PriceResponse)
      → Fetches attempt price
      → price.state ≡ state_settled
      → (resolve_from pricing done sku (suc left) attempt latest).result
        ≡ inr (record {
          unit_price_cents = price.unit_price_cents;
          currency = price.currency;
          source = source_live;
          attempts = attempt;
        })
  unfolding resolve_from
  resolve_from_settled left attempt latest price f s =
      ground (arith, text_eq_iff price.state state_settled)

  resolve_from_failed :
      (left attempt : ℕ) (latest : PriceResponse) {err : Bytes}
      → fetch_price sku (pricing attempt) ≡ inl err
      → (resolve_from pricing done sku (suc left) attempt latest).result ≡ inl err
  unfolding resolve_from
  resolve_from_failed left attempt latest f = ground arith

  -- Where the last of the prices comes from.
  abbrev Last : ℕ → PriceResponse → PriceResponse → Type 0
  Last zero latest last = last ≡ latest
  Last (suc left) latest last = Fetches pricing_attempts last

  IsLive-later : (n : ℕ) (r : ResolvedPrice) → Reprices n → IsLive (n + 1) r → IsLive n r
  IsLive-later n r now h =
      let same : n + 1 + h.skipped ≡ n + suc h.skipped = omega arith in
      record {
        skipped = suc h.skipped;
        before = (now, h.before);
        price = h.price;
        fetched = subst (λ k. Fetches k h.price) same h.fetched;
        state = h.state;
        attempt = h.attempt ∙ same;
        in_time = h.in_time;
        source = h.source;
        cents = h.cents;
        currency = h.currency;
      }

  Last-later :
      (left n : ℕ) (latest price last : PriceResponse)
      → n + suc left ≡ 5
      → Fetches n price
      → Last left price last
      → Last (suc left) latest last
  Last-later zero n latest price last e f same =
      subst (λ k. Fetches k last) (omega arith) (subst (λ p. Fetches n p) (sym same) f)
  Last-later (suc left) n latest price last e f h = h

  IsLive-now :
      (n : ℕ) (price : PriceResponse) (r : ResolvedPrice)
      → n ≤ pricing_attempts
      → Fetches n price
      → price.state ≡ state_settled
      → r ≡ (record {
        unit_price_cents = price.unit_price_cents;
        currency = price.currency;
        source = source_live;
        attempts = n;
      })
      → IsLive n r
  IsLive-now n price r le f s e =
      let here : n ≡ n + 0 = omega arith in
      rw e (record {
        skipped = 0;
        before = tt;
        price = price;
        fetched = subst (λ k. Fetches k price) here f;
        state = s;
        attempt = here;
        in_time = le;
        source = refl;
        cents = refl;
        currency = refl;
      })

  resolve_from_sound :
      (left attempt : ℕ) (latest : PriceResponse) (r : ResolvedPrice)
      → attempt + left ≡ 5
      → (resolve_from pricing done sku left attempt latest).result ≡ inr r
      → IsPositive r.unit_price_cents
        × (IsLive attempt r
            ⊎ (AllReprice attempt left
                × ((last : PriceResponse) × IsFallback r last × Last left latest last)))
  resolve_from_sound zero attempt latest r e h =
      let (positive, fallback) = after_attempts_sound latest {r = r} (unfold resolve_from in h) in
      (positive, inr (tt, (latest, fallback, refl)))
  resolve_from_sound (suc left) attempt latest r e h =
      elim (Sum-cases (fetch_price sku (pricing attempt))) [
        | inl (err, f) ↦ absurd (cc (h, resolve_from_failed left attempt latest f))
        | inr (price, f) ↦
            let valid : IsPrice sku price = ((fetch_price_iff sku (pricing attempt) price).0 f).1 in
            elim valid.state [
              | inl (settled, positive) ↦
                  let same : r ≡ (record {
                    unit_price_cents = price.unit_price_cents;
                    currency = price.currency;
                    source = source_live;
                    attempts = attempt;
                  }) =
                    cc (h, resolve_from_settled left attempt latest price f settled) in
                  (
                    rw same positive,
                    inl (IsLive-now attempt price r (omega (arith, e)) f settled same),
                  )
              | inr repricing ↦ elim (resolve_from-suc left attempt latest price f repricing) [
                | inl same ↦
                    let now : Reprices attempt = record {
                      price = price;
                      fetched = f;
                      state = repricing;
                    } in
                    let (positive, rest) =
                      resolve_from_sound left (attempt + 1) price r (omega (arith, e))
                        (sym same ∙ h) in
                    (
                      positive,
                      elim rest [
                        | inl live ↦ inl (IsLive-later attempt r now live)
                        | inr (more, (last, fallback, from)) ↦ inr (
                          (now, more),
                          (last, fallback, Last-later left attempt latest price last e f from),
                        )
                      ],
                    )
                | inr (err, same) ↦ absurd (cc (h, same))
              ]
            ]
      ]

  -- A resolved price is above zero, and it is either live, from the first of the four attempts that
  -- brings back a settled price, all attempts before it bringing back a price in repricing; or the
  -- last settled price that the fourth attempt names, all four bringing back a price in repricing.
  pub resolve_price_sound :
      (r : ResolvedPrice)
      → (resolve_price pricing done sku).result ≡ inr r
      → IsPositive r.unit_price_cents
        × (IsLive 1 r
            ⊎ (AllReprice 1 pricing_attempts
                × ((last : PriceResponse) × Fetches pricing_attempts last × IsFallback r last)))
  unfolding resolve_price
  resolve_price_sound r h =
      let (positive, rest) = resolve_from_sound 4 1 (zero_price pricing done sku) r refl h in
      (
        positive,
        elim rest [
          | inl live ↦ inl live
          | inr (all, (last, fallback, from)) ↦ inr (all, (last, from, fallback))
        ],
      )
