-- ===== src/Checkout/Handler.antt =====
-- The answers of the quote API of labs/prometheus.
use mock_lab.Common.{
  Sum-cases, ℕ, ◌*◌, ◌^◌, ◌≡◌, ◌≤◌, ◌⊎◌, inl, inr, refl, ap, ◌∙◌, true, false, List, [], some,
  Bool-cases, Option-cases, ltb, arith, ltb→lt,
}
use mock_lab.Common.Text.{Bytes, text_eq_iff, text_eq, is_empty}
use mock_lab.Common.Int.{ℤ, pos, negsuc}
use mock_lab.Common.Integer.{parse_int, mul_int64, mul_int64_exact}
use mock_lab.Quote.{
  QuoteResponse, Reply, quoted, refused, is_sku, in_range, not_positive, sku_error, quantity_error,
}
use mock_lab.Checkout.{
  PriceResponse, Call, not_built, not_called, priced, check_price, fetch_price, handler,
}

-- A price that the checks let through.
pub record IsPrice (sku : Bytes) (price : PriceResponse) : Type 0 where
  pub cents : ℕ
  pub named : price.sku ≡ sku
  pub unit : price.unit_price_cents ≡ pos cents
  pub above : 1 ≤ cents
  pub currency : is_empty price.currency ≡ false

check_price-IsPrice :
    (sku : Bytes) (given price : PriceResponse)
    → check_price sku given ≡ inr price
    → IsPrice sku price
unfolding check_price
check_price-IsPrice sku given price h = elim (Bool-cases (text_eq given.sku sku)) [
  | inr other ↦ absurd (ground arith)
  | inl named ↦
      let sku_same : given.sku ≡ sku = (text_eq_iff given.sku sku).0 named in
      let open' : not_positive given.unit_price_cents ≡ false = ground arith in
      let full : is_empty given.currency ≡ false = ground arith in
      let same : given ≡ price = ground arith in
      let (n, unit, above) = cents_of given.unit_price_cents open' in
      rw (← same)
        (record { cents = n; named = sku_same; unit = unit; above = above; currency = full })
]
  where
    cents_of : (z : ℤ) → not_positive z ≡ false → (n : ℕ) × (z ≡ pos n) × (1 ≤ n)
    cents_of (pos n) h = (n, refl, ground arith)
    cents_of (negsuc n) h = absurd (cc h)

fetch_price-IsPrice :
    (sku : Bytes) (call : Call) (price : PriceResponse)
    → (fetch_price sku call).0 ≡ inr price
    → IsPrice sku price
unfolding fetch_price
fetch_price-IsPrice sku (not_built err) price h = absurd (cc)
fetch_price-IsPrice sku (not_called events err) price h = absurd (cc)
fetch_price-IsPrice sku (priced events status (inl err)) price h = absurd (ground arith)
fetch_price-IsPrice sku (priced events status (inr given)) price h =
    check_price-IsPrice sku given price (ground arith)

module _ (call : Call) (sku qty : Bytes) where
  -- A request that passes the checks.
  pub record IsValid : Type 0 where
    pub format : is_sku sku ≡ true
    pub count : ℕ
    pub parsed : parse_int qty ≡ some (pos count)
    pub least : 1 ≤ count
    pub most : count ≤ 99

  -- A quote for a valid request: the unit price is above zero, and the total is the product as long as
  -- it fits in an int64.
  pub record IsQuote (count : ℕ) (q : QuoteResponse) : Type 0 where
    pub price : PriceResponse
    pub fetched : (fetch_price sku call).0 ≡ inr price
    pub cents : ℕ
    pub above : 1 ≤ cents
    pub named : q.sku ≡ sku
    pub quantity : q.quantity ≡ pos count
    pub unit : q.unit_price_cents ≡ pos cents
    pub total : (q.total_cents ≡ pos (cents * count)) ⊎ (2 ^ 63 ≤ cents * count)
    pub currency : is_empty q.currency ≡ false

  abbrev pub IsAnswer : Reply × List ℕ → Type 0
  IsAnswer (reply, waits) =
      (((text : Bytes) × (reply ≡ refused text 400)) × (waits ≡ []) × (¬ IsValid))
      ⊎ ((v : IsValid) × (waits ≡ (fetch_price sku call).1)
          × (((err : Bytes) × ((fetch_price sku call).0 ≡ inl err) × (reply ≡ refused err 502))
              ⊎ ((q : QuoteResponse) × (reply ≡ quoted q) × IsQuote v.count q)))

  in_range_lem : (z : ℤ) → in_range z ≡ true → (n : ℕ) × (z ≡ pos n) × (1 ≤ n) × (n ≤ 99)
  in_range_lem (pos n) h = (n, refl, ground arith, ground arith)
  in_range_lem (negsuc n) h = absurd (cc h)

  in_range-pos : (n : ℕ) → 1 ≤ n → n ≤ 99 → in_range (pos n) ≡ true
  in_range-pos n least most = ground arith

  abbrev quote_of : ℕ → PriceResponse → QuoteResponse
  quote_of count price = record {
    sku = price.sku;
    quantity = pos count;
    unit_price_cents = price.unit_price_cents;
    total_cents = mul_int64 price.unit_price_cents (pos count);
    currency = price.currency;
  }

  quote_of-IsQuote :
      (count : ℕ) (price : PriceResponse)
      → (fetch_price sku call).0 ≡ inr price
      → IsQuote count (quote_of count price)
  quote_of-IsQuote count price fetched =
      let p = fetch_price-IsPrice sku call price fetched in
      record {
        price = price;
        fetched = fetched;
        cents = p.cents;
        above = p.above;
        named = p.named;
        quantity = refl;
        unit = p.unit;
        total = elim (Bool-cases (ltb (p.cents * count) (2 ^ 63))) [
          | inl small ↦ inl (
              ap (λ u. mul_int64 u (pos count)) p.unit
              ∙ mul_int64_exact p.cents count (ltb→lt (p.cents * count) (2 ^ 63) small))
          | inr large ↦ inr (ground arith)
        ];
        currency = p.currency;
      }

  -- A request is refused with 400, without a call, exactly if its SKU has not the format or its quantity
  -- is no number from 1 to 99. Otherwise, the error of the call is answered with 502, or the reply is a
  -- quote for the SKU and the quantity with a price above zero; the total is the product unless that
  -- needs more than 63 bits. The waits of the call for its connection are observed in both cases.
  pub handler-IsAnswer : IsAnswer (handler call sku qty)
  unfolding handler
  handler-IsAnswer = elim (Bool-cases (is_sku sku)) [
    | inr bad ↦ rw (handler, bad) (inl ((sku_error, refl), refl, λ v. cc (bad, v.format)))
    | inl format ↦ elim (Option-cases (parse_int qty)) [
      | inl e ↦ rw (handler, format, e) (inl ((quantity_error, refl), refl, λ v. cc (e, v.parsed)))
      | inr (z, e) ↦ elim (Bool-cases (in_range z)) [
        | inr out ↦
            rw (handler, format, e, out)
              (inl (
                (quantity_error, refl),
                refl,
                λ v.
                    let same : z ≡ pos v.count = cc (e, v.parsed) in
                    cc (out, ap in_range same, in_range-pos v.count v.least v.most),
              ))
        | inl fits ↦
            let (n, same, least, most) = in_range_lem z fits in
            let v : IsValid = record {
              format = format;
              count = n;
              parsed = e ∙ ap some same;
              least = least;
              most = most;
            } in
            elim (Sum-cases (fetch_price sku call).0) [
              | inl (err, f) ↦
                  rw (handler, format, e, fits, f) (inr (v, refl, inl (err, refl, refl)))
              | inr (price, f) ↦
                  let reply : (handler call sku qty).0 ≡ quoted (quote_of n price) =
                    rw (handler, format, e, fits, f)
                      (ap
                        (λ c. quoted (record {
                          sku = price.sku;
                          quantity = c;
                          unit_price_cents = price.unit_price_cents;
                          total_cents = mul_int64 price.unit_price_cents c;
                          currency = price.currency;
                        }))
                        same) in
                  let waits : (handler call sku qty).1 ≡ (fetch_price sku call).1 =
                    rw (handler, format, e, fits) refl in
                  inr (v, waits, inr (quote_of n price, reply, quote_of-IsQuote n price f))
            ]
      ]
    ]
  ]
