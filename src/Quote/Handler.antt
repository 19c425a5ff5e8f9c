-- ===== src/Quote/Handler.antt =====
-- The answers of `Handler`.
use mock_lab.Common.{
  Sum-cases, ℕ, ◌*◌, ◌^◌, ◌≡◌, ◌≤◌, ◌⊎◌, inl, inr, refl, ap, ◌∙◌, true, false, sym, Option, some,
  arith, ltb, Bool-cases, Option-cases,
}
use mock_lab.Common.Text.{Bytes, codes}
use mock_lab.Common.Int.{ℤ, pos, negsuc}
use mock_lab.Common.Integer.{parse_int, mul_int64, mul_int64_exact}
use mock_lab.Quote.{
  Attempt, ResolvedPrice, QuoteResponse, quoted, refused, Served, is_sku, in_range, reject,
  sku_error, quantity_error, resolve_price, handler,
}
use mock_lab.Quote.Price.{IsPositive}
use mock_lab.Quote.Resolve.{resolve_price_sound}
use mock_lab.Quote.Cost.{resolve_price_bound}

module _ (pricing : ℕ → Attempt) (done : ℕ → Option Bytes) (sku qty : Bytes) where
  -- A valid request: the SKU has the form of one, and the quantity is a whole number from 1 to 99.
  pub record IsValid : Type 0 where
    pub format : is_sku sku ≡ true
    pub count : ℕ
    pub parsed : parse_int qty ≡ some (pos count)
    pub least : 1 ≤ count
    pub most : count ≤ 99

  -- A quote for a valid request: the price is the resolved one, above zero, and the total is the
  -- product as long as it fits in an int64.
  pub record IsQuote (q : QuoteResponse) : Type 0 where
    pub valid : IsValid
    pub named : q.sku ≡ sku
    pub quantity : q.quantity ≡ pos valid.count
    pub price : ResolvedPrice
    pub resolved : (resolve_price pricing done sku).result ≡ inr price
    pub cents : IsPositive price.unit_price_cents
    pub unit : q.unit_price_cents ≡ pos cents.value
    pub total :
        (q.total_cents ≡ pos (cents.value * valid.count)) ⊎ (2 ^ 63 ≤ cents.value * valid.count)

  in_range_lem : (z : ℤ) → in_range z ≡ true → (n : ℕ) × (z ≡ pos n) × (1 ≤ n) × (n ≤ 99)
  in_range_lem (pos n) h = (n, refl, ground arith, ground arith)
  in_range_lem (negsuc n) h = absurd (cc h)

  -- A request that passes the checks, and a price for it.
  quote_of : (count : ℕ) (price : ResolvedPrice) → QuoteResponse
  quote_of count price = record {
    sku = sku;
    quantity = pos count;
    unit_price_cents = price.unit_price_cents;
    total_cents = mul_int64 price.unit_price_cents (pos count);
    currency = price.currency;
  }

  quote_of-IsQuote :
      (valid : IsValid) (price : ResolvedPrice)
      → (resolve_price pricing done sku).result ≡ inr price
      → IsQuote (quote_of valid.count price)
  unfolding quote_of
  quote_of-IsQuote valid price resolved =
      let cents : IsPositive price.unit_price_cents =
        (resolve_price_sound pricing done sku price resolved).0 in
      let count = valid.count in
      record {
        valid = valid;
        named = refl;
        quantity = refl;
        price = price;
        resolved = resolved;
        cents = cents;
        unit = cents.same;
        total = elim (Bool-cases (ltb (cents.value * count) (2 ^ 63))) [
          | inl fits ↦ inl (
              ap (λ z. mul_int64 z (pos count)) cents.same
              ∙ mul_int64_exact cents.value count (ground arith))
          | inr over ↦ inr (ground arith)
        ];
      }

  -- One of the answers of `Handler`, with its calls of the dependency.
  pub record IsAnswer (s : Served) : Type 0 where
    pub calls : s.calls ≤ 4
    pub answer :
        ((text : Bytes) × (s.reply ≡ refused text 400) × (s.calls ≡ 0) × (IsValid → ⊥))
        ⊎ ((err : Bytes) × IsValid
            × (s.reply ≡ refused err 502)
            × ((resolve_price pricing done sku).result ≡ inl err))
        ⊎ ((q : QuoteResponse) × (s.reply ≡ quoted q) × IsQuote q)

  -- `Handler` answers every request: 400, without a call of the dependency, exactly when the SKU does
  -- not have the form of one or the quantity is no whole number from 1 to 99; for a valid request, 502
  -- with the error of `resolvePrice`, or a quote at the resolved price, which is above zero, with the
  -- product as its total unless this overflows. It makes four calls at most.
  pub handler_lem : IsAnswer (handler pricing done sku qty)
  unfolding handler quote_of
  handler_lem = elim (Bool-cases (is_sku sku)) [
    | inr bad ↦
        refusal (codes "sku_format") sku_error (rw (handler, bad) refl) (λ v. cc (v.format, bad))
    | inl format ↦ elim (Option-cases (parse_int qty)) [
      | inl bad ↦
          refusal (codes "quantity_range") quantity_error (rw (handler, format, bad) refl)
            (λ v. cc (v.parsed, bad))
      | inr (z, parsed) ↦ elim (Bool-cases (in_range z)) [
        | inr bad ↦
            refusal (codes "quantity_range") quantity_error (rw (handler, format, parsed, bad) refl)
              (λ v. out_of_range v z parsed bad)
        | inl fine ↦
            let (n, e, least, most) = in_range_lem z fine in
            served z format parsed fine
              (record {
                format = format;
                count = n;
                parsed = parsed ∙ ap some e;
                least = least;
                most = most;
              })
              e
      ]
    ]
  ]
    where
      out_of_range : (v : IsValid) (z : ℤ) → parse_int qty ≡ some z → in_range z ≡ false → ⊥
      out_of_range v z parsed bad =
          let same : z ≡ pos v.count = cc (parsed, v.parsed) in
          let outside : in_range (pos v.count) ≡ false = ap in_range (sym same) ∙ bad in
          absurd (ground (arith, v.least, v.most, outside))

      refusal :
          (reason text : Bytes)
          → handler pricing done sku qty ≡ reject sku reason text
          → (IsValid → ⊥)
          → IsAnswer (handler pricing done sku qty)
      refusal reason text e bad =
          rw e (record { calls = omega arith; answer = inl (text, refl, refl, bad) })

      served :
          (z : ℤ)
          → is_sku sku ≡ true
          → parse_int qty ≡ some z
          → in_range z ≡ true
          → (valid : IsValid) → z ≡ pos valid.count
          → IsAnswer (handler pricing done sku qty)
      served z format parsed fine valid e =
          let bound = (resolve_price_bound pricing done sku).0 in
          elim (Sum-cases (resolve_price pricing done sku).result) [
            | inl (err, failed) ↦
                rw (handler, format, parsed, fine, failed)
                  (record { calls = bound; answer = inr (inl (err, valid, refl, failed)) })
            | inr (price, resolved) ↦
                let same : (handler pricing done sku qty).reply
                    ≡ quoted (quote_of valid.count price) =
                  rw (handler, format, parsed, fine, resolved) (rw (e, quote_of) refl) in
                record {
                  calls = rw (handler, format, parsed, fine, resolved) bound;
                  answer = inr (
                      inr
                        (quote_of valid.count price, same, quote_of-IsQuote valid price resolved));
                }
          ]
