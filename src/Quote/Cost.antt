-- ===== src/Quote/Cost.antt =====
-- How long `resolvePrice` takes, and that it succeeds when the price settles in time.
use mock_lab.Common.{
  Sum-cases, ℕ, zero, suc, ◌+◌, ◌-◌, ◌*◌, ◌^◌, ◌≡◌, ◌≤◌, ◌<◌, inl, inr, refl, subst, sym, ap, ◌∙◌,
  true, false, Option, none, arith, ltb, if◌then◌else◌,
}
use mock_lab.Common.Text.{Bytes, text_eq, text_eq_iff}
use mock_lab.Quote.{
  PriceResponse, ResolvedPrice, Attempt, state_settled, source_live, fetch_price, after_attempts,
  resolve_from, resolve_price, pricing_attempts, zero_price, backoff,
}
use mock_lab.Quote.Price.{states_differ}
use mock_lab.Quote.Resolve.{Fetches, Reprices}

module _ (pricing : ℕ → Attempt) (done : ℕ → Option Bytes) (sku : Bytes) where
  -- The pauses behind `count` attempts from number `n` on, of which the last has none.
  abbrev pauses : ℕ → ℕ → ℕ
  pauses n zero = 0
  pauses n (suc count) = (if ltb n pricing_attempts then backoff n else 0) + pauses (n + 1) count

  cost_bound :
      (left attempt : ℕ) (latest : PriceResponse)
      → let r = resolve_from pricing done sku left attempt latest in
        (r.calls ≤ left) × (r.slept ≤ pauses attempt left)
  unfolding resolve_from after_attempts
  cost_bound zero attempt latest = ground arith
  cost_bound (suc left) attempt latest = elim (Sum-cases (fetch_price sku (pricing attempt))) [
    | inl (err, f) ↦ ground arith
    | inr (price, f) ↦ ground (arith, cost_bound left (attempt + 1) price)
  ]

  -- `resolvePrice` makes four calls at most, and its pauses are 60 + 120 + 240 milliseconds at most.
  pub resolve_price_bound :
      let r = resolve_price pricing done sku in (r.calls ≤ 4) × (r.slept ≤ 420)
  unfolding resolve_price
  resolve_price_bound = cost_bound 4 1 (zero_price pricing done sku)

  -- Attempt `n` brings back a price in repricing, and the pause behind it is not cut short.
  pub record Waits (n : ℕ) : Type 0 where
    pub reprices : Reprices pricing done sku n
    pub goes_on : done n ≡ none

  abbrev pub AllWait : ℕ → ℕ → Type 0
  AllWait n zero = Unit
  AllWait n (suc count) = Waits n × AllWait (n + 1) count

  abbrev pub live_price : ℕ → PriceResponse → ResolvedPrice
  live_price n price = record {
    unit_price_cents = price.unit_price_cents;
    currency = price.currency;
    source = source_live;
    attempts = n;
  }

  resolve_from_live :
      (skipped left attempt : ℕ) (latest price : PriceResponse)
      → attempt + left ≡ 5
      → skipped < left
      → AllWait attempt skipped
      → Fetches pricing done sku (attempt + skipped) price
      → price.state ≡ state_settled
      → let r = resolve_from pricing done sku left attempt latest in
        (r.result ≡ inr (live_price (attempt + skipped) price))
        × (r.calls ≡ suc skipped)
        × (r.slept ≡ pauses attempt skipped)
  unfolding resolve_from
  resolve_from_live skipped zero attempt latest price e lt h f s = absurd (omega (arith, lt))
  resolve_from_live zero (suc left) attempt latest price e lt h f s =
      let here : attempt + 0 ≡ attempt = omega arith in
      let now = subst (λ k. Fetches pricing done sku k price) here f in
      let closed : text_eq price.state state_settled ≡ true = (text_eq_iff _ _).1 s in
      rw (here, resolve_from, now, closed) (refl, refl, refl)
  resolve_from_live (suc skipped) (suc left) attempt latest price e lt (now, h) f s =
      let p : PriceResponse = now.reprices.price in
      let open_ : text_eq p.state state_settled ≡ false =
        subst (λ t. text_eq t state_settled ≡ false) (sym now.reprices.state) states_differ in
      let same : attempt + suc skipped ≡ attempt + 1 + skipped = omega arith in
      let before : ltb attempt pricing_attempts ≡ true = ground (arith, e, lt) in
      let (result, calls, slept) =
        resolve_from_live skipped left (attempt + 1) p price (omega (arith, e)) (omega (arith, lt))
          h (subst (λ k. Fetches pricing done sku k price) same f) s in
      rw (same, resolve_from, now.reprices.fetched, open_, before, now.goes_on)
        (result, ap suc calls, ap (λ k. backoff attempt + k) slept)

  -- When the price settles at one of the four attempts, and no pause before is cut short,
  -- `resolvePrice` answers with this price after that many calls, and pauses that start at 60
  -- milliseconds and double.
  pub resolve_price_live :
      (skipped : ℕ) (price : PriceResponse)
      → skipped < 4
      → AllWait 1 skipped
      → Fetches pricing done sku (1 + skipped) price
      → price.state ≡ state_settled
      → let r = resolve_price pricing done sku in
        (r.result ≡ inr (live_price (1 + skipped) price))
        × (r.calls ≡ suc skipped)
        × (r.slept ≡ 60 * (2 ^ skipped - 1))
  unfolding resolve_price
  resolve_price_live skipped price lt h f s =
      let (result, calls, slept) =
        resolve_from_live skipped 4 1 (zero_price pricing done sku) price refl lt h f s in
      (result, calls, slept ∙ pauses_sum skipped lt)
    where
      pauses_sum : (n : ℕ) → n < 4 → pauses 1 n ≡ 60 * (2 ^ n - 1)
      pauses_sum zero _ = refl
      pauses_sum (suc zero) _ = refl
      pauses_sum (suc (suc zero)) _ = refl
      pauses_sum (suc (suc (suc zero))) _ = refl
      pauses_sum (suc (suc (suc (suc n)))) lt = absurd (omega (arith, lt))
