-- ===== src/Quote/Fixture.antt =====
-- The quote API of labs/loki over its pricing fixture.
use mock_lab.Common.{
  ℕ, suc, ◌+◌, ◌*◌, ◌≡◌, ◌≤◌, ◌<◌, inl, inr, refl, ap, ◌∙◌, true, false, ◌∷◌, ◌==◌, Option, none,
  some, if◌then◌else◌, All, Bool-cases, lt→ltb, ltb, arith,
}
use native.Mathlib.Nat.{mul-le-mul}
use mock_lab.Common.Text.{Bytes, codes, text_eq, text_eq_refl}
use mock_lab.Common.Dict.{lookup, lookup-All}
use mock_lab.Common.Decimal.{decimal}
use mock_lab.Common.Int.{pos}
use mock_lab.Common.Integer.{parse_int-decimal, mul_int64, mul_int64_exact}
use mock_lab.Quote.{
  PriceResponse, Attempt, state_settled, source_live, source_last_settled, check_price, fetch_price,
  after_attempts, resolve_from, resolve_price, is_sku, sku_from, digits_to_end, quoted, handler,
  stop, pricing_retry, backoff, pricing_attempts, zero_price, ResolvedPrice, Resolution, in_range,
  Resolution, in_range,
}
use mock_lab.Quote.Pricing.{CatalogEntry, settles, catalog, price_body, price_handler}

-- The fixture answers every attempt in the same way, and no context is done.
abbrev pub served : Bytes → ℕ → Attempt
served sku attempt = price_handler sku

abbrev pub never_done : ℕ → Option Bytes
never_done attempt = none

-- An entry of the catalog: a SKU in the format of the API, with a price above zero.
abbrev IsEntry : Bytes → CatalogEntry → Type 0
IsEntry sku entry =
    (is_sku sku ≡ true) × (1 ≤ entry.settled_price_cents) × (entry.settled_price_cents ≤ 12999)

catalog-IsEntry : All (λ e. IsEntry e.0 e.1) catalog
unfolding catalog is_sku sku_from digits_to_end codes
catalog-IsEntry = (
  (refl, omega arith, omega arith),
  (
    (refl, omega arith, omega arith),
    (
      (refl, omega arith, omega arith),
      (
        (refl, omega arith, omega arith),
        (
          (refl, omega arith, omega arith),
          (
            (refl, omega arith, omega arith),
            ((refl, omega arith, omega arith), ((refl, omega arith, omega arith), tt)),
          ),
        ),
      ),
    ),
  ),
)

-- A round that pauses, and one that does not, in front of the rest.
abbrev retried : PriceResponse → ℕ → Resolution → Resolution
retried p attempt next = record next {
  entries = pricing_retry p.state attempt (backoff attempt) ∷ next.entries;
  calls = suc next.calls;
  slept = backoff attempt + next.slept;
}

abbrev called : Resolution → Resolution
called next = record next { calls = suc next.calls }

-- One round of `resolvePrice`, by what `fetchPrice` gives for it.
module _ (pricing : ℕ → Attempt) (done : ℕ → Option Bytes) (sku : Bytes) (p : PriceResponse) where
  round_settled :
      (left attempt : ℕ) (latest : PriceResponse)
      → fetch_price sku (pricing attempt) ≡ inr p
      → text_eq p.state state_settled ≡ true
      → resolve_from pricing done sku (suc left) attempt latest
        ≡ stop 1 (
            inr (record {
              unit_price_cents = p.unit_price_cents;
              currency = p.currency;
              source = source_live;
              attempts = attempt;
            }))
  unfolding resolve_from
  round_settled left attempt latest e settled = rw (resolve_from, e, settled) refl

  round_waits :
      (left attempt : ℕ) (latest : PriceResponse)
      → fetch_price sku (pricing attempt) ≡ inr p
      → text_eq p.state state_settled ≡ false
      → done attempt ≡ none
      → attempt < pricing_attempts
      → resolve_from pricing done sku (suc left) attempt latest
        ≡ retried p attempt (resolve_from pricing done sku left (attempt + 1) p)
  unfolding resolve_from
  round_waits left attempt latest e open' d lt =
      rw (resolve_from, e, open', lt→ltb attempt pricing_attempts lt, d) refl

  round_last :
      (left attempt : ℕ) (latest : PriceResponse)
      → fetch_price sku (pricing attempt) ≡ inr p
      → text_eq p.state state_settled ≡ false
      → ltb attempt pricing_attempts ≡ false
      → resolve_from pricing done sku (suc left) attempt latest
        ≡ called (resolve_from pricing done sku left (attempt + 1) p)
  unfolding resolve_from
  round_last left attempt latest e open' last = rw (resolve_from, e, open', last) refl

module _ (sku : Bytes) (entry : CatalogEntry) (known : lookup sku catalog ≡ some entry) where
  entry-IsEntry : IsEntry sku entry
  entry-IsEntry = lookup-All IsEntry sku catalog catalog-IsEntry known

  fetched : fetch_price sku (price_handler sku) ≡ check_price sku (price_body sku entry)
  unfolding fetch_price price_handler
  fetched = rw (price_handler, known) refl

  -- While the price is settled, `fetchPrice` takes the body as it is.
  fetched_settled :
      entry.repricing ≡ false → fetch_price sku (price_handler sku) ≡ inr (price_body sku entry)
  unfolding check_price price_body text_eq codes
  fetched_settled calm =
      let (_, least, _) = entry-IsEntry in
      let above : (entry.settled_price_cents == 0) ≡ false = ground arith in
      fetched ∙ rw (check_price, price_body, calm, text_eq_refl sku, above) refl

  fetched_repricing :
      entry.repricing ≡ true → fetch_price sku (price_handler sku) ≡ inr (price_body sku entry)
  unfolding check_price price_body text_eq codes
  fetched_repricing moving = fetched ∙ rw (check_price, price_body, moving, text_eq_refl sku) refl

  -- The price that a quote has.
  abbrev pub resolved : ResolvedPrice
  resolved = record {
    unit_price_cents = pos entry.settled_price_cents;
    currency = codes "USD";
    source = if entry.repricing then source_last_settled else source_live;
    attempts = if entry.repricing then 4 else 1;
  }

  resolve_settled :
      entry.repricing ≡ false → resolve_price (served sku) never_done sku ≡ stop 1 (inr resolved)
  unfolding resolve_price
  resolve_settled calm =
      let body : price_body sku entry ≡ price_body sku (settles entry.settled_price_cents) =
        unfold price_body in rw calm refl in
      let settled : text_eq (price_body sku entry).state state_settled ≡ true =
        unfold price_body in rw calm (text_eq_refl state_settled) in
      round_settled (served sku) never_done sku (price_body sku entry) 3 1
        (zero_price (served sku) never_done sku) (fetched_settled calm) settled
      ∙ (unfold price_body in rw calm refl)

  resolve_repricing :
      entry.repricing ≡ true
      → let r = resolve_price (served sku) never_done sku in
        (r.result ≡ inr resolved) × (r.calls ≡ 4) × (r.slept ≡ 420)
  unfolding resolve_price resolve_from
  resolve_repricing moving =
      let p = price_body sku entry in
      let (_, least, _) = entry-IsEntry in
      let open' : text_eq p.state state_settled ≡ false =
        unfold price_body codes text_eq in rw moving refl in
      let e = fetched_repricing moving in
      let round = round_waits (served sku) never_done sku p in
      let whole : resolve_price (served sku) never_done sku
          ≡ retried p 1 (retried p 2 (retried p 3 (called (after_attempts p)))) =
        round 3 1 (zero_price (served sku) never_done sku) e open' refl (omega arith)
        ∙ ap (retried p 1) (
            round 2 2 p e open' refl (omega arith)
            ∙ ap (retried p 2) (
                round 1 3 p e open' refl (omega arith)
                ∙ ap (retried p 3)
                    (round_last (served sku) never_done sku p 0 4 p e open' refl))) in
      let last : after_attempts p
          ≡ after_attempts (record p {
            last_settled_price_cents = pos entry.settled_price_cents;
            currency = codes "USD";
          }) =
        unfold price_body in rw moving refl in
      let above : (entry.settled_price_cents == 0) ≡ false = ground arith in
      let after : ((after_attempts p).result ≡ inr resolved)
          × ((after_attempts p).calls ≡ 0)
          × ((after_attempts p).slept ≡ 0) =
        rw last (unfold after_attempts in rw (after_attempts, above, moving) (refl, refl, refl)) in
      (
        ap (λ r. r.result) whole ∙ after.0,
        ap (λ r. r.calls) whole ∙ omega (arith, after.1),
        ap (λ r. r.slept) whole ∙ omega (arith, after.2),
      )

  resolve_served :
      let r = resolve_price (served sku) never_done sku in
      (r.result ≡ inr resolved) × (r.calls ≡ (if entry.repricing then 4 else 1))
  resolve_served = elim (Bool-cases entry.repricing) [
    | inl moving ↦
        let (price, calls, _) = resolve_repricing moving in (price, calls ∙ rw moving refl)
    | inr calm ↦
        let e = resolve_settled calm in (ap (λ r. r.result) e, ap (λ r. r.calls) e ∙ rw calm refl)
  ]

  -- The quote API over the pricing fixture of the lab: for a SKU of the catalog and a quantity from 1 to
  -- 99 the answer is a quote with the settled price and its product with the quantity. A SKU that is
  -- not in a repricing window takes one call; the others take four, and the price is the last settled
  -- one.
  pub handler-served :
      (n : ℕ)
      → 1 ≤ n
      → n ≤ 99
      → let r = handler (served sku) never_done sku (decimal n) in
        (r.reply
          ≡ quoted (record {
            sku = sku;
            quantity = pos n;
            unit_price_cents = pos entry.settled_price_cents;
            total_cents = pos (entry.settled_price_cents * n);
            currency = codes "USD";
          }))
        × (r.calls ≡ (if entry.repricing then 4 else 1))
  unfolding handler
  handler-served n least most =
      let (sku_format, _, cheap) = entry-IsEntry in
      let format : sku_from 2 4 sku ≡ true = unfold is_sku in sku_format in
      let range : in_range (pos n) ≡ true = ground arith in
      let (price, calls) = resolve_served in
      let small : entry.settled_price_cents * n ≤ 12999 * 99 = mul-le-mul cheap most in
      let total : mul_int64 (pos entry.settled_price_cents) (pos n)
          ≡ pos (entry.settled_price_cents * n) =
        mul_int64_exact entry.settled_price_cents n (omega (arith, small)) in
      rw (handler, format, parse_int-decimal n (omega arith), range, price)
        (
          ap
              (λ t. quoted (record {
                sku = sku;
                quantity = pos n;
                unit_price_cents = pos entry.settled_price_cents;
                total_cents = t;
                currency = codes "USD";
              }))
              total,
          calls,
        )
