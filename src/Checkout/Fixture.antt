-- ===== src/Checkout/Fixture.antt =====
-- The quote API of labs/prometheus over its pricing fixture.
use mock_lab.Common.{
  ℕ, ◌*◌, ◌≡◌, ◌≤◌, ◌==◌, inr, refl, ap, true, false, List, none, some, All, arith,
}
use native.Mathlib.Nat.{mul-le-mul}
use mock_lab.Common.Text.{Bytes, codes, text_eq_refl}
use mock_lab.Common.Dict.{lookup, lookup-All}
use mock_lab.Common.Decimal.{decimal}
use mock_lab.Common.Int.{pos}
use mock_lab.Common.Integer.{parse_int-decimal, mul_int64, mul_int64_exact}
use mock_lab.Quote.{is_sku, in_range, quoted}
use mock_lab.Checkout.{
  ConnEvent, conn_waits, check_price, fetch_price, handler, catalog, price_handler,
}

-- A SKU in the format of the API, with a price above zero.
abbrev IsEntry : Bytes → ℕ → Type 0
IsEntry sku cents = (is_sku sku ≡ true) × (1 ≤ cents) × (cents ≤ 12999)

catalog-IsEntry : All (λ e. IsEntry e.0 e.1) catalog
unfolding catalog is_sku codes
catalog-IsEntry = (
  (refl, omega arith, omega arith),
  (
    (refl, omega arith, omega arith),
    (
      (refl, omega arith, omega arith),
      ((refl, omega arith, omega arith), ((refl, omega arith, omega arith), tt)),
    ),
  ),
)

fetch_price-catalog :
    (sku : Bytes) (cents : ℕ) (events : List ConnEvent)
    → lookup sku catalog ≡ some cents
    → 1 ≤ cents
    → fetch_price sku (price_handler events sku) ≡ (
      inr (record { sku = sku; unit_price_cents = pos cents; currency = codes "USD" }),
      conn_waits none events,
    )
unfolding fetch_price check_price price_handler codes
fetch_price-catalog sku cents events known above =
    let paid : (cents == 0) ≡ false = ground arith in
    rw (price_handler, known) (rw (check_price, text_eq_refl sku, paid) refl)

-- The quote API over the pricing fixture: for a SKU of the catalog and a quantity from 1 to 99 the
-- reply is a quote with the price of the catalog and its product with the quantity, and what is
-- observed is the waits of the one call.
pub handler-catalog :
    (sku : Bytes) (cents n : ℕ) (events : List ConnEvent)
    → lookup sku catalog ≡ some cents
    → 1 ≤ n
    → n ≤ 99
    → handler (price_handler events sku) sku (decimal n) ≡ (
      quoted (record {
        sku = sku;
        quantity = pos n;
        unit_price_cents = pos cents;
        total_cents = pos (cents * n);
        currency = codes "USD";
      }),
      conn_waits none events,
    )
unfolding handler
handler-catalog sku cents n events known least most =
    let (format, above, cheap) = lookup-All IsEntry sku catalog catalog-IsEntry known in
    let range : in_range (pos n) ≡ true = ground arith in
    let fetched = fetch_price-catalog sku cents events known above in
    let small : cents * n ≤ 12999 * 99 = mul-le-mul cheap most in
    let total : mul_int64 (pos cents) (pos n) ≡ pos (cents * n) =
      mul_int64_exact cents n (omega (arith, small)) in
    rw (handler, format, parse_int-decimal n (omega arith), range, fetched)
      (ap
        (λ t. (
          quoted (record {
            sku = sku;
            quantity = pos n;
            unit_price_cents = pos cents;
            total_cents = t;
            currency = codes "USD";
          }),
          conn_waits none events,
        ))
        total)
