-- ===== src/Quote/Tests.antt =====
-- A price that settles at the third attempt.
use mock_lab.Common.{
  ℕ, ◌-◌, ◌*◌, ◌^◌, ◌≡◌, ◌≤◌, ◌⊎◌, inr, refl, true, false, Option, none, some, ltb, if◌then◌else◌,
  arith,
}
use mock_lab.Common.Text.{Bytes, codes, text_eq}
use mock_lab.Common.Int.{pos}
use mock_lab.Quote.{
  PriceResponse, ResolvedPrice, Attempt, priced, state_settled, state_repricing, source_live,
  fetch_price, resolve_price, handler, quoted, is_sku, pricing_attempts,
}
use mock_lab.Quote.Price.{IsPositive}
use mock_lab.Quote.Resolve.{Fetches, IsLive, AllReprice, IsFallback, resolve_price_sound}
use mock_lab.Quote.Cost.{AllWait, live_price, resolve_price_bound, resolve_price_live}
use mock_lab.Common.Dict.{lookup}
use mock_lab.Common.Decimal.{decimal}
use mock_lab.Quote.Pricing.{catalog}
use mock_lab.Quote.Fixture
use mock_lab.Quote.Fixture.{served, handler-served}
use mock_lab.Quote.Handler.{IsAnswer, handler_lem}

abbrev sku : Bytes
sku = codes "AB-123"

abbrev price : Bytes → PriceResponse
price state = record {
  sku = sku;
  currency = codes "USD";
  state = state;
  unit_price_cents = pos 250;
  last_settled_price_cents = pos 240;
  repricing_window_ms = pos 500;
}

abbrev pricing : ℕ → Attempt
pricing n = priced 200 (inr (price (if ltb n 3 then state_repricing else state_settled)))

abbrev never_done : ℕ → Option Bytes
never_done n = none

fetched_1 : Fetches pricing never_done sku 1 (price state_repricing)
unfolding fetch_price mock_lab.Quote.check_price text_eq codes
fetched_1 = refl

fetched_2 : Fetches pricing never_done sku 2 (price state_repricing)
unfolding fetch_price mock_lab.Quote.check_price text_eq codes
fetched_2 = refl

fetched_3 : Fetches pricing never_done sku 3 (price state_settled)
unfolding fetch_price mock_lab.Quote.check_price text_eq codes
fetched_3 = refl

waits : AllWait pricing never_done sku 1 2
waits = (
  record {
    reprices = record { price = price state_repricing; fetched = fetched_1; state = refl };
    goes_on = refl;
  },
  (
    record {
      reprices = record { price = price state_repricing; fetched = fetched_2; state = refl };
      goes_on = refl;
    },
    tt,
  ),
)

resolved_live :
    (resolve_price pricing never_done sku).result
    ≡ inr (live_price pricing never_done sku 3 (price state_settled))
resolved_live =
    (resolve_price_live pricing never_done sku 2 (price state_settled) (omega arith) waits fetched_3
      refl).0

resolve_price_live_example :
    let r = resolve_price pricing never_done sku in
    (r.result ≡ inr (live_price pricing never_done sku 3 (price state_settled)))
    × (r.calls ≡ 3)
    × (r.slept ≡ 60 * (2 ^ 2 - 1))
resolve_price_live_example =
    resolve_price_live pricing never_done sku 2 (price state_settled) (omega arith) waits fetched_3
      refl

resolve_price_bound_example :
    let r = resolve_price pricing never_done sku in (r.calls ≤ 4) × (r.slept ≤ 420)
resolve_price_bound_example = resolve_price_bound pricing never_done sku

abbrev live : ResolvedPrice
live = record {
  unit_price_cents = pos 250;
  currency = codes "USD";
  source = source_live;
  attempts = 3;
}

resolve_price_sound_example :
    IsPositive live.unit_price_cents
    × (IsLive pricing never_done sku 1 live
        ⊎ (AllReprice pricing never_done sku 1 pricing_attempts
            × ((last : PriceResponse) × Fetches pricing never_done sku pricing_attempts last
                × IsFallback pricing never_done sku live last)))
resolve_price_sound_example = resolve_price_sound pricing never_done sku live resolved_live

is_sku_test :
    (is_sku sku ≡ true) × (is_sku (codes "ABCDE-123") ≡ false) × (is_sku (codes "AB-12x") ≡ false)
unfolding is_sku mock_lab.Quote.sku_from mock_lab.Quote.digits_to_end codes
is_sku_test = (refl, refl, refl)

handler_lem_example :
    IsAnswer pricing never_done sku (codes "7") (handler pricing never_done sku (codes "7"))
handler_lem_example = handler_lem pricing never_done sku (codes "7")

-- The SKU in the repricing window.
abbrev moving : Bytes
moving = codes "SSC-7300"

moving_known :
    lookup moving catalog ≡ some (record { settled_price_cents = 12999; repricing = true })
unfolding lookup catalog codes text_eq
moving_known = refl

handler-served_example :
    let r = handler (served moving) Fixture.never_done moving (decimal 3) in
    (r.reply
      ≡ quoted (record {
        sku = moving;
        quantity = pos 3;
        unit_price_cents = pos 12999;
        total_cents = pos 38997;
        currency = codes "USD";
      }))
    × (r.calls ≡ 4)
handler-served_example =
    handler-served moving (record { settled_price_cents = 12999; repricing = true }) moving_known 3
      (omega arith) (omega arith)
