-- ===== src/Quote.antt =====
-- labs/loki/internal/checkout/checkout.go: the quote API and its pricing client, which retries an
-- unsettled price.
-- The pricing dependency is a function from the number of an attempt to what this attempt brings
-- back; a context that is done during a pause is a function of the attempt, too. Logs are values,
-- without the times.
pub mod Price
pub mod Resolve
pub mod Cost
pub mod Handler
pub mod Pricing
pub mod Fixture
mod Tests
use mock_lab.Common.{
  ℕ, zero, suc, ◌+◌, ◌-◌, ◌*◌, ◌^◌, ◌⊎◌, inl, inr, Bool, true, false, not, ◌&&◌, ◌||◌, List, [],
  ◌∷◌, ◌++◌, Option, none, some, ◌==◌, ltb, leb, length, if◌then◌else◌,
}
use mock_lab.Common.Text.{Bytes, codes, text_eq, is_empty, quote}
use mock_lab.Common.Decimal.{decimal}
use mock_lab.Common.Int.{ℤ, pos, negsuc}
use mock_lab.Common.Integer.{is_digit, parse_int, mul_int64}

pub record PriceResponse : Type 0 where
  pub sku : Bytes
  pub currency : Bytes
  pub state : Bytes
  pub unit_price_cents : ℤ
  pub last_settled_price_cents : ℤ
  pub repricing_window_ms : ℤ

pub record ResolvedPrice : Type 0 where
  pub unit_price_cents : ℤ
  pub currency : Bytes
  pub source : Bytes
  pub attempts : ℕ

-- What one attempt brings back: the request is not built, the call fails, or a response arrives, with
-- the error of its decoding or the price (fields that are not in the struct are an error).
pub data Attempt : Type 0 where
  not_built : Bytes → Attempt
  not_called : Bytes → Attempt
  priced : ℕ → Bytes ⊎ PriceResponse → Attempt

abbrev pub state_settled : Bytes
state_settled = codes "SETTLED"

abbrev pub state_repricing : Bytes
state_repricing = codes "REPRICING"

abbrev pub source_live : Bytes
source_live = codes "live"

abbrev pub source_last_settled : Bytes
source_last_settled = codes "last_settled"

abbrev pub max_quantity : ℕ
max_quantity = 99

abbrev pub pricing_attempts : ℕ
pricing_attempts = 4

abbrev pub pricing_base_backoff : ℕ
pricing_base_backoff = 60

-- `z <= 0`
abbrev pub not_positive : ℤ → Bool
not_positive (pos n) = n == 0
not_positive (negsuc n) = true

-- The checks of `fetchPrice` on a decoded price.
pub check_price : Bytes → PriceResponse → Bytes ⊎ PriceResponse
check_price sku price =
    if not (text_eq price.sku sku)
    then inl (codes "pricing responded for a different sku")
    else if is_empty price.currency
    then inl (codes "pricing response is incomplete")
    else if text_eq price.state state_settled && not_positive price.unit_price_cents
    then inl (codes "settled pricing response carries no price")
    else if not (text_eq price.state state_settled) && not (text_eq price.state state_repricing)
    then inl (codes "pricing returned unknown state " ++ quote price.state)
    else inr price

-- `fetchPrice`: the text of the error, or the price.
pub fetch_price : Bytes → Attempt → Bytes ⊎ PriceResponse
unfolding check_price
fetch_price sku (not_built err) = inl (codes "build pricing request: " ++ err)
fetch_price sku (not_called err) = inl (codes "call pricing: " ++ err)
fetch_price sku (priced status decoded) =
    if not (status == 200)
    then inl (codes "pricing returned status " ++ decimal status)
    else elim decoded [
      | inl err ↦ inl (codes "decode pricing response: " ++ err)
      | inr price ↦ check_price sku price
    ]

pub data Entry : Type 0 where
  quote_rejected : Bytes → Bytes → Entry
  pricing_retry : Bytes → ℕ → ℕ → Entry
  pricing_retry_exhausted : Bytes → ℤ → ℤ → Entry
  quote_failed : Bytes → Entry
  quote_served : ℤ → Bytes → ℕ → Entry

-- The result of `resolvePrice`, with what it logged, how often it called the dependency, and the
-- milliseconds of its pauses that went by.
pub record Resolution : Type 0 where
  pub result : Bytes ⊎ ResolvedPrice
  pub entries : List Entry
  pub calls : ℕ
  pub slept : ℕ

abbrev pub stop : ℕ → Bytes ⊎ ResolvedPrice → Resolution
stop calls result = record { result = result; entries = []; calls = calls; slept = 0 }

-- The code behind the loop.
pub after_attempts : PriceResponse → Resolution
after_attempts latest =
    if not_positive latest.last_settled_price_cents
    then stop 0 (inl (codes "pricing never settled and published no last settled price"))
    else record {
      result = inr (record {
        unit_price_cents = latest.last_settled_price_cents;
        currency = latest.currency;
        source = source_last_settled;
        attempts = pricing_attempts;
      });
      entries =
          pricing_retry_exhausted latest.state latest.repricing_window_ms
            latest.last_settled_price_cents
          ∷ [];
      calls = 0;
      slept = 0;
    }

-- `pricingBaseBackoff << (attempt - 1)`
abbrev pub backoff : ℕ → ℕ
backoff attempt = pricing_base_backoff * 2 ^ (attempt - 1)

module _ (pricing : ℕ → Attempt) (done : ℕ → Option Bytes) (sku : Bytes) where
  -- The loop of `resolvePrice`: `left` more attempts follow the one before, whose price is `latest`.
  pub resolve_from : ℕ → ℕ → PriceResponse → Resolution
  unfolding after_attempts
  resolve_from zero attempt latest = after_attempts latest
  resolve_from (suc left) attempt latest = elim (fetch_price sku (pricing attempt)) [
    | inl err ↦ stop 1 (inl err)
    | inr price ↦
        let live : ResolvedPrice = record {
          unit_price_cents = price.unit_price_cents;
          currency = price.currency;
          source = source_live;
          attempts = attempt;
        } in
        let next : Resolution = resolve_from left (attempt + 1) price in
        let retry = pricing_retry price.state attempt (backoff attempt) in
        let paused : Resolution = elim (done attempt) [
          | some err ↦ record { result = inl err; entries = retry ∷ []; calls = 1; slept = 0 }
          | none ↦ record next {
            entries = retry ∷ next.entries;
            calls = suc next.calls;
            slept = backoff attempt + next.slept;
          }
        ] in
        if text_eq price.state state_settled
        then stop 1 (inr live)
        else if ltb attempt pricing_attempts
        then paused
        else record next { calls = suc next.calls }
  ]

  abbrev pub zero_price : PriceResponse
  zero_price = record {
    sku = [];
    currency = [];
    state = [];
    unit_price_cents = pos 0;
    last_settled_price_cents = pos 0;
    repricing_window_ms = pos 0;
  }

  pub resolve_price : Resolution
  unfolding resolve_from
  resolve_price = resolve_from pricing_attempts 1 zero_price

-- `[A-Z]`
abbrev pub is_upper : ℕ → Bool
is_upper c = leb b'A' c && leb c b'Z'

-- Between `least` and `most` digits, up to the end.
pub digits_to_end : ℕ → ℕ → Bytes → Bool
digits_to_end least most [] = least == 0
digits_to_end least zero (c ∷ s) = false
digits_to_end least (suc most) (c ∷ s) = is_digit c && digits_to_end (least - 1) most s

-- `skuPattern` behind its start, with the bounds on the capitals that are left.
pub sku_from : ℕ → ℕ → Bytes → Bool
unfolding digits_to_end
sku_from least most [] = false
sku_from least zero (c ∷ s) = c == b'-' && least == 0 && digits_to_end 3 5 s
sku_from least (suc most) (c ∷ s) =
    let more = sku_from (least - 1) most s in
    if is_upper c then more else c == b'-' && least == 0 && digits_to_end 3 5 s

unfoldable pub is_sku : Bytes → Bool
unfolding sku_from
is_sku s = sku_from 2 4 s

pub record QuoteResponse : Type 0 where
  pub sku : Bytes
  pub quantity : ℤ
  pub unit_price_cents : ℤ
  pub total_cents : ℤ
  pub currency : Bytes

-- A quote, or `http.Error` with a text and a status.
pub data Reply : Type 0 where
  quoted : QuoteResponse → Reply
  refused : Bytes → ℕ → Reply

-- What a request leads to.
pub record Served : Type 0 where
  pub reply : Reply
  pub entries : List Entry
  pub calls : ℕ

-- `quantity < 1 || quantity > maxQuantity` does not hold.
abbrev pub in_range : ℤ → Bool
in_range (pos n) = not (ltb n 1) && not (ltb max_quantity n)
in_range (negsuc n) = false

abbrev pub reject : Bytes → Bytes → Bytes → Served
reject sku reason text = record {
  reply = refused text 400;
  entries = quote_rejected reason sku ∷ [];
  calls = 0;
}

abbrev pub sku_error : Bytes
sku_error = codes "sku must match ^[A-Z]{2,4}-\\d{3,5}$"

abbrev pub quantity_error : Bytes
quantity_error = codes "qty must be an integer from 1 to " ++ decimal max_quantity

abbrev pub bad_sku : Bytes → Served
bad_sku sku = reject sku (codes "sku_format") sku_error

abbrev pub bad_quantity : Bytes → Served
bad_quantity sku = reject sku (codes "quantity_range") quantity_error

-- `Handler`, by the query values `sku` and `qty`.
pub handler : (ℕ → Attempt) → (ℕ → Option Bytes) → Bytes → Bytes → Served
unfolding is_sku resolve_price
handler pricing done sku qty =
    let r : Resolution = resolve_price pricing done sku in
    if not (is_sku sku) then bad_sku sku else elim (parse_int qty) [
      | none ↦ bad_quantity sku
      | some quantity ↦ if not (in_range quantity) then bad_quantity sku else elim r.result [
        | inl err ↦ record {
          reply = refused err 502;
          entries = r.entries ++ quote_failed sku ∷ [];
          calls = r.calls;
        }
        | inr price ↦ record {
          reply = quoted (record {
            sku = sku;
            quantity = quantity;
            unit_price_cents = price.unit_price_cents;
            total_cents = mul_int64 price.unit_price_cents quantity;
            currency = price.currency;
          });
          entries = r.entries ++ quote_served quantity price.source price.attempts ∷ [];
          calls = r.calls;
        }
      ]
    ]
