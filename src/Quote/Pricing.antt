-- ===== src/Quote/Pricing.antt =====
-- labs/loki/cmd/pricing/main.go: the pricing fixture that the quote API asks.
use mock_lab.Common.{ℕ, Bool, true, false, inl, inr, [], ◌∷◌, none, some, if◌then◌else◌}
use mock_lab.Common.Text.{Bytes, codes}
use mock_lab.Common.Dict.{Dict, lookup}
use mock_lab.Common.Int.{pos}
use mock_lab.Quote.{PriceResponse, Attempt, priced, state_settled, state_repricing}

pub record CatalogEntry : Type 0 where
  pub settled_price_cents : ℕ
  pub repricing : Bool

abbrev pub settles : ℕ → CatalogEntry
settles cents = record { settled_price_cents = cents; repricing = false }

unfoldable pub catalog : Dict CatalogEntry
catalog =
    (codes "SSC-4110", settles 1899)
    ∷ (codes "SSC-4111", settles 2499)
    ∷ (codes "SSC-5200", settles 649)
    ∷ (codes "SSC-5201", settles 4250)
    ∷ (codes "SSC-6100", settles 8125)
    ∷ (codes "SSC-6101", settles 3400)
    ∷ (codes "SSC-7300", record { settled_price_cents = 12999; repricing = true })
    ∷ (codes "SSC-8200", settles 999)
    ∷ []

-- The body for a SKU of the catalog. A member that is not written reads as 0.
unfoldable pub price_body : Bytes → CatalogEntry → PriceResponse
price_body sku entry =
    if entry.repricing
    then record {
      sku = sku;
      currency = codes "USD";
      state = state_repricing;
      unit_price_cents = pos 0;
      last_settled_price_cents = pos entry.settled_price_cents;
      repricing_window_ms = pos 900000;
    }
    else record {
      sku = sku;
      currency = codes "USD";
      state = state_settled;
      unit_price_cents = pos entry.settled_price_cents;
      last_settled_price_cents = pos entry.settled_price_cents;
      repricing_window_ms = pos 0;
    }

-- `GET /v1/price/{sku}`: a status with the body, or 404 with a text that is no price.
unfoldable pub price_handler : Bytes → Attempt
unfolding price_body
price_handler sku = elim (lookup sku catalog) [
  | none ↦ priced 404 (inl (codes "unknown sku"))
  | some entry ↦ priced 200 (inr (price_body sku entry))
]
