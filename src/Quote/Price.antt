-- ===== src/Quote/Price.antt =====
-- Which answers of the pricing dependency are prices.
use mock_lab.Common.{ℕ, ◌≡◌, ◌<◌, ◌⊎◌, ◌↔◌, inl, inr, refl, subst, false, arith, Bool-cases, ◌==◌}
use mock_lab.Common.Text.{Bytes, codes, text_eq, text_eq_iff, is_empty}
use mock_lab.Common.Int.{ℤ, pos, negsuc}
use mock_lab.Quote.{
  PriceResponse, Attempt, not_built, not_called, priced, state_settled, state_repricing,
  not_positive, check_price, fetch_price,
}

-- A number above zero.
pub record IsPositive (z : ℤ) : Type 0 where
  pub value : ℕ
  pub same : z ≡ pos value
  pub above : 0 < value

pub not_positive_iff : (z : ℤ) → (not_positive z ≡ false) ↔ IsPositive z
not_positive_iff (pos n) =
    (λ h. record { value = n; same = refl; above = ground arith }, λ h. not_zero h)
  where
    not_zero : IsPositive (pos n) → (n == 0) ≡ false
    not_zero h = ground (arith, h.same, h.above)
not_positive_iff (negsuc n) = (λ h. cc h, λ h. absurd (cc h.same))

-- A price for the SKU that was asked for: with a currency, and settled at a price above zero or in
-- repricing.
pub record IsPrice (sku : Bytes) (p : PriceResponse) : Type 0 where
  pub asked : p.sku ≡ sku
  pub currency : is_empty p.currency ≡ false
  pub state :
      ((p.state ≡ state_settled) × IsPositive p.unit_price_cents) ⊎ (p.state ≡ state_repricing)

pub states_differ : text_eq state_repricing state_settled ≡ false
unfolding text_eq codes
states_differ = refl

check_price_sound :
    (sku : Bytes) (p q : PriceResponse) → check_price sku p ≡ inr q → (p ≡ q) × IsPrice sku p
unfolding check_price
check_price_sound sku p q h = (
  ground arith,
  record {
    asked = (text_eq_iff _ _).0 (ground arith);
    currency = ground arith;
    state = elim (Bool-cases (text_eq p.state state_settled)) [
      | inl e ↦ inl ((text_eq_iff _ _).0 e, (not_positive_iff p.unit_price_cents).0 (ground arith))
      | inr e ↦ inr ((text_eq_iff _ _).0 (ground arith))
    ];
  },
)

check_price_complete : (sku : Bytes) (p : PriceResponse) → IsPrice sku p → check_price sku p ≡ inr p
unfolding check_price
check_price_complete sku p h = elim h.state [
  | inl (settled, positive) ↦ ground (
    arith,
    text_eq_iff p.sku sku,
    h.asked,
    h.currency,
    text_eq_iff p.state state_settled,
    (not_positive_iff p.unit_price_cents).1 positive,
  )
  | inr repricing ↦ ground (
    arith,
    text_eq_iff p.sku sku,
    h.asked,
    h.currency,
    text_eq_iff p.state state_repricing,
    states_differ,
  )
]

-- `fetchPrice` gives a price exactly when the dependency answered 200 with a document of this price,
-- and the price is for the SKU, has a currency, and is settled above zero or in repricing.
pub fetch_price_iff :
    (sku : Bytes) (a : Attempt) (p : PriceResponse)
    → (fetch_price sku a ≡ inr p) ↔ ((a ≡ priced 200 (inr p)) × IsPrice sku p)
unfolding fetch_price
fetch_price_iff sku (not_built err) p = (λ h. cc h, λ h. cc h.0)
fetch_price_iff sku (not_called err) p = (λ h. cc h, λ h. cc h.0)
fetch_price_iff sku (priced status (inl err)) p = (λ h. ground arith, λ h. cc h.0)
fetch_price_iff sku (priced status (inr q)) p = (
  λ h.
      let ok : status ≡ 200 = ground arith in
      let (same, v) : (q ≡ p) × IsPrice sku q = check_price_sound sku q p (ground arith) in
      (rw (ok, same) refl, subst (λ x. IsPrice sku x) same v),
  λ (e, v).
      let ok : status ≡ 200 = cc e in
      let same : q ≡ p = cc e in rw (ok, same) (check_price_complete sku p v),
)
