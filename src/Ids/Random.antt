-- ===== src/Ids/Random.antt =====
-- The identifiers without a time: they lose none of their random bytes.
use mathlib.Core.List.{append_cancel_left}
use mock_lab.Common.{ℕ, zero, suc, ◌≡◌, refl, [], ◌++◌, take, drop, length}
use mock_lab.Common.Text.{Bytes}
use mock_lab.Common.Hex.{hex, hex_injective, IsByte, IsBytes}
use mock_lab.Ids.{slice, rand_id, event_id, new_order_id}

slice-IsBytes : (b : ℕ → ℕ) (i n : ℕ) → ((j : ℕ) → IsByte (b j)) → IsBytes (slice i n b)
slice-IsBytes b i zero h = tt
slice-IsBytes b i (suc n) h = (h i, slice-IsBytes b (suc i) n h)

-- Two identifiers of one prefix and length are equal only if their random bytes are.
pub rand_id_injective :
    (prefix : Bytes) (n : ℕ) (b c : ℕ → ℕ)
    → ((j : ℕ) → IsByte (b j))
    → ((j : ℕ) → IsByte (c j))
    → rand_id prefix n b ≡ rand_id prefix n c
    → slice 0 n b ≡ slice 0 n c
unfolding rand_id
rand_id_injective prefix n b c hb hc e =
    hex_injective _ _ (slice-IsBytes b 0 n hb) (slice-IsBytes c 0 n hc)
      (append_cancel_left prefix _ _ e)

-- The five groups of an identifier in UUID shape.
abbrev pub groups : Bytes → Bytes
groups u =
    take 8 u ++ take 4 (drop 9 u) ++ take 4 (drop 14 u) ++ take 4 (drop 19 u) ++ take 12 (drop 24 u)

-- `newOrderID` shapes its hexadecimal text as `trackEvent` does: 36 characters, whose groups spell
-- the text of the sixteen random bytes again.
pub new_order_id_lem :
    (b : ℕ → ℕ)
    → (new_order_id b ≡ event_id (rand_id [] 16 b))
      × (length (new_order_id b) ≡ 36)
      × (groups (new_order_id b) ≡ rand_id [] 16 b)
unfolding new_order_id event_id rand_id hex
new_order_id_lem b = (refl, refl, refl)
