-- ===== src/Common/Digits.antt =====
-- Positional numerals: the digits of a number, most significant first, written by an alphabet.
use Prim.Native.Nat.{ℕ, zero, suc, ◌+◌, ◌*◌, ◌/◌, ◌%◌, ◌^◌, ◌≤◌, ◌<◌}
use mathlib.Core.Path.{◌≡◌, refl, ap, sym, ◌∙◌}
use mathlib.Core.Logic.{◌⊎◌, inl, inr}
use mathlib.Core.List.{[], ◌∷◌, ◌++◌, append_assoc}
use native.Mathlib.Omega.{arith}
use native.Mathlib.Nat.{
  pow-zero, pow-suc, le-div_iff_mul-le, div-mul-le_self, div-add-mod', div-lt_iff_lt-mul, mod-lt,
}
use mock_lab.Common.Lists.{length, take}
use mock_lab.Common.Tests.{◌==◌, if◌then◌else◌}
use mock_lab.Common.Text.{Bytes}

-- The order of byte strings: at the first difference the smaller byte, or a proper prefix.
abbrev pub Less : Bytes → Bytes → Type 0
Less s [] = ⊥
Less [] (d ∷ t) = Unit
Less (c ∷ s) (d ∷ t) = (c < d) ⊎ ((c ≡ d) × Less s t)

-- The number that a numeral stands for behind `acc`, by the values of its characters.
abbrev pub decode : ℕ → (ℕ → ℕ) → ℕ → Bytes → ℕ
decode base value acc [] = acc
decode base value acc (c ∷ s) = decode base value (acc * base + value c) s

take-prefix : (s t : Bytes) (k : ℕ) → length s ≡ k → take k (s ++ t) ≡ s
take-prefix [] t zero h = refl
take-prefix [] t (suc k) h = absurd (omega arith)
take-prefix (c ∷ s) t zero h = absurd (omega arith)
take-prefix (c ∷ s) t (suc k) h = ap (λ u. c ∷ u) (take-prefix s t k (omega arith))

-- The place of a character in an alphabet.
abbrev pub index_in : Bytes → ℕ → ℕ
index_in [] c = 0
index_in (d ∷ s) c = let later = suc (index_in s c) in if c == d then 0 else later

module _ (base : ℕ) (letter : ℕ → ℕ) where
  -- The last `k` digits of `n`, written in front of `rest`.
  unfoldable pub fill : ℕ → ℕ → Bytes → Bytes
  fill zero n rest = rest
  fill (suc k) n rest = fill k (n / base) (letter (n % base) ∷ rest)

  pub fill-append : (k n : ℕ) (rest : Bytes) → fill k n rest ≡ fill k n [] ++ rest
  unfolding fill
  fill-append zero n rest = refl
  fill-append (suc k) n rest =
      fill-append k (n / base) (letter (n % base) ∷ rest)
      ∙ sym (
          ap (λ s. s ++ rest) (fill-append k (n / base) (letter (n % base) ∷ []))
          ∙ append_assoc (fill k (n / base) []) (letter (n % base) ∷ []) rest)

  pub length-fill : (k n : ℕ) (rest : Bytes) → length (fill k n rest) ≡ k + length rest
  unfolding fill
  length-fill zero n rest = omega arith
  length-fill (suc k) n rest = omega (arith, length-fill k (n / base) (letter (n % base) ∷ rest))

  pub take-fill : (k n : ℕ) (rest : Bytes) → take k (fill k n rest) ≡ fill k n []
  take-fill k n rest =
      rw (fill-append k n rest)
        (take-prefix (fill k n []) rest k (omega (arith, length-fill k n [])))

  module _ (positive : 0 < base) where
    div-below : (k n : ℕ) → n < base ^ suc k → n / base < base ^ k
    div-below k n h = (div-lt_iff_lt-mul positive).1 (omega (arith, pow-suc base k))

    -- Reading the digits of a number that fits gives it back.
    pub decode-fill :
        (value : ℕ → ℕ)
        → ((d : ℕ) → d < base → value (letter d) ≡ d)
        → (k n : ℕ) (rest : Bytes) → n < base ^ k
        → decode base value 0 (fill k n rest) ≡ decode base value n rest
    unfolding fill
    decode-fill value inverse zero n rest h = let e : n ≡ 0 = omega (arith, pow-zero base) in rw e
    decode-fill value inverse (suc k) n rest h =
        decode-fill value inverse k (n / base) _ (div-below k n h)
        ∙ ap (λ m. decode base value m rest)
            (omega (arith, inverse (n % base) (mod-lt n positive), div-add-mod' n base))

    digit-split :
        (n m : ℕ) → n < m → (n / base < m / base) ⊎ ((n / base ≡ m / base) × (n % base < m % base))
    digit-split n m h =
        let le : n / base ≤ m / base =
          (le-div_iff_mul-le positive).1 (omega (arith, div-mul-le_self n base)) in
        grind (arith, div-add-mod' n base, div-add-mod' m base)

    -- Of two numbers that fit, the smaller has the smaller numeral, whatever follows.
    pub Less-fill :
        ((c d : ℕ) → c < d → d < base → letter c < letter d)
        → (k n m : ℕ) (s t : Bytes) → m < base ^ k
        → (n < m) ⊎ ((n ≡ m) × Less s t)
        → Less (fill k n s) (fill k m t)
    unfolding fill
    Less-fill rising zero n m s t h c = elim c [
      | inl lt ↦ absurd (omega (arith, pow-zero base))
      | inr (_, less) ↦ less
    ]
    Less-fill rising (suc k) n m s t h c =
        Less-fill rising k (n / base) (m / base) _ _ (div-below k m h) (elim c [
          | inl lt ↦ elim (digit-split n m lt) [
            | inl lower ↦ inl lower
            | inr (same, digit) ↦ inr (same, inl (rising _ _ digit (mod-lt m positive)))
          ]
          | inr (same, less) ↦ rw same (inr (refl, inr (refl, less)))
        ])
