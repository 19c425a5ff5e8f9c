-- ===== src/Shop/Quantity.antt =====
-- `integerValue` of tutorial/go/handlers.go, on the quantity of an item.
use mock_lab.Common.{
  ℕ, ◌≡◌, ◌≤◌, inl, inr, refl, sym, ap, ◌∙◌, zero, suc, ◌*◌, ◌^◌, ==_iff, Bool-cases, true, false,
  Option, none, some, arith, Option-cases,
}
use mock_lab.Common.Text.{Bytes}
use mock_lab.Common.Float.{
  Float, trunc, is_trunc, exceeds, negated, int_of, IsNatural, trunc-IsNatural, exceeds-IsNatural,
}
use mock_lab.Common.Int.{pos}
use mock_lab.Common.Json.{Json, obj, null, bool, number, int, str, arr}
use mock_lab.Shop.{integer_value}

module _ (parse_float : Bytes → Option Float) where
  -- A number of the document that reads as the natural number `n`, exactly.
  pub record IsQuantity (v : Option Json) (n : ℕ) : Type 0 where
    pub literal : Bytes
    pub given : v ≡ some (number literal)
    pub float : Float
    pub read : parse_float literal ≡ some float
    pub natural : IsNatural float n

  int_of_sound : (f : Float) (n : ℕ) → is_trunc f ≡ true → int_of f ≡ pos n → 1 ≤ n → IsNatural f n
  int_of_sound f n whole e least = elim (Bool-cases f.negative) [
    | inl minus ↦ absurd (not_negated (trunc f) (rw minus at e))
    | inr plus ↦
        let same : trunc f ≡ n = cc (rw plus at e) in
        record {
          positive = plus;
          whole =
              (==_iff f.magnitude (trunc f * 2 ^ f.exponent)).0 whole
              ∙ ap (λ m. m * 2 ^ f.exponent) same;
        }
  ]
    where
      not_negated : (m : ℕ) → negated m ≡ pos n → ⊥
      not_negated zero h = absurd (let z : 0 ≡ n = cc h in omega (arith, z, least))
      not_negated (suc m) h = absurd (cc h)

  pub integer_value_sound :
      (v : Option Json) (n : ℕ)
      → integer_value parse_float v ≡ some (pos n)
      → 1 ≤ n
      → IsQuantity v n
  unfolding integer_value
  integer_value_sound (some (number literal)) n h least =
      elim (Option-cases (parse_float literal)) [
        | inl e ↦ absurd (ground (arith, h, e))
        | inr (f, e) ↦
            let whole : is_trunc f ≡ true = ground (arith, h, e) in
            let value : int_of f ≡ pos n = ground (arith, h, e) in
            record {
              literal = literal;
              given = refl;
              float = f;
              read = e;
              natural = int_of_sound f n whole value least;
            }
      ]
  integer_value_sound none n h _ = absurd (cc h)
  integer_value_sound (some null) n h _ = absurd (cc h)
  integer_value_sound (some (bool b)) n h _ = absurd (cc h)
  integer_value_sound (some (int m)) n h _ = absurd (cc h)
  integer_value_sound (some (str t)) n h _ = absurd (cc h)
  integer_value_sound (some (arr vs)) n h _ = absurd (cc h)
  integer_value_sound (some (obj ms)) n h _ = absurd (cc h)

  pub integer_value_complete :
      (v : Option Json) (n : ℕ)
      → IsQuantity v n
      → n ≤ 99
      → integer_value parse_float v ≡ some (pos n)
  unfolding integer_value
  integer_value_complete v n q most =
      let f = q.float in
      let same = trunc-IsNatural f n q.natural in
      let whole : is_trunc f ≡ true =
        (==_iff f.magnitude (trunc f * 2 ^ f.exponent)).1
          (q.natural.whole ∙ ap (λ m. m * 2 ^ f.exponent) (sym same)) in
      let small : exceeds 1_000_000_000 f ≡ false =
        exceeds-IsNatural f n 1_000_000_000 q.natural (omega (arith, most)) in
      let plus = q.natural.positive in
      rw (q.given, integer_value, q.read, whole, small, plus) (ap (λ m. some (pos m)) same)
