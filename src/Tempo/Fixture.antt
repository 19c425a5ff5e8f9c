-- ===== src/Tempo/Fixture.antt =====
-- The catalog view of labs/tempo over the inventory of labs/tempo/cmd/inventory/main.go.
use mock_lab.Common.{
  ℕ, suc, ◌+◌, ◌*◌, ◌%◌, ◌^◌, ◌≡◌, ◌≢◌, ◌≤◌, ◌<◌, refl, ap, ap₂, ◌∙◌, inl, inr, true, not, List, [],
  ◌∷◌, ◌++◌, Option, none, some, map, length, length-map, ltb, ◌==◌, All, All-imp, All-map,
  all-of_All, All-of_all, if◌then◌else◌, arith,
}
use mock_lab.Common.Text.{
  Bytes, codes, text_eq, text_eq_refl, is_empty, is_space, trim_space_id, cut_prefix,
  cut_prefix-append,
}
use mock_lab.Common.Hex.{IsByte}
use mock_lab.Common.Decimal.{decimal, decimal_injective}
use mock_lab.Common.Int.{pos}
use mock_lab.Common.Integer.{
  is_digit, decimal-digits, parse_int-decimal, of_word, of_word_small, word_of_small,
}
use mock_lab.Common.Url.{escapes_in_path}
use mock_lab.Tempo.{
  InventoryItem, Found, Span, Body, not_called, found, Base, Inventory, endpoint_path, check_found,
  fetch_inventory, catalog_handler, decode_catalog_request, quantity_for, inventory_handler,
  path_value, shown,
}
use mock_lab.Tempo.Request.{Distinct, IsNamed, decode_catalog_request_iff}
use mock_lab.Tempo.Build.{AreFound, Fails, count_available, sum_words, counted, build_lem}
use mock_lab.Tempo.Lookup.{IsSegment, is_plain, path_value-endpoint_path}

-- What the client gets from the inventory at an origin.
abbrev pub answer_of : Option InventoryItem → Found
answer_of none = found 404 (codes "404 Not Found") (inl (codes "no JSON"))
answer_of (some item) = found 200 (codes "200 OK") (inr item)

pub served : Bytes → Inventory
served origin calls url = elim (cut_prefix origin url) [
  | none ↦ not_called (codes "no such host")
  | some path ↦ elim (path_value path) [
    | none ↦ answer_of none
    | some id ↦ answer_of (inventory_handler id)
  ]
]

abbrev pub sku : ℕ → Bytes
sku n = codes "sku-" ++ decimal n

abbrev pub stock : ℕ → ℕ
stock n = n * 7 % 23

-- What the inventory has of a number from 1 to 999.
abbrev pub item_of : ℕ → InventoryItem
item_of n = record { product_id = sku n; available = ltb 0 (stock n); quantity = pos (stock n) }

-- A digit is a byte that neither escapes nor is white space.
abbrev IsGood : ℕ → Type 0
IsGood c = IsByte c × (not (escapes_in_path c) ≡ true) × (not (is_space c) ≡ true)

digit-IsGood : (c : ℕ) → is_digit c ≡ true → IsGood c
unfolding escapes_in_path
digit-IsGood c h = (ground arith, ground arith, ground arith)

sku-IsGood : (n : ℕ) → All IsGood (sku n)
unfolding codes
sku-IsGood n = (
  unfold escapes_in_path in (omega arith, refl, refl),
  (
    unfold escapes_in_path in (omega arith, refl, refl),
    (
      unfold escapes_in_path in (omega arith, refl, refl),
      (
        unfold escapes_in_path in (omega arith, refl, refl),
        All-of_all IsGood is_digit digit-IsGood (decimal n) (decimal-digits n),
      ),
    ),
  ),
)

sku-IsSegment : (n : ℕ) → IsSegment (sku n)
unfolding codes text_eq
sku-IsSegment n = record {
  bytes = All-imp IsGood IsByte (λ c h. h.0) (sku n) (sku-IsGood n);
  full = refl;
  not_dot = refl;
  not_dots = refl;
}

sku-is_plain : (n : ℕ) → is_plain (sku n) ≡ true
sku-is_plain n =
    all-of_All (λ c. not (escapes_in_path c)) (sku n)
      (All-imp IsGood (λ c. not (escapes_in_path c) ≡ true) (λ c h. h.1) (sku n) (sku-IsGood n))

sku-IsNamed : (n : ℕ) → IsNamed (sku n)
sku-IsNamed n =
    ap is_empty (
      trim_space_id (sku n) (
        all-of_All (λ c. not (is_space c)) (sku n)
          (All-imp IsGood (λ c. not (is_space c) ≡ true) (λ c h. h.2) (sku n) (sku-IsGood n))))
    ∙ (unfold codes in refl)

sku_injective : (m n : ℕ) → sku m ≡ sku n → m ≡ n
unfolding codes
sku_injective m n e = decimal_injective m n (cc e)

-- A number of a product that the inventory knows.
abbrev pub IsNumber : ℕ → Type 0
IsNumber n = (1 ≤ n) × (n ≤ 999)

quantity_for-sku : (n : ℕ) → IsNumber n → quantity_for (sku n) ≡ some (stock n)
unfolding quantity_for
quantity_for-sku n (least, most) =
    rw
      (
        quantity_for,
        cut_prefix-append (codes "sku-") (decimal n),
        parse_int-decimal n (omega arith),
      )
      (ground arith)

inventory_handler-sku : (n : ℕ) → IsNumber n → inventory_handler (sku n) ≡ some (item_of n)
unfolding inventory_handler
inventory_handler-sku n h = rw (inventory_handler, quantity_for-sku n h) refl

abbrev pub sum_stock : List ℕ → ℕ
sum_stock [] = 0
sum_stock (n ∷ ns) = stock n + sum_stock ns

abbrev pub count_stock : List ℕ → ℕ
count_stock [] = 0
count_stock (n ∷ ns) = (if stock n == 0 then 0 else 1) + count_stock ns

sum_words-item_of : (ns : List ℕ) → sum_words (map item_of ns) ≡ sum_stock ns
sum_words-item_of [] = refl
sum_words-item_of (n ∷ ns) =
    omega (arith, word_of_small (stock n) (omega arith), sum_words-item_of ns)

count_available-item_of : (ns : List ℕ) → count_available (map item_of ns) ≡ count_stock ns
count_available-item_of [] = refl
count_available-item_of (n ∷ ns) = ground (arith, count_available-item_of ns)

sum_stock_bound : (ns : List ℕ) → sum_stock ns ≤ 22 * length ns
sum_stock_bound [] = omega arith
sum_stock_bound (n ∷ ns) = omega (arith, sum_stock_bound ns)

-- The numbers are all different.
abbrev pub Differ : List ℕ → Type 0
Differ [] = Unit
Differ (n ∷ ns) = All (λ m. n ≢ m) ns × Differ ns

Differ-Distinct : (ns : List ℕ) → Differ ns → Distinct (map sku ns)
Differ-Distinct [] h = tt
Differ-Distinct (n ∷ ns) (d, h) = (
  All-map (λ id. sku n ≢ id) sku ns
      (All-imp (λ m. n ≢ m) (λ m. sku n ≢ sku m) (λ m ne e. ne (sku_injective n m e)) ns d),
  Differ-Distinct ns h,
)

All-IsNamed : (ns : List ℕ) → All IsNamed (map sku ns)
All-IsNamed [] = tt
All-IsNamed (n ∷ ns) = (sku-IsNamed n, All-IsNamed ns)

module _ (origin : Bytes) where
  abbrev pub base : Base
  base = record { origin = origin; path = [] }

  fetch_inventory-sku :
      (k n : ℕ) → IsNumber n → (fetch_inventory (served origin) base k (sku n)).0 ≡ inr (item_of n)
  unfolding fetch_inventory served
  fetch_inventory-sku k n h =
      let asked : path_value (endpoint_path [] (sku n)) ≡ some (sku n) =
        (path_value-endpoint_path (sku n) (sku-IsSegment n)).1.1 (sku-is_plain n) in
      let answer : served origin k (origin ++ endpoint_path [] (sku n))
          ≡ answer_of (some (item_of n)) =
        rw
          (
            served,
            cut_prefix-append origin (endpoint_path [] (sku n)),
            asked,
            inventory_handler-sku n h,
          )
          refl in
      let checked : check_found (sku n) (answer_of (some (item_of n))) ≡ inr (item_of n) =
        unfold check_found in rw (text_eq_refl (sku n)) refl in
      rw (fetch_inventory, answer, checked) refl

  AreFound-items :
      (k : ℕ) (ns : List ℕ) (items : List InventoryItem)
      → All IsNumber ns
      → AreFound (served origin) base k (map sku ns) items
      → items ≡ map item_of ns
  AreFound-items k [] [] _ h = refl
  AreFound-items k (n ∷ ns) (item ∷ items) (v, vs) (f, h) =
      let same : item ≡ item_of n = cc (f, fetch_inventory-sku k n v) in
      ap₂ ◌∷◌ same (AreFound-items (suc k) ns items vs h)
  AreFound-items k [] (item ∷ items) _ h = absurd h
  AreFound-items k (n ∷ ns) [] _ h = absurd h

  -- A product in the middle of such products is one of them.
  sku_within :
      (ns : List ℕ) (before : List Bytes) (id : Bytes) (after : List Bytes)
      → All IsNumber ns
      → map sku ns ≡ before ++ id ∷ after
      → (n : ℕ) × IsNumber n × (id ≡ sku n)
  sku_within [] [] id after _ e = absurd (cc)
  sku_within [] (b ∷ before) id after _ e = absurd (cc)
  sku_within (n ∷ ns) [] id after (v, vs) e = (n, v, cc e)
  sku_within (n ∷ ns) (b ∷ before) id after (v, vs) e = sku_within ns before id after vs (cc e)

  no_failure :
      (ns : List ℕ) (err : Bytes)
      → All IsNumber ns
      → ¬ ((spans : List Span) × Fails (served origin) base 0 (map sku ns) err spans)
  no_failure ns err vs (spans, fails) =
      let (n, v, e) = sku_within ns fails.before fails.id fails.after vs fails.order in
      let known =
        ap (λ i. (fetch_inventory (served origin) base (0 + length fails.before) i).0) e
        ∙ fetch_inventory-sku (0 + length fails.before) n v in
      cc (known, fails.error)

  -- The catalog view over the inventory of the lab, without a path in its URL: a body with the IDs
  -- "sku-1" to "sku-999", 1 to 20 of them and all different, is answered with the items in this order,
  -- of which each has seven times its number, modulo 23, their number, the number of those that are
  -- there, and the sum.
  pub catalog_handler-served :
      (ns : List ℕ)
      → 1 ≤ length ns
      → length ns ≤ 20
      → All IsNumber ns
      → Differ ns
      → (catalog_handler (served origin) base (record { first = inr (map sku ns); ends = true })).0
        ≡ shown (record {
          items = map item_of ns;
          requested_items = length ns;
          available_items = count_stock ns;
          total_quantity = pos (sum_stock ns);
        })
  unfolding catalog_handler
  catalog_handler-served ns least most vs differ =
      let body : Body = record { first = inr (map sku ns); ends = true } in
      let accepted : decode_catalog_request body ≡ inr (map sku ns) =
        (decode_catalog_request_iff body (map sku ns)).1 (record {
          decoded = refl;
          alone = refl;
          least = omega (arith, length-map sku ns);
          most = omega (arith, length-map sku ns);
          named = All-IsNamed ns;
          distinct = Differ-Distinct ns differ;
        }) in
      elim (build_lem (served origin) base (map sku ns)) [
        | inl (err, e, fails) ↦ absurd (no_failure ns err vs (_, fails))
        | inr (items, e, are, size, traced) ↦
            let same : items ≡ map item_of ns = AreFound-items 0 ns items vs are in
            let small : sum_stock ns < 2 ^ 63 = omega (arith, sum_stock_bound ns, most) in
            let total : of_word (sum_words items % 2 ^ 64) ≡ pos (sum_stock ns) =
              ap (λ i. of_word (sum_words i % 2 ^ 64)) same
              ∙ ap of_word (omega (arith, sum_words-item_of ns, small))
              ∙ of_word_small (sum_stock ns) small in
            let result : counted items ≡ record {
              items = map item_of ns;
              requested_items = length ns;
              available_items = count_stock ns;
              total_quantity = pos (sum_stock ns);
            } =
              λ i. record {
                items = same i;
                requested_items = (size ∙ length-map sku ns) i;
                available_items = (ap count_available same ∙ count_available-item_of ns) i;
                total_quantity = total i;
              } in
            rw (catalog_handler, accepted, e) (ap shown result)
      ]
