-- ===== src/Tempo/Build.antt =====
-- Build of labs/tempo/internal/catalog/catalog.go: one lookup for each product, in order.
use mock_lab.Common.{
  ℕ, suc, ◌+◌, ◌%◌, ◌^◌, ◌≡◌, ◌<◌, ◌⊎◌, refl, sym, ap, ap₂, ◌∙◌, inl, inr, List, [], ◌∷◌, ◌++◌,
  length, map, if◌then◌else◌, arith,
}
use mock_lab.Common.Text.{Bytes}
use mock_lab.Common.Int.{pos}
use mock_lab.Common.Integer.{of_word, word_of, add_int64, add_int64-of_word, of_word_small}
use mock_lab.Tempo.{
  InventoryItem, Result, Span, Base, Inventory, fetch_inventory, fetch_all, tally, build,
}

abbrev pub products : List Span → List Bytes
products spans = map (λ s. s.product) spans

abbrev pub count_available : List InventoryItem → ℕ
count_available [] = 0
count_available (item ∷ items) = (if item.available then 1 else 0) + count_available items

-- The sum of the quantities, as patterns of 64 bits without their wrap-around.
abbrev pub sum_words : List InventoryItem → ℕ
sum_words [] = 0
sum_words (item ∷ items) = word_of item.quantity + sum_words items

-- The counts of a catalog of these items.
abbrev pub counted : List InventoryItem → Result
counted items = record {
  items = items;
  requested_items = length items;
  available_items = count_available items;
  total_quantity = of_word (sum_words items % 2 ^ 64);
}

tally_lem :
    (r : Result) (items : List InventoryItem) (w : ℕ)
    → w < 2 ^ 64
    → r.total_quantity ≡ of_word w
    → tally r items ≡ record r {
      available_items = r.available_items + count_available items;
      total_quantity = of_word ((w + sum_words items) % 2 ^ 64);
    }
unfolding tally
tally_lem r [] w h e =
    ap₂ (λ a t. record r { available_items = a; total_quantity = t }) (omega arith)
      (e ∙ ap of_word (omega arith))
tally_lem r (item ∷ items) w h e =
    let v : ℕ = (w + word_of item.quantity) % 2 ^ 64 in
    let next : Result = record r {
      available_items = if item.available then suc r.available_items else r.available_items;
      total_quantity = add_int64 r.total_quantity item.quantity;
    } in
    let same : next.total_quantity ≡ of_word v =
      ap (λ t. add_int64 t item.quantity) e ∙ add_int64-of_word w item.quantity h in
    tally_lem next items v (omega arith) same
    ∙ ap₂ (λ a t. record r { available_items = a; total_quantity = t }) (ground arith)
        (ap of_word (omega arith))

Fetched : {A : Type 0} (x : Bytes ⊎ A) → ((err : Bytes) × (x ≡ inl err)) ⊎ ((a : A) × (x ≡ inr a))
Fetched (inl err) = inl (err, refl)
Fetched (inr a) = inr (a, refl)

module _ (inventory : Inventory) (base : Base) where
  -- The items that the lookups from number `k` on bring back, each for its product.
  abbrev pub AreFound : ℕ → List Bytes → List InventoryItem → Type 0
  AreFound k [] [] = Unit
  AreFound k (id ∷ ids) (item ∷ items) =
      ((fetch_inventory inventory base k id).0 ≡ inr item) × AreFound (suc k) ids items
  AreFound k _ _ = ⊥

  -- The first lookup that fails, behind those of `before`.
  pub record Fails (k : ℕ) (ids : List Bytes) (err : Bytes) (spans : List Span) : Type 0 where
    pub before : List Bytes
    pub id : Bytes
    pub after : List Bytes
    pub items : List InventoryItem
    pub order : ids ≡ before ++ id ∷ after
    pub found : AreFound k before items
    pub error : (fetch_inventory inventory base (k + length before) id).0 ≡ inl err
    pub traced : products spans ≡ before ++ id ∷ []

  pub length-AreFound :
      (k : ℕ) (ids : List Bytes) (items : List InventoryItem)
      → AreFound k ids items
      → length items ≡ length ids
  length-AreFound k [] [] h = refl
  length-AreFound k (id ∷ ids) (item ∷ items) (_, h) = ap suc (length-AreFound (suc k) ids items h)
  length-AreFound k [] (item ∷ items) h = absurd h
  length-AreFound k (id ∷ ids) [] h = absurd h

  fetch_inventory-product :
      (k : ℕ) (id : Bytes) → (fetch_inventory inventory base k id).1.product ≡ id
  unfolding fetch_inventory
  fetch_inventory-product k id = ground arith

  fetch_all_lem :
      (k : ℕ) (ids : List Bytes)
      → let (r, spans) = fetch_all inventory base k ids in
        ((err : Bytes) × (r ≡ inl err) × Fails k ids err spans)
        ⊎ ((items : List InventoryItem) × (r ≡ inr items)
            × AreFound k ids items
            × (products spans ≡ ids))
  unfolding fetch_all
  fetch_all_lem k [] = inr ([], refl, tt, refl)
  fetch_all_lem k (id ∷ ids) =
      let x = fetch_inventory inventory base k id in
      let product = fetch_inventory-product k id in
      let y = fetch_all inventory base (suc k) ids in
      elim (Fetched x.0) [
        | inl (err, e) ↦
            rw (fetch_all, e)
              (inl (
                err,
                refl,
                record {
                  before = [];
                  id = id;
                  after = ids;
                  items = [];
                  order = refl;
                  found = tt;
                  error = ap (λ n. (fetch_inventory inventory base n id).0) (omega arith) ∙ e;
                  traced = ap (λ p. p ∷ []) product;
                },
              ))
        | inr (item, e) ↦ elim (fetch_all_lem (suc k) ids) [
          | inl (err, f, fails) ↦
              rw (fetch_all, e, f)
                (inl (
                  err,
                  refl,
                  record {
                    before = id ∷ fails.before;
                    id = fails.id;
                    after = fails.after;
                    items = item ∷ fails.items;
                    order = ap (λ l. id ∷ l) fails.order;
                    found = (e, fails.found);
                    error =
                        ap (λ n. (fetch_inventory inventory base n fails.id).0) (omega arith)
                        ∙ fails.error;
                    traced = ap₂ ◌∷◌ product fails.traced;
                  },
                ))
          | inr (items, f, found, traced) ↦
              rw (fetch_all, e, f) (inr (item ∷ items, refl, (e, found), ap₂ ◌∷◌ product traced))
        ]
      ]

  -- `Build` looks the products up one by one, in order, with a span for each. If one lookup fails,
  -- the lookups before it have brought their items back, those behind it are not made, and its error is
  -- the result. Otherwise the result has the items in the order of the products, their number, the
  -- number of those that are available, and the sum of the quantities in 64 bits.
  pub build_lem :
      (ids : List Bytes)
      → let (r, spans) = build inventory base ids in
        ((err : Bytes) × (r ≡ inl err) × Fails 0 ids err spans)
        ⊎ ((items : List InventoryItem) × (r ≡ inr (counted items))
            × AreFound 0 ids items
            × (length items ≡ length ids)
            × (products spans ≡ ids))
  unfolding build
  build_lem ids = elim (fetch_all_lem 0 ids) [
    | inl (err, e, fails) ↦ rw (build, e) (inl (err, refl, fails))
    | inr (items, e, found, traced) ↦
        let start : Result = record {
          items = items;
          requested_items = length items;
          available_items = 0;
          total_quantity = pos 0;
        } in
        let sums : tally start items ≡ counted items =
          tally_lem start items 0 (omega arith) (sym (of_word_small 0 (omega arith)))
          ∙ ap₂ (λ a w. record start { available_items = a; total_quantity = of_word (w % 2 ^ 64) })
              (omega arith) (omega arith) in
        rw (build, e) (inr (items, ap inr sums, found, length-AreFound 0 ids items found, traced))
  ]
