-- ===== src/Shop/Total.antt =====
-- What `createOrder` stores, and what an order can cost.
use mock_lab.Common.{
  ℕ, suc, ◌+◌, ◌*◌, ◌^◌, ◌≡◌, ◌≤◌, ◌<◌, All, ◌⊎◌, inl, inr, refl, sym, ap₂, ◌∙◌, List, [], ◌∷◌,
  ◌++◌, Option, length, append_assoc, append-nil, arith,
}
use native.Mathlib.Nat.{mul-le-mul}
use mock_lab.Common.Text.{Bytes, codes}
use mock_lab.Common.Float.{Float}
use mock_lab.Common.Json.{Json}
use mock_lab.Common.Http.{Response}
use mock_lab.Shop.{
  UpstreamError, unknown_project, catalog_unavailable, Project, price_cents, decode_got,
  project_path, Line, write_error, RequestItem,
}
use mock_lab.Shop.Handlers.{Upstream, price_items}
use mock_lab.Shop.Request.{AreItems}

abbrev pub sum_lines : List Line → ℕ
sum_lines [] = 0
sum_lines (l ∷ lines) = l.quantity * l.unit_price_cents + sum_lines lines

-- What the columns of 32 bits hold without a sign.
abbrev pub Fits : Line → Type 0
Fits l = (l.quantity < 2 ^ 31) × (l.unit_price_cents < 2 ^ 31)

price_cents_bound : (maturity : Bytes) → price_cents maturity ≤ 1200
unfolding price_cents
price_cents_bound maturity = ground arith

line_bound : (q u : ℕ) → q ≤ 99 → u ≤ 1200 → q * u ≤ 99 * 1200
line_bound q u h k = mul-le-mul h k

module _ (upstream : Upstream) where
  -- The line of an item, by the project that call number `k` brings back.
  pub record IsLine (k : ℕ) (it : RequestItem) (l : Line) : Type 0 where
    pub project : Project
    pub fetched : decode_got (upstream k (project_path it.project_id)) ≡ inr project
    pub project_id : l.project_id ≡ it.project_id
    pub name : l.name ≡ project.name
    pub quantity : l.quantity ≡ it.quantity
    pub price : l.unit_price_cents ≡ price_cents project.maturity

  abbrev pub AreLines : ℕ → List RequestItem → List Line → Type 0
  AreLines k [] [] = Unit
  AreLines k (it ∷ items) (l ∷ lines) = IsLine k it l × AreLines (suc k) items lines
  AreLines k _ _ = ⊥

  Up-cases :
      (x : UpstreamError ⊎ Project)
      → (x ≡ inl unknown_project) ⊎ (x ≡ inl catalog_unavailable) ⊎ ((p : Project) × (x ≡ inr p))
  Up-cases (inl unknown_project) = inl refl
  Up-cases (inl catalog_unavailable) = inr (inl refl)
  Up-cases (inr p) = inr (inr (p, refl))

  pub price_items_lem :
      (items : List RequestItem) (k total : ℕ) (lines : List Line)
      → ((response : Response) × (price_items upstream k total lines items ≡ inl response)
          × ((response.status ≡ 422) ⊎ (response.status ≡ 502)))
        ⊎ ((more : List Line) × (price_items upstream k total lines items
              ≡ inr (total + sum_lines more, lines ++ more))
            × AreLines k items more)
  unfolding price_items
  price_items_lem [] k total lines =
      inr ([], ap₂ (λ t ls. inr (t, ls)) (omega arith) (sym (append-nil lines)), tt)
  price_items_lem (it ∷ items) k total lines =
      elim (Up-cases (decode_got (upstream k (project_path it.project_id)))) [
        | inl e ↦ inl (
          write_error 422 (codes "unknown project: " ++ it.project_id),
          rw (price_items, e) refl,
          inl refl,
        )
        | inr (inl e) ↦
            inl (write_error 502 (codes "catalog unavailable"), rw (price_items, e) refl, inr refl)
        | inr (inr (p, e)) ↦
            let price = price_cents p.maturity in
            let l : Line = record {
              project_id = it.project_id;
              name = p.name;
              quantity = it.quantity;
              unit_price_cents = price;
            } in
            let same : price_items upstream k total lines (it ∷ items)
                ≡ price_items upstream (suc k) (total + it.quantity * price) (lines ++ l ∷ [])
                    items =
              rw (price_items, e) refl in
            elim (price_items_lem items (suc k) (total + it.quantity * price) (lines ++ l ∷ [])) [
              | inl (response, stop, status) ↦ inl (response, same ∙ stop, status)
              | inr (more, go, h) ↦ inr (
                l ∷ more,
                same
                    ∙ go
                    ∙ ap₂ (λ t ls. inr (t, ls)) (omega arith) (append_assoc lines (l ∷ []) more),
                (
                  record {
                    project = p;
                    fetched = e;
                    project_id = refl;
                    name = refl;
                    quantity = refl;
                    price = refl;
                  },
                  h,
                ),
              )
            ]
      ]

  pub sum_lines-bound :
      (parse_float : Bytes → Option Float) (raws : List Json) (items : List RequestItem) (k : ℕ)
      (lines : List Line)
      → AreItems parse_float raws items
      → AreLines k items lines
      → sum_lines lines ≤ 118_800 * length raws
  sum_lines-bound parse_float [] [] k [] a h = omega arith
  sum_lines-bound parse_float (raw ∷ raws) (it ∷ items) k (l ∷ lines) (a, rest) (p, h) =
      let one : l.quantity * l.unit_price_cents ≤ 99 * 1200 =
        line_bound l.quantity l.unit_price_cents (omega (arith, p.quantity, a.most))
          (omega (arith, p.price, price_cents_bound p.project.maturity)) in
      omega (arith, one, sum_lines-bound parse_float raws items (suc k) lines rest h)
  sum_lines-bound parse_float [] (it ∷ items) k lines a h = absurd a
  sum_lines-bound parse_float (raw ∷ raws) [] k lines a h = absurd a
  sum_lines-bound parse_float [] [] k (l ∷ lines) a h = absurd h
  sum_lines-bound parse_float (raw ∷ raws) (it ∷ items) k [] a h = absurd h

  pub AreLines-Fits :
      (parse_float : Bytes → Option Float) (raws : List Json) (items : List RequestItem) (k : ℕ)
      (lines : List Line)
      → AreItems parse_float raws items
      → AreLines k items lines
      → All Fits lines
  AreLines-Fits parse_float raws [] k [] a h = tt
  AreLines-Fits parse_float (raw ∷ raws) (it ∷ items) k (l ∷ lines) (a, rest) (p, h) = (
    (
      omega (arith, p.quantity, a.most),
      omega (arith, p.price, price_cents_bound p.project.maturity),
    ),
    AreLines-Fits parse_float raws items (suc k) lines rest h,
  )
  AreLines-Fits parse_float [] (it ∷ items) k lines a h = absurd a
  AreLines-Fits parse_float raws [] k (l ∷ lines) a h = absurd h
  AreLines-Fits parse_float (raw ∷ raws) (it ∷ items) k [] a h = absurd h
