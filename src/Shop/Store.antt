-- ===== src/Shop/Store.antt =====
-- The orders that `createOrder` stores, and how they are read back.
use mock_lab.Common.{ℕ, ◌≡◌, ◌≤◌, ◌⊎◌, inl, inr, refl, ap, ◌∙◌, List, [], Option, none, some, arith}
use mock_lab.Common.Text.{Bytes, codes}
use mock_lab.Common.Float.{Float}
use mock_lab.Common.Json.{Json}
use mock_lab.Common.Http.{Response}
use mock_lab.Shop.{
  Line, StoreError, StoreOf, App, write_json, internal_error, OrderRequest, parse_order_request,
}
use mock_lab.Shop.Handlers.{Upstream, price_items, place_order, create_order, order_object}
use mock_lab.Shop.Request.{IsRequest, parse_order_request_iff}
use mock_lab.Shop.Total.{sum_lines, AreLines, price_items_lem, sum_lines-bound}

-- Refused by a status of the client's or the catalog's fault.
abbrev pub IsRefusal : Response → Type 0
IsRefusal r = (r.status ≡ 400) ⊎ (r.status ≡ 422) ⊎ (r.status ≡ 502)

module _ {S : Type 0} (store : StoreOf S) (app : App) (parse_float : Bytes → Option Float)
    (upstream : Upstream) where
  -- A body that asks for an order, with the lines and the total that are stored for it.
  pub record IsPlaced (body : Option (Option Json)) (req : OrderRequest) (lines : List Line)
      : Type 0 where
    pub document : Option Json
    pub read : body ≡ some document
    pub request : IsRequest parse_float document req
    pub priced : AreLines upstream 0 req.items lines
    pub bound : sum_lines lines ≤ 1_188_000

  -- The answer, by what the store made of the order.
  abbrev pub answer_of : Bytes → OrderRequest → List Line → StoreError ⊎ ℕ → Response
  answer_of id req lines (inl err) = internal_error
  answer_of id req lines (inr created_at) =
      write_json 201
        (order_object app id req.customer (codes "placed") lines (sum_lines lines) created_at)

  place_order_lem :
      (id : Bytes) (document : Option Json) (req : OrderRequest) (s : S)
      → IsRequest parse_float document req
      → let (s', response) = place_order store app upstream id req s in
        ((s' ≡ s) × IsRefusal response)
        ⊎ ((lines : List Line) × IsPlaced (some document) req lines
            × (s' ≡ (store.create_order id req.customer (sum_lines lines) lines s).0)
            × (response
                ≡ answer_of id req lines
                    (store.create_order id req.customer (sum_lines lines) lines s).1))
  unfolding place_order
  place_order_lem id document req s r = elim (price_items_lem upstream req.items 0 0 []) [
    | inl (response, stop, status) ↦
        inl (rw (place_order, stop) refl, rw (place_order, stop) (inr status))
    | inr (lines, go, h) ↦
        let priced : price_items upstream 0 0 [] req.items ≡ inr (sum_lines lines, lines) =
          go ∙ ap (λ t. inr (t, lines)) (omega arith) in
        inr (
          lines,
          record {
            document = document;
            read = refl;
            request = r;
            priced = h;
            bound = omega (
              arith,
              sum_lines-bound upstream parse_float r.raws req.items 0 lines r.items h,
              r.most,
            );
          },
          rw (place_order, priced) refl,
          rw (place_order, priced)
              (created (store.create_order id req.customer (sum_lines lines) lines s).1 lines),
        )
  ]
    where
      created :
          (c : StoreError ⊎ ℕ) (lines : List Line)
          → (elim c [
            | inl err ↦ internal_error
            | inr created_at ↦ write_json 201 (
                order_object app id req.customer
                  (codes "placed")
                  lines
                  (sum_lines lines)
                  created_at)
          ])
            ≡ answer_of id req lines c
      created (inl err) lines = refl
      created (inr t) lines = refl

  -- `createOrder` either refuses the body, with the status 400, 422 or 502, and stores nothing; or the
  -- body is a valid request, whose items are priced one by one by the projects that the calls bring
  -- back, and the order is stored with these lines and their sum, which is at most 11880.00; the answer
  -- is then 201 with the order, or 500 if the store fails.
  pub create_order_lem :
      (id : Bytes) (body : Option (Option Json)) (s : S)
      → let (s', response) = create_order store app parse_float upstream id body s in
        ((s' ≡ s) × IsRefusal response)
        ⊎ ((req : OrderRequest) × (lines : List Line) × IsPlaced body req lines
            × (s' ≡ (store.create_order id req.customer (sum_lines lines) lines s).0)
            × (response
                ≡ answer_of id req lines
                    (store.create_order id req.customer (sum_lines lines) lines s).1))
  unfolding create_order
  create_order_lem id none s = inl (refl, inl refl)
  create_order_lem id (some document) s = elim (Parsed (parse_order_request parse_float document)) [
    | inl (msg, e) ↦ inl (rw (create_order, e) refl, rw (create_order, e) (inl refl))
    | inr (req, e) ↦
        let r = (parse_order_request_iff parse_float document req).0 e in
        elim (place_order_lem id document req s r) [
          | inl (same, refused) ↦ inl (rw (create_order, e) same, rw (create_order, e) refused)
          | inr (lines, placed, stored, answer) ↦
              inr (req, lines, placed, rw (create_order, e) stored, rw (create_order, e) answer)
        ]
  ]
    where
      Parsed :
          (x : Bytes ⊎ OrderRequest)
          → ((msg : Bytes) × (x ≡ inl msg)) ⊎ ((req : OrderRequest) × (x ≡ inr req))
      Parsed (inl msg) = inl (msg, refl)
      Parsed (inr req) = inr (req, refl)
