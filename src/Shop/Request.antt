-- ===== src/Shop/Request.antt =====
-- Which bodies `ParseOrderRequest` accepts.
use mock_lab.Common.{
  Sum-cases, ℕ, ◌≡◌, ◌≤◌, ◌↔◌, inl, inr, refl, false, List, [], ◌∷◌, Option, none, some, length,
  ltb, arith, Option-cases,
}
use mock_lab.Common.Text.{Bytes, codes, is_empty}
use mock_lab.Common.Float.{Float}
use mock_lab.Common.Int.{ℤ, pos, negsuc}
use mock_lab.Common.Json.{Json, obj, Members, get, as_string, null, bool, number, int, str, arr}
use mock_lab.Shop.{
  RequestItem, OrderRequest, integer_value, quantity_of, item_members, parse_items, as_list,
  parse_order_request,
}
use mock_lab.Shop.Quantity.{IsQuantity, integer_value_sound, integer_value_complete}

module _ (parse_float : Bytes → Option Float) where
  -- An entry of the document, and the item that it stands for.
  pub record IsItem (raw : Json) (item : RequestItem) : Type 0 where
    pub project_id : as_string (get (codes "project_id") (item_members raw)) ≡ some item.project_id
    pub named : is_empty item.project_id ≡ false
    pub quantity : IsQuantity parse_float (get (codes "quantity") (item_members raw)) item.quantity
    pub least : 1 ≤ item.quantity
    pub most : item.quantity ≤ 99

  abbrev pub AreItems : List Json → List RequestItem → Type 0
  AreItems [] [] = Unit
  AreItems (raw ∷ raws) (item ∷ items) = IsItem raw item × AreItems raws items
  AreItems _ _ = ⊥

  -- A document, and the order that it asks for.
  pub record IsRequest (document : Option Json) (req : OrderRequest) : Type 0 where
    pub members : Members
    pub object : document ≡ some (obj members)
    pub customer : as_string (get (codes "customer") members) ≡ some req.customer
    pub named : is_empty req.customer ≡ false
    pub raws : List Json
    pub listed : as_list (get (codes "items") members) ≡ some raws
    pub least : 1 ≤ length raws
    pub most : length raws ≤ 10
    pub items : AreItems raws req.items

  quantity_of_iff :
      (o : Option ℤ) (n : ℕ) → (quantity_of o ≡ some n) ↔ ((o ≡ some (pos n)) × (1 ≤ n) × (n ≤ 99))
  quantity_of_iff none n = (λ h. cc h, λ h. cc h.0)
  quantity_of_iff (some (pos m)) n =
      (λ h. ground arith, λ (e, least, most). let same : m ≡ n = cc e in ground arith)
  quantity_of_iff (some (negsuc m)) n = (λ h. cc h, λ h. cc h.0)

  parse_items_sound :
      (raws : List Json) (items : List RequestItem)
      → parse_items parse_float raws ≡ inr items
      → AreItems raws items
  unfolding parse_items
  parse_items_sound [] items h = let e : items ≡ [] = cc h in rw e tt
  parse_items_sound (raw ∷ raws) items h =
      let ms = item_members raw in
      elim (Option-cases (as_string (get (codes "project_id") ms))) [
        | inl e ↦ absurd (ground arith)
        | inr (id, e) ↦
            elim (Option-cases
              (quantity_of (integer_value parse_float (get (codes "quantity") ms)))) [
                | inl q ↦ absurd (ground arith)
                | inr (n, q) ↦ elim (Sum-cases (parse_items parse_float raws)) [
                  | inl (msg, r) ↦ absurd (ground arith)
                  | inr (rest, r) ↦
                      let named : is_empty id ≡ false = ground arith in
                      let same : items ≡ record { project_id = id; quantity = n } ∷ rest =
                        ground arith in
                      let (value, least, most) = (quantity_of_iff _ n).0 q in
                      rw same (
                        record {
                          project_id = e;
                          named = named;
                          quantity = integer_value_sound parse_float _ n value least;
                          least = least;
                          most = most;
                        },
                        parse_items_sound raws rest r,
                      )
                ]
              ]
      ]

  parse_items_complete :
      (raws : List Json) (items : List RequestItem)
      → AreItems raws items
      → parse_items parse_float raws ≡ inr items
  unfolding parse_items
  parse_items_complete [] [] h = refl
  parse_items_complete (raw ∷ raws) (item ∷ items) (p, h) =
      rw
        (
          parse_items,
          p.project_id,
          p.named,
          (quantity_of_iff (integer_value parse_float (get (codes "quantity") (item_members raw)))
                item.quantity).1
              (
                integer_value_complete parse_float _ item.quantity p.quantity p.most,
                p.least,
                p.most,
              ),
          parse_items_complete raws items h,
        )
        refl
  parse_items_complete [] (item ∷ items) h = absurd h
  parse_items_complete (raw ∷ raws) [] h = absurd h

  -- `ParseOrderRequest` accepts exactly the documents that are an object with a customer, a string
  -- that is not empty, and a list of 1 to 10 items, each with a project that is not empty and a
  -- number as its quantity that, read as a float64, is exactly a whole number from 1 to 99; and it gives the order that the document asks for.
  pub parse_order_request_iff :
      (document : Option Json) (req : OrderRequest)
      → (parse_order_request parse_float document ≡ inr req) ↔ IsRequest document req
  unfolding parse_order_request
  parse_order_request_iff document req = (sound document req, complete document req)
    where
      sound :
          (document : Option Json) (req : OrderRequest)
          → parse_order_request parse_float document ≡ inr req
          → IsRequest document req
      sound (some (obj ms)) req h = elim (Option-cases (as_string (get (codes "customer") ms))) [
        | inl e ↦ absurd (ground arith)
        | inr (customer, e) ↦ elim (Option-cases (as_list (get (codes "items") ms))) [
          | inl l ↦ absurd (ground arith)
          | inr (raws, l) ↦ elim (Sum-cases (parse_items parse_float raws)) [
            | inl (msg, r) ↦ absurd (ground arith)
            | inr (items, r) ↦
                let named : is_empty customer ≡ false = ground arith in
                let least : 1 ≤ length raws = ground arith in
                let most : length raws ≤ 10 = ground arith in
                let same : req ≡ record { customer = customer; items = items } = ground arith in
                rw same (record {
                  members = ms;
                  object = refl;
                  customer = e;
                  named = named;
                  raws = raws;
                  listed = l;
                  least = least;
                  most = most;
                  items = parse_items_sound raws items r;
                })
          ]
        ]
      ]
      sound none req h = absurd (cc h)
      sound (some null) req h = absurd (cc h)
      sound (some (bool b)) req h = absurd (cc h)
      sound (some (number l)) req h = absurd (cc h)
      sound (some (int n)) req h = absurd (cc h)
      sound (some (str t)) req h = absurd (cc h)
      sound (some (arr vs)) req h = absurd (cc h)

      complete :
          (document : Option Json) (req : OrderRequest)
          → IsRequest document req
          → parse_order_request parse_float document ≡ inr req
      complete document req h =
          let low : ltb (length h.raws) 1 ≡ false = ground (arith, h.least) in
          let high : ltb 10 (length h.raws) ≡ false = ground (arith, h.most) in
          rw
            (
              h.object,
              parse_order_request,
              h.customer,
              h.named,
              h.listed,
              low,
              high,
              parse_items_complete h.raws req.items h.items,
            )
            refl
