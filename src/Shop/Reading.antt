-- ===== src/Shop/Reading.antt =====
-- Orders read back.
use mock_lab.Common.{
  Sum-cases, ℕ, ◌^◌, ◌≡◌, ◌<◌, ◌⊎◌, inl, inr, refl, ap, ◌∙◌, List, Option, some, length, All, arith,
}
use mock_lab.Common.Text.{Bytes, codes}
use mock_lab.Common.Float.{Float}
use mock_lab.Common.Json.{Json}
use mock_lab.Common.Http.{Response}
use mock_lab.Shop.{Line, StoreError, StoreOf, App, write_json}
use mock_lab.Shop.Handlers.{Upstream, create_order, get_order, parse_order_id, order_object}
use mock_lab.Shop.Store.{answer_of, create_order_lem}
use mock_lab.Shop.Total.{sum_lines, Fits, AreLines-Fits}

-- What the service expects of a store, for the texts that are IDs to it: an order that it took, whose
-- numbers fit in the columns of 32 bits, is found under its ID, with the status "placed", and so are
-- its lines.
pub record IsStore {S : Type 0} (IsId : Bytes → Type 0) (store : StoreOf S) : Type 0 where
  pub finds :
      (id customer : Bytes) (total : ℕ) (lines : List Line) (s : S) (created_at : ℕ)
      → IsId id
      → total < 2 ^ 31
      → All Fits lines
      → (store.create_order id customer total lines s).1 ≡ inr created_at
      → let s' = (store.create_order id customer total lines s).0 in
        (store.get_order id s'
          ≡ inr (record {
            id = id;
            customer = customer;
            status = codes "placed";
            total_cents = total;
            created_at = created_at;
            item_count = 0;
          }))
        × (store.get_lines id s' ≡ inr lines)

parse_order_id-36 :
    (uuid : Bytes → Option Bytes) (id : Bytes)
    → length id ≡ 36
    → uuid id ≡ some id
    → parse_order_id uuid id ≡ some id
unfolding parse_order_id
parse_order_id-36 uuid id size canonical = ground (arith, size, canonical)

-- The responses to a creation, and to a read when `Now` gives `at`, that show one object, each at its
-- own time.
pub record IsReadBack (app : App) (id : Bytes) (created read : Response) (at : ℕ → ℕ) : Type 0 where
  pub customer : Bytes
  pub lines : List Line
  pub total : ℕ
  pub created_at : ℕ
  pub created_as :
      created
      ≡ write_json 201 (order_object app id customer (codes "placed") lines total created_at)
  pub read_as :
      read
      ≡ write_json 200 (
          order_object
            (record app { now = at })
            id
            customer
            (codes "placed")
            lines
            total
            created_at)

module _ {S : Type 0} (store : StoreOf S) (app : App) (parse_float : Bytes → Option Float)
    (upstream : Upstream) (uuid : Bytes → Option Bytes) {IsId : Bytes → Type 0} where
  -- With a store that finds the orders that it took (`IsStore`), an order that was answered with 201
  -- is read back under its ID at any time, with the same object but for `generated_at`, which is the
  -- time of each response; the ID is one of the store's and a text of 36 bytes that `uuid.Parse` and
  -- `String` leave as it is.
  pub get_order-create_order_same :
      IsStore IsId store
      → (id : Bytes) (body : Option (Option Json)) (s : S) (at : ℕ → ℕ) → IsId id
      → length id ≡ 36
      → uuid id ≡ some id
      → let (s', response) = create_order store app parse_float upstream id body s in
        response.status ≡ 201
        → IsReadBack app id response (get_order store (record app { now = at }) uuid id s') at
  unfolding get_order
  get_order-create_order_same laws id body s at named size canonical h =
      elim (create_order_lem store app parse_float upstream id body s) [
        | inl (_, refused) ↦ absurd (elim refused [
          | inl e ↦ omega (arith, h, e)
          | inr (inl e) ↦ omega (arith, h, e)
          | inr (inr e) ↦ omega (arith, h, e)
        ])
        | inr (req, lines, placed, stored, answer) ↦
            let c : StoreError ⊎ ℕ =
              (store.create_order id req.customer (sum_lines lines) lines s).1 in
            elim (Sum-cases c) [
              | inl (err, e) ↦ absurd (
                  ground (
                    arith,
                    h,
                    answer,
                    ap (answer_of store app parse_float upstream id req lines) e,
                  ))
              | inr (t, e) ↦
                  let (row, rows) =
                    laws.finds id req.customer (sum_lines lines) lines s t named
                      (omega (arith, placed.bound))
                      (AreLines-Fits upstream parse_float placed.request.raws req.items 0 lines
                        placed.request.items placed.priced)
                      e in
                  let s2 = (store.create_order id req.customer (sum_lines lines) lines s).0 in
                  let later = record app { now = at } in
                  let object =
                    order_object later id req.customer (codes "placed") lines (sum_lines lines) t in
                  let read : get_order store later uuid id s2 ≡ write_json 200 object =
                    rw (get_order, parse_order_id-36 uuid id size canonical, row, rows) refl in
                  record {
                    customer = req.customer;
                    lines = lines;
                    total = sum_lines lines;
                    created_at = t;
                    created_as =
                        answer ∙ ap (answer_of store app parse_float upstream id req lines) e;
                    read_as = ap (get_order store later uuid id) stored ∙ read;
                  }
            ]
      ]
