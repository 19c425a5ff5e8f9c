-- ===== src/Shelf/Orders.antt =====
-- labs/sqlcommenter/main.go: the handlers that use a connection of their own, and the report.
use mock_lab.Common.{
  ℕ, ◌⊎◌, inl, inr, Bool, true, false, ◌||◌, List, [], ◌∷◌, ◌++◌, Option, none, some, ◌==◌,
  if◌then◌else◌, map,
}
use mock_lab.Common.Text.{Bytes, codes, is_empty}
use mock_lab.Common.Int.{ℤ, decimal_int}
use mock_lab.Common.Json.{Json, str, number, arr, obj, end, member, elems_of}
use mock_lab.Common.Http.{Response}
use mock_lab.Tag.{RequestTags, CommentMode}
use mock_lab.Shelf.{
  no_rows, db_error, Arg, Stmt, sql, prepare, run, int_arg, text_arg, float_arg, OrderItem, Sales,
  Log, Db, write_json, error_json, http_error, path_id, product_json, tagged,
}

-- The decoded body of `POST /orders`.
pub record CreateOrderRequest : Type 0 where
  pub customer : Bytes
  pub items : List OrderItem

abbrev pub no_items : List OrderItem → Bool
no_items [] = true
no_items (_ ∷ _) = false

abbrev pub has : ℕ → List ℕ → Bool
has c [] = false
has c (d ∷ ds) = d == c || has c ds

module _ (db : Db) (mode : CommentMode) (tags : RequestTags) where
  abbrev pub stmt : Bytes → List Arg → Stmt
  stmt text args = sql (tagged db mode tags text) args

  abbrev pub begin : Stmt
  begin = stmt (codes "BEGIN") []

  abbrev pub commit : Stmt
  commit = stmt (codes "COMMIT") []

  abbrev pub rollback : Stmt
  rollback = stmt (codes "ROLLBACK") []

  abbrev pub insert_order : Bytes → Stmt
  insert_order customer =
      stmt (codes "INSERT INTO orders (customer, total) VALUES ($1, 0) RETURNING id")
        (text_arg customer ∷ [])

  abbrev pub take_stock : OrderItem → Stmt
  take_stock it =
      stmt
        (codes
          "UPDATE products SET stock = stock - $2 WHERE id = $1 AND stock >= $2 RETURNING price::float8")
        (int_arg it.product_id ∷ int_arg it.quantity ∷ [])

  abbrev pub insert_item : ℤ → OrderItem → Bytes → Stmt
  insert_item order_id it price =
      stmt
        (codes
          "INSERT INTO order_items (order_id, product_id, quantity, price) VALUES ($1, $2, $3, $4)")
        (int_arg order_id ∷ int_arg it.product_id ∷ int_arg it.quantity ∷ float_arg price ∷ [])

  abbrev pub update_total : ℤ → Stmt
  update_total order_id =
      stmt
        (codes
          "UPDATE orders SET total = (SELECT sum(quantity * price) FROM order_items WHERE order_id = $1) WHERE id = $1")
        (int_arg order_id ∷ [])

  abbrev pub out_of_stock : OrderItem → Response
  out_of_stock it = write_json 409 (
      error_json
        (codes "product " ++ decimal_int it.product_id ++ codes " is unknown or out of stock"))

  -- The loop of `createOrder` over the items: a response if it ends the transaction.
  unfoldable pub add_items : ℤ → List OrderItem → Log → Option Response × Log
  add_items order_id [] log = (none, log)
  add_items order_id (it ∷ items) log =
      let log1 = log ++ take_stock it ∷ [] in
      elim (db.scan_float log (take_stock it)) [
        | inl no_rows ↦ (some (out_of_stock it), log1)
        | inl (db_error err) ↦ (some (http_error (db_error err)), log1)
        | inr price ↦
            let s = insert_item order_id it price in
            elim (db.exec log1 s) [
              | some err ↦ (some (http_error err), log1 ++ s ∷ [])
              | none ↦ add_items order_id items (log1 ++ s ∷ [])
            ]
      ]

  -- The statements between BEGIN and the deferred rollback: an error response, or the ID of an order
  -- that is committed.
  unfoldable pub transaction : CreateOrderRequest → Log → (Response ⊎ ℤ) × Log
  unfolding add_items
  transaction req log =
      let s1 = insert_order req.customer in
      let log1 = log ++ s1 ∷ [] in
      elim (db.scan_int log s1) [
        | inl err ↦ (inl (http_error err), log1)
        | inr order_id ↦
            let (stopped, log2) = add_items order_id req.items log1 in
            let log3 = log2 ++ update_total order_id ∷ [] in
            let log4 = log3 ++ commit ∷ [] in
            elim stopped [
              | some response ↦ (inl response, log2)
              | none ↦ elim (db.exec log2 (update_total order_id)) [
                | some err ↦ (inl (http_error err), log3)
                | none ↦ elim (db.exec log3 commit) [
                  | some err ↦ (inl (http_error err), log4)
                  | none ↦ (inr order_id, log4)
                ]
              ]
            ]
      ]

  -- The answer to a transaction, with the deferred rollback of one that is not committed.
  abbrev pub finish : (Response ⊎ ℤ) × Log → Response × Log
  finish (inl response, log) = (response, log ++ rollback ∷ [])
  finish (inr order_id, log) =
      (write_json 201 (obj (member (codes "id") (number (decimal_int order_id)) end)), log)

  -- `createOrder`. The body is `none` if it does not decode.
  unfoldable pub create_order : Option CreateOrderRequest → Log → Response × Log
  unfolding transaction
  create_order body log =
      let bad = write_json 400 (error_json (codes "customer and items are required")) in
      elim body [
        | none ↦ (bad, log)
        | some req ↦
            if is_empty req.customer || no_items req.items
            then (bad, log)
            else elim (db.acquire log) [
              | inl err ↦ (http_error err, log)
              | inr c ↦
                  let log1 = log ++ begin ∷ [] in
                  elim (db.exec log begin) [
                    | some err ↦ (http_error err, log1)
                    | none ↦ finish (transaction req log1)
                  ]
            ]
      ]

  abbrev pub prepare_product : ℕ → Stmt
  prepare_product c = prepare c (
      tagged db mode tags
        (codes "SELECT id, name, price::float8, stock FROM products WHERE id = $1"))

  -- `getProduct`, with the connections that the statement is prepared on.
  unfoldable pub get_product : Bytes → List ℕ → Log → Response × List ℕ × Log
  get_product id_text prepared log =
      let query : ℕ → ℤ → Log → Response × Log = λ c id l.
        let s = run c (int_arg id ∷ []) in
        (
          elim (db.product l s) [
            | inl err ↦ http_error err
            | inr p ↦ write_json 200 (product_json p)
          ],
          l ++ s ∷ [],
        ) in
      elim (path_id id_text) [
        | inl response ↦ (response, prepared, log)
        | inr id ↦ elim (db.acquire log) [
          | inl err ↦ (http_error err, prepared, log)
          | inr c ↦
              let log1 = log ++ prepare_product c ∷ [] in
              let reused = query c id log in
              let first = query c id log1 in
              if has c prepared
              then (reused.0, prepared, reused.1)
              else elim (db.exec log (prepare_product c)) [
                | some err ↦ (http_error err, prepared, log1)
                | none ↦ (first.0, c ∷ prepared, first.1)
              ]
        ]
      ]

  abbrev pub sales_json : Sales → Json
  sales_json s = obj (
      member (codes "product") (str s.product) (
        member (codes "units") (number (decimal_int s.units))
          (member (codes "revenue") (number s.revenue) end)))

  unfoldable pub sales_report : Log → Response × Log
  sales_report log =
      let pause = stmt (codes "SELECT pg_sleep(0.2)") [] in
      let query =
        stmt
          (codes
            "SELECT p.name, coalesce(sum(i.quantity), 0)::int, coalesce(sum(i.quantity * i.price), 0)::float8\n\t\tFROM products p LEFT JOIN order_items i ON i.product_id = p.id GROUP BY p.name ORDER BY 3 DESC")
          [] in
      let log1 = log ++ pause ∷ [] in
      elim (db.exec log pause) [
        | some err ↦ (http_error err, log1)
        | none ↦ (
          elim (db.sales log1 query) [
            | inl err ↦ http_error err
            | inr report ↦ write_json 200 (arr (elems_of (map sales_json report)))
          ],
          log1 ++ query ∷ [],
        )
      ]
