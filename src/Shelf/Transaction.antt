-- ===== src/Shelf/Transaction.antt =====
-- The statements of `createOrder`.
use mock_lab.Common.{
  Sum-cases, ℕ, ◌≡◌, ◌≢◌, ◌⊎◌, inl, inr, true, refl, sym, ap, ◌∙◌, ◌||◌, List, [], ◌∷◌, ◌++◌,
  Option, none, some, All, All-append, append_assoc, append-nil, arith, Option-cases, Bool-cases,
}
use mock_lab.Common.Text.{Bytes, is_empty}
use mock_lab.Common.Int.{ℤ}
use mock_lab.Common.Http.{Response}
use mock_lab.Tag.{RequestTags, CommentMode}
use mock_lab.Shelf.{
  DbError, no_rows, db_error, Arg, Stmt, sql, OrderItem, Log, Db, http_error, tagged,
}
use mock_lab.Shelf.Orders.{
  CreateOrderRequest, no_items, begin, commit, rollback, insert_order, take_stock, insert_item,
  update_total, out_of_stock, add_items, transaction, finish, create_order,
}

http_error-ne-201 : (err : DbError) → (http_error err).status ≢ 201
unfolding http_error
http_error-ne-201 no_rows e = absurd (omega (arith, e))
http_error-ne-201 (db_error err) e = absurd (omega (arith, e))

module _ (db : Db) (mode : CommentMode) (tags : RequestTags) where
  -- A statement with the comment of the request.
  pub record IsTagged (s : Stmt) : Type 0 where
    pub text : Bytes
    pub args : List Arg
    pub same : s ≡ sql (tagged db mode tags text) args

  -- The statements that a part of the transaction runs.
  record Runs (log log' : Log) : Type 0 where
    more : Log
    tagged_all : All IsTagged more
    same : log' ≡ log ++ more

  here : (text : Bytes) (args : List Arg) → IsTagged (sql (tagged db mode tags text) args)
  here text args = record { text = text; args = args; same = refl }

  nothing : (log : Log) → Runs log log
  nothing log = record { more = []; tagged_all = tt; same = sym (append-nil log) }

  step : (log log' : Log) (s : Stmt) → IsTagged s → Runs (log ++ s ∷ []) log' → Runs log log'
  step log log' s t r = record {
    more = s ∷ r.more;
    tagged_all = (t, r.tagged_all);
    same = r.same ∙ append_assoc log (s ∷ []) r.more;
  }

  after : (a b c : Log) → Runs a b → Runs b c → Runs a c
  after a b c r q = record {
    more = r.more ++ q.more;
    tagged_all = All-append IsTagged r.more q.more r.tagged_all q.tagged_all;
    same = q.same ∙ ap (λ l. l ++ q.more) r.same ∙ append_assoc a r.more q.more;
  }

  -- What the loop over the items leads to.
  abbrev Added : Log → Option Response × Log → Type 0
  Added log (stopped, log') =
      Runs log log'
      × ((stopped ≡ none)
          ⊎ ((response : Response) × (stopped ≡ some response) × (response.status ≢ 201)))

  add_items_lem :
      (items : List OrderItem) (order_id : ℤ) (log : Log)
      → Added log (add_items db mode tags order_id items log)
  unfolding add_items
  add_items_lem [] order_id log = (nothing log, inl refl)
  add_items_lem (it ∷ items) order_id log =
      let t = take_stock db mode tags it in
      let log1 = log ++ t ∷ [] in
      let one : Runs log log1 = step log log1 t (here _ _) (nothing log1) in
      elim (Sum-cases (db.scan_float log t)) [
        | inl (no_rows, e) ↦
            rw (add_items, e) (one, inr (out_of_stock db mode tags it, refl, conflict it))
        | inl (db_error err, e) ↦
            rw (add_items, e)
              (one, inr (http_error (db_error err), refl, http_error-ne-201 (db_error err)))
        | inr (price, e) ↦
            let s = insert_item db mode tags order_id it price in
            let log2 = log1 ++ s ∷ [] in
            let two : Runs log log2 =
              after log log1 log2 one (step log1 log2 s (here _ _) (nothing log2)) in
            elim (Option-cases (db.exec log1 s)) [
              | inr (err, f) ↦
                  rw (add_items, e, f) (two, inr (http_error err, refl, http_error-ne-201 err))
              | inl f ↦
                  let (runs, stopped) = add_items_lem items order_id log2 in
                  rw (add_items, e, f)
                    (
                      after log log2 (add_items db mode tags order_id items log2).1 two runs,
                      stopped,
                    )
            ]
      ]
    where
      conflict : (it : OrderItem) → (out_of_stock db mode tags it).status ≢ 201
      conflict it e = absurd (omega (arith, e))

  -- What the statements between BEGIN and the rollback lead to: an error, or an order whose COMMIT,
  -- the last statement, succeeded.
  abbrev Ended : Log → (Response ⊎ ℤ) × Log → Type 0
  Ended log (inl response, log') = Runs log log' × (response.status ≢ 201)
  Ended log (inr order_id, log') =
      (before : Log) × Runs log before
      × (db.exec before (commit db mode tags) ≡ none)
      × (log' ≡ before ++ commit db mode tags ∷ [])

  transaction_lem :
      (req : CreateOrderRequest) (log : Log) → Ended log (transaction db mode tags req log)
  unfolding transaction
  transaction_lem req log =
      let s1 = insert_order db mode tags req.customer in
      let log1 = log ++ s1 ∷ [] in
      let one : Runs log log1 = step log log1 s1 (here _ _) (nothing log1) in
      elim (Sum-cases (db.scan_int log s1)) [
        | inl (err, e) ↦ rw (transaction, e) (one, http_error-ne-201 err)
        | inr (order_id, e) ↦
            let (more, stopped) = add_items_lem req.items order_id log1 in
            let log2 = (add_items db mode tags order_id req.items log1).1 in
            let s3 = update_total db mode tags order_id in
            let log3 = log2 ++ s3 ∷ [] in
            let s4 = commit db mode tags in
            let log4 = log3 ++ s4 ∷ [] in
            let two : Runs log log2 = after log log1 log2 one more in
            let three : Runs log log3 =
              after log log2 log3 two (step log2 log3 s3 (here _ _) (nothing log3)) in
            let four : Runs log log4 =
              after log log3 log4 three (step log3 log4 s4 (here _ _) (nothing log4)) in
            elim stopped [
              | inr (response, f, status) ↦ rw (transaction, e, f) (two, status)
              | inl f ↦ elim (Option-cases (db.exec log2 s3)) [
                | inr (err, g) ↦ rw (transaction, e, f, g) (three, http_error-ne-201 err)
                | inl g ↦ elim (Option-cases (db.exec log3 s4)) [
                  | inr (err, h) ↦ rw (transaction, e, f, g, h) (four, http_error-ne-201 err)
                  | inl h ↦ rw (transaction, e, f, g, h) (log3, three, h, refl)
                ]
              ]
            ]
      ]

  spread :
      (log more : Log) (s : Stmt)
      → ((log ++ begin db mode tags ∷ []) ++ more) ++ s ∷ []
        ≡ log ++ begin db mode tags ∷ (more ++ s ∷ [])
  spread log more s =
      append_assoc (log ++ begin db mode tags ∷ []) more (s ∷ [])
      ∙ append_assoc log (begin db mode tags ∷ []) (more ++ s ∷ [])

  -- A transaction: BEGIN, statements with the comment of the request, and at the end COMMIT, which
  -- succeeded, or ROLLBACK.
  pub record IsTransaction (log : Log) (status : ℕ) (log' : Log) : Type 0 where
    pub inner : Log
    pub tagged_all : All IsTagged inner
    pub outcome :
        ((status ≡ 201)
          × (log' ≡ log ++ begin db mode tags ∷ (inner ++ commit db mode tags ∷ []))
          × (db.exec (log ++ begin db mode tags ∷ inner) (commit db mode tags) ≡ none))
        ⊎ ((status ≢ 201)
            × (log' ≡ log ++ begin db mode tags ∷ (inner ++ rollback db mode tags ∷ [])))

  ended :
      (log : Log) (x : (Response ⊎ ℤ) × Log)
      → Ended (log ++ begin db mode tags ∷ []) x
      → let (response, log') = finish db mode tags x in IsTransaction log response.status log'
  ended log (inl response, log') (r, status) = record {
    inner = r.more;
    tagged_all = r.tagged_all;
    outcome = inr (status, ap (λ l. l ++ rollback db mode tags ∷ []) r.same ∙ spread log r.more _);
  }
  ended log (inr order_id, log') (before, r, committed, same) =
      let whole : before ≡ log ++ begin db mode tags ∷ r.more =
        r.same ∙ append_assoc log (begin db mode tags ∷ []) r.more in
      record {
        inner = r.more;
        tagged_all = r.tagged_all;
        outcome = inl (
          refl,
          same ∙ ap (λ l. l ++ commit db mode tags ∷ []) r.same ∙ spread log r.more _,
          ap (λ l. db.exec l (commit db mode tags)) (sym whole) ∙ committed,
        );
      }

  -- A body that is answered with 400: it does not decode, or it has no customer or no items.
  pub IsRefused : Option CreateOrderRequest → Type 0
  IsRefused none = Unit
  IsRefused (some req) = (is_empty req.customer || no_items req.items) ≡ true

  -- Why no transaction runs, by the response and the statements that ran.
  abbrev pub NotBegun : Option CreateOrderRequest → Log → Response → Log → Type 0
  NotBegun body log response log' =
      (IsRefused body × (response.status ≡ 400) × (log' ≡ log))
      ⊎ ((err : DbError) × (db.acquire log ≡ inl err) × (response ≡ http_error err) × (log' ≡ log))
      ⊎ ((err : DbError) × (db.exec log (begin db mode tags) ≡ some err)
          × (response ≡ http_error err)
          × (log' ≡ log ++ begin db mode tags ∷ []))

  -- `createOrder` refuses a body without a customer or without items, with 400 and no statement; or no
  -- connection is acquired, and no statement runs; or the BEGIN runs and fails; or it runs a
  -- transaction, in which every statement carries the comment of the request, and which ends with the
  -- COMMIT that succeeded if the answer is 201, and with a ROLLBACK if it is any other.
  pub create_order-IsTransaction :
      (body : Option CreateOrderRequest) (log : Log)
      → let (response, log') = create_order db mode tags body log in
        NotBegun body log response log' ⊎ IsTransaction log response.status log'
  unfolding create_order IsRefused
  create_order-IsTransaction none log = inl (inl (tt, refl, refl))
  create_order-IsTransaction (some req) log =
      elim (Bool-cases (is_empty req.customer || no_items req.items)) [
        | inl bad ↦ rw (create_order, bad) (inl (inl (refl, refl, refl)))
        | inr fine ↦ elim (Sum-cases (db.acquire log)) [
          | inl (err, e) ↦ rw (create_order, fine, e) (inl (inr (inl (err, refl, refl, refl))))
          | inr (c, e) ↦ elim (Option-cases (db.exec log (begin db mode tags))) [
            | inr (err, f) ↦ rw (create_order, fine, e, f) (inl (inr (inr (err, refl, refl, refl))))
            | inl f ↦
                let log1 = log ++ begin db mode tags ∷ [] in
                rw (create_order, fine, e, f)
                  (inr (ended log (transaction db mode tags req log1) (transaction_lem req log1)))
          ]
        ]
      ]
