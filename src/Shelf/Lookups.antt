-- ===== src/Shelf/Lookups.antt =====
-- The requests of labs/sqlcommenter/main.go that use a connection of their own, one after the other:
-- `getProduct` with its prepared statement, and `createOrder`.
use mock_lab.Common.{
  Sum-cases, ℕ, ◌≡◌, refl, sym, ◌∙◌, subst, inl, inr, true, List, [], ◌∷◌, ◌++◌, Option, All,
  All-imp, All-append, append-nil, arith, Option-cases, Bool-cases, if◌then◌else◌,
}
use mock_lab.Common.Text.{Bytes}
use mock_lab.Tag.{RequestTags, CommentMode}
use mock_lab.Shelf.{Stmt, Log, Db, path_id}
use mock_lab.Shelf.Orders.{
  CreateOrderRequest, has, begin, commit, rollback, create_order, prepare_product, get_product,
}
use mock_lab.Shelf.Transaction.{IsTagged, create_order-IsTransaction}
use mock_lab.Shelf.Prepared.{
  Plain, preparations, AllReady, IsConsistent, plain, runs, fails, succeeds,
}

-- The requests that run statements, with the tags of each.
pub data Event : Type 0 where
  look_up : RequestTags → Bytes → Event
  place : RequestTags → Option CreateOrderRequest → Event

module _ (db : Db) (mode : CommentMode) where
  create_order-Plain :
      (tags : RequestTags) (body : Option CreateOrderRequest) (log : Log)
      → (more : Log) × All Plain more × ((create_order db mode tags body log).1 ≡ log ++ more)
  unfolding Plain
  create_order-Plain tags body log = elim (create_order-IsTransaction db mode tags body log) [
    | inl (inl (_, _, same)) ↦ ([], tt, same ∙ sym (append-nil log))
    | inl (inr (inl (_, _, _, same))) ↦ ([], tt, same ∙ sym (append-nil log))
    | inl (inr (inr (_, _, _, same))) ↦ (begin db mode tags ∷ [], (tt, tt), same)
    | inr t ↦
        let inner = All-imp (IsTagged db mode tags) Plain tagged_plain t.inner t.tagged_all in
        elim t.outcome [
          | inl (_, same, _) ↦ (
            begin db mode tags ∷ (t.inner ++ commit db mode tags ∷ []),
            (tt, All-append Plain t.inner (commit db mode tags ∷ []) inner (tt, tt)),
            same,
          )
          | inr (_, same) ↦ (
            begin db mode tags ∷ (t.inner ++ rollback db mode tags ∷ []),
            (tt, All-append Plain t.inner (rollback db mode tags ∷ []) inner (tt, tt)),
            same,
          )
        ]
  ]
    where
      tagged_plain : (s : Stmt) → IsTagged db mode tags s → Plain s
      tagged_plain s t = subst Plain (sym t.same) tt

  get_product-IsConsistent :
      (tags : RequestTags) (id : Bytes) (prepared : List ℕ) (log : Log)
      → IsConsistent db prepared log
      → let (_, prepared', log') = get_product db mode tags id prepared log in
        IsConsistent db prepared' log'
  unfolding get_product
  get_product-IsConsistent tags id prepared log h = elim (Sum-cases (path_id id)) [
    | inl (response, e) ↦ rw (get_product, e) h
    | inr (number, e) ↦ elim (Sum-cases (db.acquire log)) [
      | inl (err, f) ↦ rw (get_product, e, f) h
      | inr (c, f) ↦
          let s = prepare_product db mode tags c in
          elim (Bool-cases (has c prepared)) [
            | inl known ↦ rw (get_product, e, f, known) (runs db c prepared log _ known h)
            | inr new ↦ elim (Option-cases (db.exec log s)) [
              | inr (err, g) ↦
                  rw (get_product, e, f, new, g) (fails db c _ prepared log err new g h)
              | inl g ↦
                  let known : has c (c ∷ prepared) ≡ true = ground arith in
                  rw (get_product, e, f, new, g)
                    (runs db c (c ∷ prepared) (log ++ s ∷ []) _ known
                      (succeeds db c _ prepared log new g h))
            ]
          ]
    ]
  ]

  unfoldable pub after : Event → List ℕ × Log → List ℕ × Log
  after (look_up tags id) st =
      let (_, prepared, log) = get_product db mode tags id st.0 st.1 in (prepared, log)
  after (place tags body) st = (st.0, (create_order db mode tags body st.1).1)

  -- The connections that the server remembers, and the statements that ran.
  unfoldable pub run_events : List Event → List ℕ × Log → List ℕ × Log
  unfolding after
  run_events [] st = st
  run_events (e ∷ events) st = run_events events (after e st)

  after-IsConsistent :
      (e : Event) (st : List ℕ × Log)
      → IsConsistent db st.0 st.1
      → IsConsistent db (after e st).0 (after e st).1
  unfolding after
  after-IsConsistent (look_up tags id) st h = get_product-IsConsistent tags id st.0 st.1 h
  after-IsConsistent (place tags body) st h =
      let (more, all_plain, same) = create_order-Plain tags body st.1 in
      rw same (plain db st.0 st.1 more h all_plain)

  run_events-IsConsistent :
      (events : List Event) (st : List ℕ × Log)
      → IsConsistent db st.0 st.1
      → IsConsistent db (run_events events st).0 (run_events events st).1
  unfolding run_events
  run_events-IsConsistent [] st h = h
  run_events-IsConsistent (e ∷ events) st h =
      run_events-IsConsistent events (after e st) (after-IsConsistent e st h)

-- From the start of the server on, over any sequence of lookups of products and of new orders, and
-- whatever the database answers: a connection runs the prepared statement only behind a preparation of
-- it on that connection that succeeded, and it is not prepared again there; and the connections that
-- the server remembers are the ones with such a preparation.
pub run_events-AllReady :
    (db : Db) (mode : CommentMode) (events : List Event)
    → let (prepared, log) = run_events db mode events ([], []) in
      AllReady db [] log × ((c : ℕ) → preparations db c [] log ≡ (if has c prepared then 1 else 0))
unfolding AllReady preparations
run_events-AllReady db mode events =
    let h =
      run_events-IsConsistent db mode events ([], [])
        (record { counted = λ c. refl; ready = tt }) in
    (h.ready, h.counted)
