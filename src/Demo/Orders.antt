-- ===== src/Demo/Orders.antt =====
-- When an order is created, and what reads give back.
use mock_lab.Common.{
  ℕ, ◌≡◌, ◌≢◌, refl, true, false, ◌++◌, Option, some, arith, Option-cases, Bool-cases, inl, inr,
  ◌⊎◌, ◌==◌,
}
use mock_lab.Common.Text.{Bytes, codes, is_empty}
use mock_lab.Common.Dict.{insert, lookup-insert_self}
use mock_lab.Common.Json.{Json, decode_string}
use mock_lab.Common.Http.{Fetched, answered, Fetched-cases, Response}
use mock_lab.Demo.{
  State, Request, authed, write_json, new_order, order_json, place_order, create_order_handler,
  get_order_handler, unauthorized,
}

module _ (http_get : Bytes → Fetched) (downstream : Bytes) (random : ℕ → ℕ) (ts : Bytes) where
  -- Why a request made an order of a project.
  pub record Accepted (r : Request) (s : State) (project : Bytes) : Type 0 where
    pub token : authed r.authorization s ≡ true
    pub decoded : decode_string (codes "project") r.body ≡ some project
    pub named : is_empty project ≡ false
    pub page : Bytes
    pub document : Option Json
    pub exists :
        http_get (downstream ++ codes "/v1/project/" ++ project) ≡ answered 200 page document

  -- The state with one order more.
  abbrev pub with_order : Bytes → State → State
  with_order project s =
      let o = new_order random ts project in record s { orders = insert o.order_id o s.orders }

  place_order-201 :
      (project : Bytes) (s : State)
      → let (s', response) = place_order http_get downstream random ts project s in
        response.status ≡ 201
        → (page : Bytes) × (document : Option Json) × (http_get
              (downstream ++ codes "/v1/project/" ++ project)
            ≡ answered 200 page document)
          × (s' ≡ with_order project s)
  unfolding place_order
  place_order-201 project s h =
      elim (Fetched-cases (http_get (downstream ++ codes "/v1/project/" ++ project))) [
        | inl (err, e) ↦ absurd (ground arith)
        | inr (status, page, document, e) ↦
            let ok : status ≡ 200 = ground arith in (page, document, rw ok at e, ground arith)
      ]

  place_order-ne-201 :
      (project : Bytes) (s : State)
      → let (s', response) = place_order http_get downstream random ts project s in
        response.status ≢ 201 → s' ≡ s
  unfolding place_order
  place_order-ne-201 project s h = ground arith

  -- An order is created, with the answer 201, only for a request with a valid token and a project
  -- that is named and that the downstream knows (it answered 200); the state then has exactly this
  -- order more. On any other answer the state is as before.
  pub create_order_handler_lem :
      (r : Request) (s : State)
      → let (s', response) = create_order_handler http_get downstream random ts r s in
        ((response.status ≡ 201)
          × ((project : Bytes) × Accepted r s project × (s' ≡ with_order project s)))
        ⊎ ((response.status ≢ 201) × (s' ≡ s))
  unfolding create_order_handler unauthorized
  create_order_handler_lem r s =
      let result : State × Response = create_order_handler http_get downstream random ts r s in
      elim (Option-cases (decode_string (codes "project") r.body)) [
        | inl bad ↦ inr (ground arith, ground arith)
        | inr (project, e) ↦ elim (Bool-cases (result.1.status == 201)) [
          | inl ok ↦
              let t : authed r.authorization s ≡ true = ground arith in
              let n : is_empty project ≡ false = ground arith in
              let (page, document, exists, left) = place_order-201 project s (ground arith) in
              inl (
                ground arith,
                (
                  project,
                  record {
                    token = t;
                    decoded = e;
                    named = n;
                    page = page;
                    document = document;
                    exists = exists;
                  },
                  ground (arith, left),
                ),
              )
          | inr other ↦ inr (ground arith, ground (arith, place_order-ne-201 project s))
        ]
      ]

  authed-with_order : (h project : Bytes) (s : State) → authed h (with_order project s) ≡ authed h s
  unfolding authed
  authed-with_order h project s = refl

  create_order-Accepted :
      (r : Request) (s : State) {project : Bytes}
      → Accepted r s project
      → create_order_handler http_get downstream random ts r s
        ≡ (with_order project s, write_json 201 (order_json (new_order random ts project)))
  unfolding create_order_handler place_order
  create_order-Accepted r s a = ground arith

  -- A request with a valid token and a project that the downstream knows is answered by 201 and the
  -- new order; reading its ID afterwards, with the same header, gives the same order, and reading
  -- with a header that carries no valid token is refused.
  pub get_order-create_order :
      (r : Request) (s : State) (h : Bytes) {project : Bytes}
      → Accepted r s project
      → authed h s ≡ false
      → let (s', response) = create_order_handler http_get downstream random ts r s in
        let o = new_order random ts project in
        (response ≡ write_json 201 (order_json o))
        × (get_order_handler (record r { id = o.order_id }) s' ≡ write_json 200 (order_json o))
        × (get_order_handler (record r { authorization = h; id = o.order_id }) s' ≡ unauthorized)
  unfolding get_order_handler
  get_order-create_order r s h {project} a no_token =
      let o = new_order random ts project in
      let found = lookup-insert_self o.order_id o s.orders in
      rw (create_order-Accepted r s a) (
        refl,
        ground (arith, authed-with_order r.authorization project s, found, a.token),
        ground (arith, authed-with_order h project s),
      )
