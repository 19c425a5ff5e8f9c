-- ===== src/Demo/History.antt =====
-- The state over a run of requests, from start-up on.
use mock_lab.Common.{
  ℕ, ◌≡◌, ◌≢◌, refl, Bool, true, false, ◌||◌, List, [], ◌∷◌, ◌++◌, some, arith, inl, inr, All, ap,
  ◌∙◌,
}
use mock_lab.Common.Text.{Bytes, codes, is_empty, text_eq}
use mock_lab.Common.Dict.{lookup, All-insert, lookup-All, lookup-insert_ne}
use mock_lab.Common.Http.{Fetched}
use mock_lab.Ids.{rand_id}
use mock_lab.Demo.{State, Request, Order, authed, new_order, token_handler, create_order_handler}
use mock_lab.Demo.Auth.{authed-token_handler, authed_iff}
use mock_lab.Demo.Orders.{create_order_handler_lem}

-- The requests that write state, with what the environment gives each: the random bytes, and for
-- an order the downstream and the time.
pub data Event : Type 0 where
  issue : (ℕ → ℕ) → Event
  create : (Bytes → Fetched) → (ℕ → ℕ) → Bytes → Request → Event

-- The maps are empty at start-up.
abbrev pub initial : State
initial = record { valid_tokens = []; orders = [] }

module _ (downstream : Bytes) where
  unfoldable pub after : Event → State → State
  after (issue random) s = (token_handler random s).0
  after (create http_get random ts r) s = (create_order_handler http_get downstream random ts r s).0

  unfoldable pub run : List Event → State → State
  unfolding after
  run [] s = s
  run (e ∷ es) s = run es (after e s)

  -- What every stored order satisfies.
  pub record IsOrder (k : Bytes) (o : Order) : Type 0 where
    pub key : o.order_id ≡ k
    pub status : o.status ≡ codes "created"
    pub named : is_empty o.project ≡ false

  abbrev AllOrders : State → Type 0
  AllOrders s = All (λ e. IsOrder e.0 e.1) s.orders

  after-AllOrders : (e : Event) (s : State) → AllOrders s → AllOrders (after e s)
  unfolding after
  after-AllOrders (issue random) s h = rw (authed-token_handler random [] s).1 h
  after-AllOrders (create http_get random ts r) s h =
      elim (create_order_handler_lem http_get downstream random ts r s) [
        | inl (_, (project, accepted, left)) ↦ rw (ap (λ (t : State). t.orders) left) (
            All-insert IsOrder _ (new_order random ts project) s.orders h
              (new_order-IsOrder random ts project accepted.named))
        | inr (_, same) ↦ rw same h
      ]
    where
      new_order-IsOrder :
          (random : ℕ → ℕ) (ts project : Bytes)
          → is_empty project ≡ false
          → IsOrder (new_order random ts project).order_id (new_order random ts project)
      new_order-IsOrder random ts project n =
          unfold new_order in record { key = refl; status = refl; named = n }

  run-AllOrders : (es : List Event) (s : State) → AllOrders s → AllOrders (run es s)
  unfolding run
  run-AllOrders [] s h = h
  run-AllOrders (e ∷ es) s h = run-AllOrders es (after e s) (after-AllOrders e s h)

  -- Whatever requests have come since start-up, an order that is found under an ID carries this
  -- ID, the status "created" and a project name that is not empty.
  pub run-IsOrder :
      (es : List Event) (k : Bytes) {o : Order}
      → lookup k (run es initial).orders ≡ some o
      → IsOrder k o
  run-IsOrder es k e = lookup-All IsOrder k _ (run-AllOrders es initial tt) e

  -- Whether the run hands out the token that a header carries.
  abbrev pub issued : Bytes → List Event → Bool
  issued h [] = false
  issued h (issue random ∷ es) = text_eq (codes "Bearer " ++ rand_id [] 32 random) h || issued h es
  issued h (create _ _ _ _ ∷ es) = issued h es

  authed-create :
      (http_get : Bytes → Fetched) (random : ℕ → ℕ) (ts : Bytes) (r : Request) (h : Bytes)
      (s : State)
      → authed h (create_order_handler http_get downstream random ts r s).0 ≡ authed h s
  unfolding authed
  authed-create http_get random ts r h s =
      elim (create_order_handler_lem http_get downstream random ts r s) [
        | inl (_, (project, accepted, left)) ↦ ap (authed h) left
        | inr (_, same) ↦ ap (authed h) same
      ]

  -- After any run a header is authorised exactly if it was before, or if a token request of the run
  -- handed out the token that it carries: tokens are never revoked and never made up.
  pub authed-run :
      (es : List Event) (h : Bytes) (s : State) → authed h (run es s) ≡ (issued h es || authed h s)
  unfolding run after
  authed-run [] h s = refl
  authed-run (issue random ∷ es) h s =
      ground
        (arith, authed-run es h (token_handler random s).0, (authed-token_handler random h s).0)
  authed-run (create http_get random ts r ∷ es) h s = ground (
    arith,
    authed-run es h (create_order_handler http_get downstream random ts r s).0,
    authed-create http_get random ts r h s,
  )

  -- Without a token request.
  abbrev pub NoIssue : List Event → Type 0
  NoIssue [] = Unit
  NoIssue (issue _ ∷ es) = ⊥
  NoIssue (create _ _ _ _ ∷ es) = NoIssue es

  -- No order is placed before the first token is handed out: a run of order requests alone leaves
  -- the state as it was at start-up.
  pub run_of_NoIssue : (es : List Event) → NoIssue es → run es initial ≡ initial
  unfolding run after
  run_of_NoIssue [] h = refl
  run_of_NoIssue (issue _ ∷ es) h = absurd h
  run_of_NoIssue (create http_get random ts r ∷ es) h =
      elim (create_order_handler_lem http_get downstream random ts r initial) [
        | inl (_, (project, accepted, left)) ↦
            let (token, form, valid) = (authed_iff r.authorization initial).0 accepted.token in
            absurd (no_token token valid)
        | inr (_, same) ↦ ap (run es) same ∙ run_of_NoIssue es h
      ]
    where
      no_token : (token : Bytes) → lookup {V = Bool} token [] ≡ some true → ⊥
      no_token token e = unfold lookup in cc e

  -- The ID that an event would give to its order is not `k`.
  abbrev pub Avoids : Bytes → Event → Type 0
  Avoids k (issue _) = Unit
  Avoids k (create http_get random ts r) = rand_id (codes "order-") 8 random ≢ k

  after-keeps :
      (e : Event) (k : Bytes) (s : State)
      → Avoids k e
      → lookup k (after e s).orders ≡ lookup k s.orders
  unfolding after
  after-keeps (issue random) k s h = rw (authed-token_handler random [] s).1
  after-keeps (create http_get random ts r) k s h =
      elim (create_order_handler_lem http_get downstream random ts r s) [
        | inl (_, (project, accepted, left)) ↦ rw (ap (λ (t : State). t.orders) left) (
            unfold new_order in lookup-insert_ne (rand_id (codes "order-") 8 random) k _ s.orders h)
        | inr (_, same) ↦ rw same
      ]

  -- Orders are never changed or dropped: what is found under an ID stays as long as no later request
  -- draws the same random ID.
  pub run-keeps :
      (es : List Event) (k : Bytes) (s : State)
      → All (Avoids k) es
      → lookup k (run es s).orders ≡ lookup k s.orders
  unfolding run
  run-keeps [] k s h = refl
  run-keeps (e ∷ es) k s (avoids, h) = run-keeps es k (after e s) h ∙ after-keeps e k s avoids
