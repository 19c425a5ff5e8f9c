-- ===== src/Demo/Refactor/Same.antt =====
-- The demo app of languages/go/main.go and that of labs/ai-refactor/main.go on the same requests.
use mock_lab.Common.{◌≡◌, refl, ap, ◌∙◌, List, [], ◌∷◌, ◌++◌}
use mock_lab.Common.Text.{Bytes}
use mock_lab.Common.Http.{Response}
use mock_lab.Demo
use mock_lab.Demo.{State, Request}
use mock_lab.Demo.Routes
use mock_lab.Demo.Routes.{
  Route, get_root, get_projects, get_project, get_categories, get_stats, post_token, post_order,
  get_order, Draw, Handled,
}
use mock_lab.Demo.Refactor
use mock_lab.Demo.History.{initial}

-- A program by its mux.
abbrev pub Program : Type 0
Program = Draw → Route → State → Handled

-- The responses to a run of requests, each with what its environment gives it.
pub answers : Program → List (Draw × Route) → State → List Response
answers serve [] s = []
answers serve ((d, route) ∷ run) s =
    let h = serve d route s in h.response ∷ answers serve run h.state

-- The paths that are reported over a run of requests.
pub tracked : Program → List (Draw × Route) → State → List Bytes
tracked serve [] s = []
tracked serve ((d, route) ∷ run) s =
    let h = serve d route s in h.tracked ++ tracked serve run h.state

serve_same :
    (downstream : Bytes) (d : Draw) (route : Route) (s : State)
    → Refactor.serve downstream d route s
      ≡ record (Routes.serve downstream d route s) { tracked = [] }
unfolding Refactor.serve Routes.serve Refactor.root_handler Demo.root_handler Refactor.fetch
    Demo.fetch Refactor.stats_handler Demo.stats_handler Refactor.token_handler Demo.token_handler
    Refactor.create_order_handler Demo.create_order_handler Refactor.place_order Demo.place_order
    Refactor.authed Demo.authed Refactor.new_order Demo.new_order Refactor.order_json
    Demo.order_json Refactor.unauthorized Demo.unauthorized Refactor.get_order_handler
    Demo.get_order_handler
serve_same downstream d get_root s = refl
serve_same downstream d (get_projects path) s = refl
serve_same downstream d (get_project path id) s = refl
serve_same downstream d (get_categories path) s = refl
serve_same downstream d (get_stats path) s = refl
serve_same downstream d post_token s = refl
serve_same downstream d (post_order r) s = refl
serve_same downstream d (get_order r) s = refl

answers_from :
    (downstream : Bytes) (run : List (Draw × Route)) (s : State)
    → (answers (Refactor.serve downstream) run s ≡ answers (Routes.serve downstream) run s)
      × (tracked (Refactor.serve downstream) run s ≡ [])
unfolding answers tracked
answers_from downstream [] s = (refl, refl)
answers_from downstream ((d, route) ∷ run) s =
    let e = serve_same downstream d route s in
    let (rest, quiet) = answers_from downstream run (Routes.serve downstream d route s).state in
    (
      ap (λ h. h.response ∷ answers (Refactor.serve downstream) run h.state) e
          ∙ ap (λ l. (Routes.serve downstream d route s).response ∷ l) rest,
      ap (λ h. h.tracked ++ tracked (Refactor.serve downstream) run h.state) e ∙ quiet,
    )

-- From start-up on, the demo app of the refactoring lab answers every run of requests as the demo app
-- of languages/go does, if the downstream, the random source and the clock give both the same; and it
-- reports no request to a beacon.
pub answers_same :
    (downstream : Bytes) (run : List (Draw × Route))
    → (answers (Refactor.serve downstream) run initial
        ≡ answers (Routes.serve downstream) run initial)
      × (tracked (Refactor.serve downstream) run initial ≡ [])
answers_same downstream run = answers_from downstream run initial
