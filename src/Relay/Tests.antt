-- ===== src/Relay/Tests.antt =====
-- The relay on concrete requests.
use mock_lab.Common.{
  ℕ, ◌^◌, ◌≡◌, ◌≤◌, ◌↔◌, ◌⊎◌, refl, Bool, true, false, [], none, some, length, All,
}
use mock_lab.Common.Text.{Bytes, codes, text_eq, cut_prefix}
use mock_lab.Common.Int.{pos}
use mock_lab.Relay.{
  RelayRequest, Outgoing, Sent, responded, validate, relay_handler, allowed, slug, token_ok,
}
use mock_lab.Relay.Rules.{IsValid, validate_iff}
use mock_lab.Relay.Forward.{Carries, relay_handler_lem}

abbrev request : Bytes → RelayRequest
request path = record {
  port = pos 4143;
  method = codes "GET";
  path = path;
  body = [];
  token = codes "a.b";
}

abbrev builds : Bytes → Bytes → Bool
builds method url = true

abbrev client : Outgoing → Sent × ℕ
client o = (responded 200 (codes "ok") false, 3)

validate_test :
    (validate (request (codes "/api/projects/helm")) ≡ none)
    × (validate (request (codes "/api/projects/../x"))
        ≡ some (codes "That path is not one of the demo calls."))
unfolding validate allowed slug token_ok text_eq cut_prefix codes
validate_test = (refl, refl)

validate_iff_example :
    (validate (request (codes "/api/projects/helm")) ≡ none)
    ↔ IsValid (request (codes "/api/projects/helm"))
validate_iff_example = validate_iff (request (codes "/api/projects/helm"))

relay_handler_lem_example :
    let body = some (request (codes "/api/projects/helm")) in
    let (calls, status, out) = relay_handler builds client [] body in
    ((status ≡ 400)
      × (calls ≡ [])
      × ((body ≡ none) ⊎ ((req : RelayRequest) × (body ≡ some req) × (¬ IsValid req))))
    ⊎ ((status ≡ 200)
        × ((req : RelayRequest) × (body ≡ some req)
            × IsValid req
            × All (Carries builds client [] req) calls
            × (length calls ≤ 1)
            × (length out.body ≤ 2 ^ 20)))
relay_handler_lem_example =
    relay_handler_lem builds client [] (some (request (codes "/api/projects/helm")))
