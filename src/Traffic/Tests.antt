-- ===== src/Traffic/Tests.antt =====
-- The driver on the counts of tutorial/contract/traffic.json.
use mock_lab.Common.{ℕ, ◌≡◌, ◌≢◌, refl, List, [], ◌∷◌, Option, some, length, if◌then◌else◌}
use mock_lab.Common.Text.{Bytes, codes, text_eq, to_lower}
use mock_lab.Common.Json.{Json, decode_string, str, obj, member, end}
use mock_lab.Traffic.{BadRequest, TrafficFile, Request, Outcome, answered, drive, exit_status}
use mock_lab.Traffic.Exit.{AsWanted, exit_status_lem}

abbrev bad : Bytes → Bytes → Bytes → ℕ → BadRequest
bad method path body expect = record { method = method; path = path; body = body; expect = expect }

abbrev unknown_order : Bytes
unknown_order = codes "/orders/00000000"

abbrev shipped : TrafficFile
shipped = record {
  catalog_calls = 3;
  order_rounds = 40;
  list_calls = 5;
  orders = codes "ada" ∷ codes "grace" ∷ codes "linus" ∷ [];
  bad_requests =
      bad (codes "POST") (codes "/orders") (codes "nobody") 400
      ∷ bad (codes "POST") (codes "/orders") (codes "nobody") 400
      ∷ bad (codes "POST") (codes "/orders") (codes "unknown") 422
      ∷ bad (codes "POST") (codes "/orders") (codes "unknown") 422
      ∷ bad (codes "GET") unknown_order [] 404
      ∷ bad (codes "GET") unknown_order [] 404
      ∷ [];
}

-- A service that tells the requests apart by their path and their body; it calls every order "7".
abbrev service : List Request → Request → Outcome
service before q =
    if text_eq q.body (codes "nobody")
    then answered 400 []
    else if text_eq q.body (codes "unknown")
    then answered 422 []
    else if text_eq q.path unknown_order
    then answered 404 []
    else if text_eq q.method (codes "POST")
    then answered 201 (codes "7")
    else answered 200 []

abbrev compact : Bytes → Option Bytes
compact body = some body

abbrev document : Bytes → Option Json
document page = some (obj (member (codes "id") (str page) end))

exit_status-shipped : exit_status compact document service shipped ≡ 0
unfolding exit_status text_eq codes decode_string to_lower
exit_status-shipped = refl

exit_status_lem_example :
    let log = (drive compact document service shipped).log in
    (shipped.orders ≢ []) × AsWanted service [] log × (length log ≡ 135)
exit_status_lem_example = exit_status_lem compact document service shipped exit_status-shipped
