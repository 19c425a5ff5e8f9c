-- ===== src/Beacon/Tests.antt =====
-- The beacon against a downstream that is down, and one that recovers.
use mock_lab.Common.{ℕ, ◌+◌, ◌≡◌, refl, List, [], ◌∷◌, ◌++◌, none, true, if◌then◌else◌}
use mock_lab.Common.Text.{Bytes, codes}
use mock_lab.Beacon.{
  Call, Answer, Reply, lost, reply, Draws, inventory, track_event, track_resilience, beacon_call,
  gave_up,
}
use mock_lab.Beacon.Resilience.{succeeds, line_of, outcome, track_resilience_lem}
use mock_lab.Beacon.Calls.{IsFine, track_event-IsFine}

abbrev base : Bytes
base = codes "http://d"

abbrev draws : Draws
draws = record {
  ts = codes "now";
  timed_at = 1_700_000_000_000_000_000;
  graphql_at = 1_700_000_000_000_000_001;
  read = λ k i. k + 7;
}

abbrev down : List Call → Call → Answer
down log c = lost (codes "refused")

abbrev with_status : ℕ → Answer
with_status n = reply (record { status = n; size = 2; document = none; chaos = []; cookies = [] })

-- The first call fails, and the later ones succeed.
abbrev recovering : List Call → Call → Answer
recovering [] c = with_status 503
recovering (_ ∷ _) c = with_status 200

track_resilience_test : (track_resilience recovering base []).0.slept ≡ 100
unfolding track_resilience mock_lab.Beacon.resilience_from
track_resilience_test = refl

track_resilience_lem_example :
    let c = inventory recovering base in
    let log1 = c ∷ [] in
    let log2 = log1 ++ c ∷ [] in
    let log3 = log2 ++ c ∷ [] in
    let a1 = recovering [] c in
    let a2 = recovering log1 c in
    let a3 = recovering log2 c in
    track_resilience recovering base [] ≡ (
      if succeeds a1
      then (outcome [] 0, log1)
      else if succeeds a2
      then (outcome (line_of 1 a1 ∷ line_of 2 a2 ∷ []) 100, log2)
      else if succeeds a3
      then (outcome (line_of 1 a1 ∷ line_of 2 a2 ∷ line_of 3 a3 ∷ []) 300, log3)
      else (outcome (line_of 1 a1 ∷ line_of 2 a2 ∷ line_of 3 a3 ∷ gave_up ∷ []) 300, log3))
track_resilience_lem_example = track_resilience_lem recovering base []

track_event-IsFine_example :
    IsFine recovering base 0 17 (track_event recovering base true draws (codes "/") []).1
track_event-IsFine_example = track_event-IsFine recovering base true draws (codes "/") [] tt
