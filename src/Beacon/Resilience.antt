-- ===== src/Beacon/Resilience.antt =====
-- The retries of `trackResilience`.
use mock_lab.Common.{ℕ, ◌≡◌, Bool, false, List, [], ◌∷◌, ◌++◌, ltb, if◌then◌else◌, arith}
use mock_lab.Common.Text.{Bytes}
use mock_lab.Beacon.{
  Call, Answer, lost, reply, Line, attempt_failed, attempt_status, recovered, gave_up, Outcome,
  chaos_note, inventory, track_resilience,
}

-- An answer below 500 is a success.
abbrev pub succeeds : Answer → Bool
succeeds (lost err) = false
succeeds (reply r) = ltb r.status 500

-- What an attempt logs, by its number and answer.
abbrev pub line_of : ℕ → Answer → Line
line_of n (lost err) = attempt_failed n err
line_of n (reply r) =
    if ltb r.status 500
    then recovered n r.size (chaos_note r)
    else attempt_status n r.status (chaos_note r)

abbrev pub outcome : List Line → ℕ → Outcome
outcome lines slept = record { lines = lines; slept = slept }

-- `trackResilience` calls the inventory until an answer succeeds, three times at most, sleeping 100
-- and then 200 milliseconds between attempts; it logs each failed attempt, the recovery if there
-- was a failure before it, and that it gave up exactly when all three attempts failed.
pub track_resilience_lem :
    (net : List Call → Call → Answer) (downstream : Bytes) (log : List Call)
    → let c = inventory net downstream in
      let log1 = log ++ c ∷ [] in
      let log2 = log1 ++ c ∷ [] in
      let log3 = log2 ++ c ∷ [] in
      let a1 = net log c in
      let a2 = net log1 c in
      let a3 = net log2 c in
      track_resilience net downstream log ≡ (
        if succeeds a1
        then (outcome [] 0, log1)
        else if succeeds a2
        then (outcome (line_of 1 a1 ∷ line_of 2 a2 ∷ []) 100, log2)
        else if succeeds a3
        then (outcome (line_of 1 a1 ∷ line_of 2 a2 ∷ line_of 3 a3 ∷ []) 300, log3)
        else (outcome (line_of 1 a1 ∷ line_of 2 a2 ∷ line_of 3 a3 ∷ gave_up ∷ []) 300, log3))
unfolding track_resilience
track_resilience_lem net downstream log = ground arith
