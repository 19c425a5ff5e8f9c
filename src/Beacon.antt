-- ===== src/Beacon.antt =====
-- languages/go/main.go: the opt-in telemetry beacon, which calls the downstream beside each
-- request and ignores what goes wrong.
-- A flow is a computation that makes calls one after the other: it takes the calls made so far and
-- gives back the longer list; the answer to a call may depend on all the calls before it.
mod Net
pub mod Resilience
pub mod Calls
mod Tests
pub use Net.*
use mock_lab.Common.{
  ℕ, zero, suc, ◌+◌, ◌*◌, Bool, List, [], ◌∷◌, ◌++◌, Option, none, some, ltb, if◌then◌else◌, drop,
  take,
}
use mock_lab.Common.Text.{Bytes, codes, text_eq, is_empty}
use mock_lab.Common.Json.{Json, str, obj, end, member, decode_string}
use mock_lab.Common.Url.{query_escape}
use mock_lab.Common.Decimal.{decimal}
use mock_lab.Ids.{
  Time, unix, rand_id, event_id, new_ulid, new_snowflake, new_object_id, new_uuid_v7, new_xid,
  new_ksuid,
}

-- What a request draws: the formatted time of the event, the times that `trackTimed` and `trackGraphQL`
-- take, and the random bytes, where `read k` is the array that a `rand.Read` fills behind `k` others.
pub record Draws : Type 0 where
  pub ts : Bytes
  pub timed_at : Time
  pub graphql_at : Time
  pub read : ℕ → ℕ → ℕ

-- The paths that `trackPoll` asks for, in turn.
abbrev poll_paths : List Bytes
poll_paths =
    codes "/v1/job/status"
    ∷ codes "/v1/job/status"
    ∷ codes "/v1/job/status"
    ∷ codes "/v1/time"
    ∷ codes "/v1/time"
    ∷ []

module _ (net : List Call → Call → Answer) (downstream : Bytes) where
  open_get : Bytes → Flow Answer
  open_get path = call net (get (downstream ++ path))

  open_post : Bytes → Json → Flow Answer
  open_post path body = call net (post (downstream ++ path) body)

  pub track_timed : Draws → Bytes → Flow (Unit {0})
  unfolding open_post
  track_timed d path =
      let u =
        codes "/v1/track/"
        ++ new_ulid d.timed_at (d.read 1)
        ++ codes "?ts="
        ++ decimal (unix d.timed_at)
        ++ codes "&sid="
        ++ decimal (new_snowflake d.timed_at (d.read 2))
        ++ codes "&oid="
        ++ new_object_id d.timed_at (d.read 3)
        ++ codes "&u7="
        ++ new_uuid_v7 d.timed_at (d.read 4)
        ++ codes "&xid="
        ++ new_xid d.timed_at (d.read 5)
        ++ codes "&ksuid="
        ++ new_ksuid d.timed_at (d.read 6) in
      open_post u (
        obj (
          member (codes "event") (str (codes "api_request_timed"))
            (member (codes "path") (str path) end)))
      >>= λ _. pure tt

  pub track_graphql : Draws → Bytes → Flow (Unit {0})
  unfolding open_post
  track_graphql d path =
      open_post (codes "/graphql") (
        obj (
          member (codes "operationName") (str (codes "TrackEvent")) (
            member (codes "query")
              (str (
                codes
                  "query TrackEvent($id: ID!, $path: String!) { event(id: $id, path: $path) { ok } }"))
              (member (codes "variables")
                (obj (
                  member (codes "id") (str (new_ulid d.graphql_at (d.read 7)))
                    (member (codes "path") (str path) end)))
                end))))
      >>= λ _. pure tt

  -- The next page is asked for by the cursor of the first, if it has one.
  pub track_cursor : Flow (Unit {0})
  unfolding open_get
  track_cursor = open_get (codes "/v1/feed") >>= λ answer.
      elim (field (codes "nextcursor") answer) [
        | none ↦ pure tt
        | some cursor ↦ open_get (codes "/v1/feed?cursor=" ++ query_escape cursor) >>= λ _. pure tt
      ]

  -- The loop of `trackPoll`, which ends at the first call that fails.
  poll : List Bytes → Flow (Unit {0})
  unfolding open_get
  poll [] = pure tt
  poll (path ∷ paths) =
      open_get path >>= λ answer. elim answer [ lost err ↦ pure tt | reply r ↦ poll paths ]

  pub track_poll : Flow (Unit {0})
  unfolding poll
  track_poll = poll poll_paths

  -- The order is read by the ID that its creation answered with.
  pub track_create_use : Flow (Unit {0})
  unfolding open_get open_post
  track_create_use =
      open_post (codes "/v1/orders") (obj (member (codes "item") (str (codes "cncf-report")) end))
      >>= λ answer. elim (field (codes "id") answer) [
        | none ↦ pure tt
        | some id ↦ open_get (codes "/v1/orders/" ++ id) >>= λ _. pure tt
      ]

  -- The token and the session cookie of the answer go into the headers of the next call.
  pub track_auth : Flow (Unit {0})
  unfolding open_post
  track_auth =
      open_post (codes "/v1/auth/token")
        (obj (member (codes "grant_type") (str (codes "client_credentials")) end))
      >>= λ answer. elim (field (codes "access_token") answer) [
        | none ↦ pure tt
        | some token ↦
            call net (
              get_with (downstream ++ codes "/v1/me") (codes "Bearer " ++ token)
                (session_cookie (cookies_of answer)))
            >>= λ _. pure tt
      ]

-- What `trackResilience` logs, without the times.
pub data Line : Type 0 where
  attempt_failed : ℕ → Bytes → Line
  attempt_status : ℕ → ℕ → Bytes → Line
  recovered : ℕ → ℕ → Bytes → Line
  gave_up : Line

-- The lines, and the milliseconds slept between the attempts.
pub record Outcome : Type 0 where
  pub lines : List Line
  pub slept : ℕ

abbrev pub attempts : ℕ
attempts = 3

abbrev pub chaos_note : Reply → Bytes
chaos_note r = if is_empty r.chaos then [] else codes " [chaos: " ++ r.chaos ++ codes "]"

module _ (net : List Call → Call → Answer) (downstream : Bytes) where
  abbrev pub inventory : Call
  inventory = get (downstream ++ codes "/v1/inventory/CNCF-1001")

  -- What an attempt that did not succeed leaves: its line, and the pause before the next attempt.
  abbrev after_failure : ℕ → Line → Outcome → Outcome
  after_failure attempt line rest = record {
    lines = line ∷ rest.lines;
    slept = (if ltb attempt attempts then attempt * 100 else 0) + rest.slept;
  }

  -- The loop: `left` attempts are left, and this is the one of number `attempt`.
  resilience_from : ℕ → ℕ → Flow Outcome
  resilience_from zero attempt log = (record { lines = gave_up ∷ []; slept = 0 }, log)
  resilience_from (suc left) attempt log =
      let log' = log ++ inventory ∷ [] in
      let next = resilience_from left (attempt + 1) log' in
      elim (net log inventory) [
        | lost err ↦ (after_failure attempt (attempt_failed attempt err) next.0, next.1)
        | reply r ↦
            let failure : Outcome × List Call = (
              after_failure attempt (attempt_status attempt r.status (chaos_note r)) next.0,
              next.1,
            ) in
            let success : Outcome × List Call = (
              record {
                lines =
                    (if ltb 1 attempt then recovered attempt r.size (chaos_note r) ∷ [] else []);
                slept = 0;
              },
              log',
            ) in
            if ltb r.status 500 then success else failure
      ]

  pub track_resilience : Flow Outcome
  unfolding resilience_from
  track_resilience = resilience_from attempts 1

  -- The flows that follow the first call of the beacon.
  further_flows : Draws → Bytes → Flow (Unit {0})
  further_flows d path =
      track_timed net downstream d path
      >> track_graphql net downstream d path
      >> track_cursor net downstream
      >> track_poll net downstream
      >> track_create_use net downstream
      >> track_auth net downstream
      >> track_resilience
      >>= λ _. pure tt

  pub beacon_call : Draws → Bytes → Call
  beacon_call d path =
      let u = codes "/v1/track/" ++ event_id (rand_id [] 16 (d.read 0)) in
      post (downstream ++ u) (
        obj (
          member (codes "event") (str (codes "api_request"))
            (member (codes "path") (str path) (member (codes "ts") (str d.ts) end))))

  -- The beacon: nothing unless it is switched on, and the further flows only if the first call
  -- got an answer.
  pub track_event : Bool → Draws → Bytes → Flow (Unit {0})
  track_event emit d path =
      let flows : Answer → Flow (Unit {0}) = elim [
        | lost err ↦ pure tt
        | reply r ↦ further_flows d path
      ] in
      if emit then (call net (beacon_call d path) >>= flows) else pure tt
