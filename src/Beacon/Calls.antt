-- ===== src/Beacon/Calls.antt =====
-- Where the beacon's calls go, and how many there are.
use mock_lab.Common.{
  ℕ, zero, suc, ◌+◌, ◌≤◌, ◌≡◌, refl, Bool, true, false, List, [], ◌∷◌, ◌++◌, if◌then◌else◌, arith,
  Option-cases, inl, inr, Bool-cases, All, All-append, length, length-append,
}
use mock_lab.Common.Text.{Bytes, codes}
use mock_lab.Common.Json.{obj, member, str, end}
use mock_lab.Beacon.Resilience.{succeeds}
use mock_lab.Beacon.{
  Call, get, post, get_with, Answer, Reply, lost, reply, Flow, pure, call, ◌>>=◌, ◌>>◌, Draws,
  track_timed, track_graphql, track_cursor, track_poll, poll, poll_paths, track_create_use,
  track_auth, track_resilience, resilience_from, track_event, further_flows, beacon_call, field,
  inventory, Answer-cases,
}

abbrev pub url_of : Call → Bytes
url_of (get u) = u
url_of (post u _) = u
url_of (get_with u _ _) = u

module _ (net : List Call → Call → Answer) (downstream : Bytes) where
  -- A call of the downstream.
  pub record Under (c : Call) : Type 0 where
    pub path : Bytes
    pub same : url_of c ≡ downstream ++ path

  -- A log of calls of the downstream alone, at most `n` more than `base`.
  pub record IsFine (base n : ℕ) (log : List Call) : Type 0 where
    pub under : All Under log
    pub few : length log ≤ base + n

  IsFine-call :
      {base n : ℕ} {log : List Call} (c : Call) (path : Bytes)
      → url_of c ≡ downstream ++ path
      → IsFine base n log
      → IsFine base (n + 1) (log ++ c ∷ [])
  IsFine-call {log} c path e h = record {
    under = All-append Under log (c ∷ []) h.under (record { path = path; same = e }, tt);
    few = omega (arith, h.few, length-append log (c ∷ []));
  }

  IsFine-weaken :
      {base n : ℕ} {log : List Call} (m : ℕ) → n ≤ m → IsFine base n log → IsFine base m log
  IsFine-weaken m le h = record { under = h.under; few = omega (arith, h.few) }

  module _ {base n : ℕ} {log : List Call} (h : IsFine base n log) where
    track_timed-IsFine :
        (d : Draws) (path : Bytes) → IsFine base (n + 1) (track_timed net downstream d path log).1
    unfolding track_timed
    track_timed-IsFine d path = IsFine-call _ _ refl h

    track_graphql-IsFine :
        (d : Draws) (path : Bytes) → IsFine base (n + 1) (track_graphql net downstream d path log).1
    unfolding track_graphql
    track_graphql-IsFine d path = IsFine-call _ _ refl h

    track_cursor-IsFine : IsFine base (n + 2) (track_cursor net downstream log).1
    unfolding track_cursor mock_lab.Beacon.Net.field
    track_cursor-IsFine =
        let first = IsFine-call (get (downstream ++ codes "/v1/feed")) _ refl h in
        elim (Option-cases
          (field (codes "nextcursor") (net log (get (downstream ++ codes "/v1/feed"))))) [
            | inl e ↦ rw e (IsFine-weaken (n + 2) (omega arith) first)
            | inr (cursor, e) ↦
                rw e (IsFine-weaken (n + 2) (omega arith) (IsFine-call _ _ refl first))
          ]

    track_create_use-IsFine : IsFine base (n + 2) (track_create_use net downstream log).1
    unfolding track_create_use mock_lab.Beacon.Net.field
    track_create_use-IsFine =
        let order = obj (member (codes "item") (str (codes "cncf-report")) end) in
        let c = post (downstream ++ codes "/v1/orders") order in
        let first = IsFine-call c _ refl h in
        elim (Option-cases (field (codes "id") (net log c))) [
          | inl e ↦ rw e (IsFine-weaken (n + 2) (omega arith) first)
          | inr (id, e) ↦ rw e (IsFine-weaken (n + 2) (omega arith) (IsFine-call _ _ refl first))
        ]

    track_auth-IsFine : IsFine base (n + 2) (track_auth net downstream log).1
    unfolding track_auth mock_lab.Beacon.Net.field
    track_auth-IsFine =
        let grant = obj (member (codes "grant_type") (str (codes "client_credentials")) end) in
        let c = post (downstream ++ codes "/v1/auth/token") grant in
        let first = IsFine-call c _ refl h in
        elim (Option-cases (field (codes "access_token") (net log c))) [
          | inl e ↦ rw e (IsFine-weaken (n + 2) (omega arith) first)
          | inr (token, e) ↦ rw e (IsFine-weaken (n + 2) (omega arith) (IsFine-call _ _ refl first))
        ]

  poll-IsFine :
      (paths : List Bytes) {base n : ℕ} {log : List Call}
      → IsFine base n log
      → IsFine base (n + length paths) (poll net downstream paths log).1
  unfolding poll
  poll-IsFine [] {n} h = IsFine-weaken (n + 0) (omega arith) h
  poll-IsFine (path ∷ paths) {base} {n} {log} h =
      let first = IsFine-call (get (downstream ++ path)) _ refl h in
      let rest = IsFine-weaken (n + suc (length paths)) (omega arith) (poll-IsFine paths first) in
      let done = IsFine-weaken (n + suc (length paths)) (omega arith) first in
      elim (Answer-cases (net log (get (downstream ++ path)))) [
        | inl (err, e) ↦ rw e done
        | inr (r, e) ↦ rw e rest
      ]

  -- One round of the retries, as to its calls.
  resilience_from-suc :
      (left attempt : ℕ) (log : List Call)
      → let c = inventory net downstream in
        let log' = log ++ c ∷ [] in
        (resilience_from net downstream (suc left) attempt log).1 ≡ (
          if succeeds (net log c)
          then log'
          else (resilience_from net downstream left (attempt + 1) log').1)
  unfolding resilience_from
  resilience_from-suc left attempt log = ground arith

  resilience_from-IsFine :
      (left attempt : ℕ) {base n : ℕ} {log : List Call}
      → IsFine base n log
      → IsFine base (n + left) (resilience_from net downstream left attempt log).1
  resilience_from-IsFine zero attempt {n} h =
      unfold resilience_from in IsFine-weaken (n + 0) (omega arith) h
  resilience_from-IsFine (suc left) attempt {base} {n} {log} h =
      let first = IsFine-call (inventory net downstream) _ refl h in
      let rest =
        IsFine-weaken (n + suc left) (omega arith)
          (resilience_from-IsFine left (attempt + 1) first) in
      let done = IsFine-weaken (n + suc left) (omega arith) first in
      rw (resilience_from-suc left attempt log)
        (elim (Bool-cases (succeeds (net log (inventory net downstream)))) [
          | inl ok ↦ rw ok done
          | inr bad ↦ rw bad rest
        ])

  further_flows-IsFine :
      (d : Draws) (path : Bytes) {base n : ℕ} {log : List Call}
      → IsFine base n log
      → IsFine base (n + 16) (further_flows net downstream d path log).1
  unfolding further_flows track_poll track_resilience
  further_flows-IsFine d path {n} h = IsFine-weaken (n + 16) (omega arith) (
      resilience_from-IsFine 3 1 (
        track_auth-IsFine (
          track_create_use-IsFine (
            poll-IsFine poll_paths
              (track_cursor-IsFine (track_graphql-IsFine (track_timed-IsFine h d path) d path))))))

  -- If all calls before it are calls of the downstream, then so are all calls of the beacon, and it
  -- makes at most seventeen for a request.
  pub track_event-IsFine :
      (emit : Bool) (d : Draws) (path : Bytes) (log : List Call)
      → All Under log
      → IsFine (length log) 17 (track_event net downstream emit d path log).1
  unfolding track_event beacon_call
  track_event-IsFine false d path log h = record { under = h; few = omega arith }
  track_event-IsFine true d path log h =
      let c : Call = beacon_call net downstream d path in
      let first : IsFine (length log) 1 (log ++ c ∷ []) =
        IsFine-weaken 1 (omega arith)
          (IsFine-call {n = 0} c _ refl (record { under = h; few = omega arith })) in
      elim (Answer-cases (net log c)) [
        | inl (err, e) ↦ rw e (IsFine-weaken 17 (omega arith) first)
        | inr (r, e) ↦ rw e (further_flows-IsFine d path first)
      ]

  -- Switched off, the beacon makes no call; switched on, it makes only its first call if that
  -- fails.
  pub track_event_gate :
      (d : Draws) (path : Bytes) (log : List Call) {err : Bytes}
      → net log (beacon_call net downstream d path) ≡ lost err
      → (track_event net downstream false d path log ≡ (tt, log))
        × (track_event net downstream true d path log
            ≡ (tt, log ++ beacon_call net downstream d path ∷ []))
  unfolding track_event
  track_event_gate d path log e = (refl, rw e)
