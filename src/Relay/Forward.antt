-- ===== src/Relay/Forward.antt =====
-- What the relay sends on.
use mock_lab.Common.{
  ℕ, ◌^◌, ◌≡◌, ◌⊎◌, ◌≤◌, inl, inr, refl, Bool, ◌&&◌, zero, suc, [], ◌∷◌, ◌++◌, Option, none, some,
  length, take, All, arith, Option-cases, Bool-cases, ltb,
}
use mock_lab.Common.Text.{Bytes, codes, is_empty}
use mock_lab.Relay.{
  RelayRequest, Outgoing, Sent, do_error, responded, validate, outgoing, target_base, forward,
  relay_handler,
}
use mock_lab.Relay.Rules.{IsValid, IsToken, validate_iff}

module _ (builds : Bytes → Bytes → Bool) (client : Outgoing → Sent × ℕ)
    (upstream_base : Bytes) where
  -- A call that carries a valid request to its path on the chosen target.
  pub record Carries (req : RelayRequest) (o : Outgoing) : Type 0 where
    pub valid : IsValid req
    pub method : o.method ≡ req.method
    pub url : o.url ≡ target_base upstream_base req.port ++ req.path
    pub bearer :
        (o.authorization ≡ [])
        ⊎ ((token : Bytes) × (o.authorization ≡ codes "Bearer " ++ token) × IsToken token)

  outgoing-Carries : (req : RelayRequest) → IsValid req → Carries req (outgoing upstream_base req)
  unfolding outgoing
  outgoing-Carries req v = record {
    valid = v;
    method = refl;
    url = refl;
    bearer = elim v.token [
      | inl e ↦ inl (rw e refl)
      | inr t ↦ elim (Bool-cases (is_empty req.token)) [
        | inl e ↦ inl (rw e refl)
        | inr e ↦ inr (req.token, rw e refl, t)
      ]
    ];
  }

  length-take : (n : ℕ) (s : Bytes) → length (take n s) ≤ n
  length-take zero s = omega arith
  length-take (suc n) [] = omega arith
  length-take (suc n) (c ∷ s) = omega (arith, length-take n s)

  Sent-cases :
      (x : Sent)
      → ((b : Bool) × (x ≡ do_error b))
        ⊎ ((status : ℕ) × (bytes : Bytes) × (breaks : Bool) × (x ≡ responded status bytes breaks))
  Sent-cases (do_error b) = inl (b, refl)
  Sent-cases (responded status bytes breaks) = inr (status, bytes, breaks, refl)

  -- The calls of `forward`, and the size of its body.
  forward_lem :
      (req : RelayRequest)
      → let (calls, out) = forward builds client upstream_base req in
        ((calls ≡ []) ⊎ (calls ≡ outgoing upstream_base req ∷ [])) × (length out.body ≤ 2 ^ 20)
  unfolding forward
  forward_lem req =
      let o = outgoing upstream_base req in
      elim (Bool-cases (builds o.method o.url)) [
        | inl e ↦ elim (Sent-cases (client o).0) [
          | inl (b, lost) ↦ (inr (rw e refl), ground arith)
          | inr (status, bytes, breaks, got) ↦ (
            inr (rw e refl),
            elim (Bool-cases (breaks && ltb (length bytes) (2 ^ 20))) [
              | inl cut ↦ rw (e, got, cut) (omega arith)
              | inr whole ↦ rw (e, got, whole) (length-take (2 ^ 20) bytes)
            ],
          )
        ]
        | inr e ↦ (inl (rw e refl), ground arith)
      ]

  -- The relay answers 400 and calls nothing when the request does not decode or is not valid, and
  -- 200 otherwise; it makes one call at most, and only one that carries a valid request: the same
  -- method, the chosen target and the demo path, and no Authorization header but "Bearer " and a
  -- token of plain bytes. The body that it passes back has at most 1 MiB.
  pub relay_handler_lem :
      (body : Option RelayRequest)
      → let (calls, status, out) = relay_handler builds client upstream_base body in
        ((status ≡ 400)
          × (calls ≡ [])
          × ((body ≡ none) ⊎ ((req : RelayRequest) × (body ≡ some req) × (¬ IsValid req))))
        ⊎ ((status ≡ 200)
            × ((req : RelayRequest) × (body ≡ some req)
                × IsValid req
                × All (Carries req) calls
                × (length calls ≤ 1)
                × (length out.body ≤ 2 ^ 20)))
  unfolding relay_handler
  relay_handler_lem none = inl (refl, refl, inl refl)
  relay_handler_lem (some req) = elim (Option-cases (validate req)) [
    | inl ok ↦
        let v : IsValid req = (validate_iff req).0 ok in
        let (calls, small) = forward_lem req in
        inr (
          rw (ok, relay_handler)
            (
              refl,
              (
                req,
                refl,
                v,
                elim calls [ inl e ↦ rw e tt | inr e ↦ rw e (outgoing-Carries req v, tt) ],
                elim calls [ inl e ↦ rw e (omega arith) | inr e ↦ rw e (omega arith) ],
                small,
              ),
            ))
    | inr (err, bad) ↦ inl (
      rw (bad, relay_handler) refl,
      rw (bad, relay_handler) refl,
      inr (req, refl, λ v. not_valid v bad),
    )
  ]
    where
      not_valid : {err : Bytes} → IsValid req → validate req ≡ some err → ⊥
      not_valid v bad = absurd (cc ((validate_iff req).1 v, bad))
