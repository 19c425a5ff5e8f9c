-- ===== src/Demo/Auth.antt =====
-- Which requests carry a valid token.
use mock_lab.Common.{ℕ, ◌≡◌, ◌↔◌, refl, ◌||◌, true, [], ◌++◌, some, arith, Option-cases, inl, inr}
use mock_lab.Common.Text.{
  Bytes, codes, cut_prefix, cut_prefix-append, cut_prefix_sound, text_eq, text_eq_iff,
  text_eq-append,
}
use mock_lab.Common.Dict.{lookup, lookup-insert}
use mock_lab.Ids.{rand_id}
use mock_lab.Demo.{State, authed, token_handler}

-- A request is authorised exactly when its header is "Bearer " and a token marked valid.
pub authed_iff :
    (authorization : Bytes) (s : State)
    → (authed authorization s ≡ true) ↔ (
        (token : Bytes) × (authorization ≡ codes "Bearer " ++ token)
        × (lookup token s.valid_tokens ≡ some true))
unfolding authed
authed_iff authorization s = (to, from)
  where
    to :
        authed authorization s ≡ true
        → (token : Bytes) × (authorization ≡ codes "Bearer " ++ token)
          × (lookup token s.valid_tokens ≡ some true)
    to h = elim (Option-cases (cut_prefix (codes "Bearer ") authorization)) [
      | inl missing ↦ absurd (ground arith)
      | inr (token, cut) ↦ (token, cut_prefix_sound _ _ _ cut, ground arith)
    ]

    from :
        ((token : Bytes) × (authorization ≡ codes "Bearer " ++ token)
          × (lookup token s.valid_tokens ≡ some true))
        → authed authorization s ≡ true
    from (token, e, valid) = ground (arith, cut_prefix-append (codes "Bearer ") token)

-- `tokenHandler` adds one token: in the state that it leaves a header is authorised if it carries
-- the token handed out, or was authorised before; and the orders are untouched.
pub authed-token_handler :
    (random : ℕ → ℕ) (h : Bytes) (s : State)
    → let s' = (token_handler random s).0 in
      (authed h s' ≡ (text_eq (codes "Bearer " ++ rand_id [] 32 random) h || authed h s))
      × (s'.orders ≡ s.orders)
unfolding token_handler authed
authed-token_handler random h s =
    let token = rand_id [] 32 random in
    (
      elim (Option-cases (cut_prefix (codes "Bearer ") h)) [
        | inl missing ↦ ground (
          arith,
          text_eq_iff (codes "Bearer " ++ token) h,
          cut_prefix-append (codes "Bearer ") token,
        )
        | inr (t, cut) ↦ ground (
          arith,
          cut_prefix_sound (codes "Bearer ") h t cut,
          text_eq-append (codes "Bearer ") token t,
          lookup-insert token t true s.valid_tokens,
        )
      ],
      refl,
    )
