-- ===== src/Relay/Rules.antt =====
-- Which requests the relay accepts.
use mock_lab.Common.{
  ◌^◌, ◌≡◌, ◌↔◌, ◌⊎◌, ◌≤◌, inl, inr, refl, Bool, true, false, ◌||◌, [], ◌∷◌, ◌++◌, none, length,
  All, All-of_all, all-of_All, arith, Option-cases, Bool-cases,
}
use mock_lab.Common.Text.{
  Bytes, codes, text_eq, text_eq_iff, is_empty, cut_prefix, cut_prefix_sound, cut_prefix-append,
}
use mock_lab.Common.Int.{pos, is_nat, is_nat_iff}
use mock_lab.Relay.{
  RelayRequest, method_get, method_post, is_slug_byte, slug, is_token_byte, token_ok, is_fixed,
  behind, allowed, validate,
}

-- A name of 1 to 80 letters, digits, dashes and underscores.
pub record IsSlug (s : Bytes) : Type 0 where
  pub some_byte : 1 ≤ length s
  pub few : length s ≤ 80
  pub bytes : All (λ c. is_slug_byte c ≡ true) s

-- At most 256 bytes, each one of the token's alphabet.
pub record IsToken (s : Bytes) : Type 0 where
  pub few : length s ≤ 256
  pub bytes : All (λ c. is_token_byte c ≡ true) s

-- The calls of the demo, by method and path.
pub data DemoCall (method path : Bytes) : Type 0 where
  page : method ≡ method_get → is_fixed path ≡ true → DemoCall method path
  project :
      method ≡ method_get
      → (s : Bytes) → path ≡ codes "/api/projects/" ++ s
      → IsSlug s
      → DemoCall method path
  order :
      method ≡ method_get
      → (s : Bytes) → path ≡ codes "/api/orders/" ++ s
      → IsSlug s
      → DemoCall method path
  new_token : method ≡ method_post → path ≡ codes "/oauth/token" → DemoCall method path
  new_order : method ≡ method_post → path ≡ codes "/api/orders" → DemoCall method path

slug_iff : (s : Bytes) → (slug s ≡ true) ↔ IsSlug s
unfolding slug
slug_iff [] = (λ h. cc h, λ h. absurd (omega (arith, h.some_byte)))
slug_iff (c ∷ s) = (
  λ h. record {
    some_byte = omega arith;
    few = ground arith;
    bytes = All-of_all _ is_slug_byte (λ _ e. e) (c ∷ s) (ground arith);
  },
  λ h. ground (arith, all-of_All is_slug_byte (c ∷ s) h.bytes, h.few),
)

token_ok_iff : (s : Bytes) → (token_ok s ≡ true) ↔ IsToken s
unfolding token_ok
token_ok_iff s = (
  λ h. record {
    few = ground arith;
    bytes = All-of_all _ is_token_byte (λ _ e. e) s (ground arith);
  },
  λ h. ground (arith, all-of_All is_token_byte s h.bytes, h.few),
)

-- A path behind a prefix.
behind-true :
    (prefix path : Bytes) (otherwise : Bool)
    → behind prefix path otherwise ≡ true
    → (otherwise ≡ true) ⊎ ((s : Bytes) × (path ≡ prefix ++ s) × IsSlug s)
behind-true prefix path otherwise h = elim (Option-cases (cut_prefix prefix path)) [
  | inl e ↦ inl (ground arith)
  | inr (s, e) ↦ inr (s, cut_prefix_sound prefix path s e, (slug_iff s).0 (ground arith))
]

behind-append :
    (prefix s : Bytes) (otherwise : Bool) → IsSlug s → behind prefix (prefix ++ s) otherwise ≡ true
behind-append prefix s otherwise h = ground (arith, cut_prefix-append prefix s, (slug_iff s).1 h)

behind-not_project :
    (s : Bytes) (otherwise : Bool)
    → behind (codes "/api/projects/") (codes "/api/orders/" ++ s) otherwise ≡ otherwise
unfolding codes cut_prefix
behind-not_project s otherwise = refl

allowed_sound : (method path : Bytes) → allowed method path ≡ true → DemoCall method path
unfolding allowed
allowed_sound method path h = elim (Bool-cases (text_eq method method_get)) [
  | inl e ↦
      let get : method ≡ method_get = (text_eq_iff _ _).0 e in
      elim (Bool-cases (is_fixed path)) [
        | inl f ↦ page get f
        | inr f ↦ elim (behind-true (codes "/api/projects/") path _ (ground arith)) [
          | inl rest ↦ elim (behind-true (codes "/api/orders/") path false rest) [
            | inl bad ↦ cc bad
            | inr (s, at, slug) ↦ order get s at slug
          ]
          | inr (s, at, slug) ↦ project get s at slug
        ]
      ]
  | inr e ↦
      let post : method ≡ method_post = (text_eq_iff _ _).0 (ground arith) in
      elim (Bool-cases (text_eq path (codes "/oauth/token"))) [
        | inl f ↦ new_token post ((text_eq_iff _ _).0 f)
        | inr f ↦ new_order post ((text_eq_iff _ _).0 (ground arith))
      ]
]

post-ne-get : text_eq method_post method_get ≡ false
unfolding codes text_eq
post-ne-get = refl

allowed_complete : (method path : Bytes) → DemoCall method path → allowed method path ≡ true
unfolding allowed
allowed_complete method path (page e f) = ground (arith, text_eq_iff method method_get)
allowed_complete method path (project e s at h) =
    let otherwise : Bool = behind (codes "/api/orders/") path false in
    let found : behind (codes "/api/projects/") path otherwise ≡ true =
      rw at (behind-append (codes "/api/projects/") s _ h) in
    ground (arith, text_eq_iff method method_get, found)
allowed_complete method path (order e s at h) =
    let found : behind (codes "/api/orders/") path false ≡ true =
      rw at (behind-append (codes "/api/orders/") s false h) in
    let skipped : behind (codes "/api/projects/") path true ≡ true =
      rw at (behind-not_project s true) in
    ground (arith, text_eq_iff method method_get, found, skipped)
allowed_complete method path (new_token e at) =
    ground
      (arith, post-ne-get, text_eq_iff method method_post, text_eq_iff path (codes "/oauth/token"))
allowed_complete method path (new_order e at) =
    ground
      (arith, post-ne-get, text_eq_iff method method_post, text_eq_iff path (codes "/api/orders"))

-- What a request must be.
pub record IsValid (req : RelayRequest) : Type 0 where
  pub port : (req.port ≡ pos 8080) ⊎ (req.port ≡ pos 4143)
  pub call : DemoCall req.method req.path
  pub body : length req.body ≤ 2 ^ 16
  pub token : (req.token ≡ []) ⊎ IsToken req.token

is_empty_iff : (s : Bytes) → (is_empty s ≡ true) ↔ (s ≡ [])
is_empty_iff [] = (λ _. refl, λ _. refl)
is_empty_iff (c ∷ s) = (λ h. cc h, λ e. cc e)

method_of :
    {method path : Bytes}
    → DemoCall method path
    → (text_eq method method_get || text_eq method method_post) ≡ true
method_of {method} (page e _) = ground (arith, text_eq_iff method method_get)
method_of {method} (project e _ _ _) = ground (arith, text_eq_iff method method_get)
method_of {method} (order e _ _ _) = ground (arith, text_eq_iff method method_get)
method_of {method} (new_token e _) = ground (arith, text_eq_iff method method_post)
method_of {method} (new_order e _) = ground (arith, text_eq_iff method method_post)

-- `validate` accepts exactly the requests for one of the two ports, with a call of the demo, a body
-- of at most 64 KiB, and a token that is empty or of at most 256 bytes of the token's alphabet.
pub validate_iff : (req : RelayRequest) → (validate req ≡ none) ↔ IsValid req
unfolding validate
validate_iff req = (to, from)
  where
    to : validate req ≡ none → IsValid req
    to h = record {
      port = elim (Bool-cases (is_nat 8080 req.port)) [
        | inl e ↦ inl ((is_nat_iff 8080 req.port).0 e)
        | inr e ↦ inr ((is_nat_iff 4143 req.port).0 (ground arith))
      ];
      call = allowed_sound _ _ (ground arith);
      body = ground arith;
      token = elim (Bool-cases (is_empty req.token)) [
        | inl e ↦ inl ((is_empty_iff req.token).0 e)
        | inr e ↦ inr ((token_ok_iff req.token).0 (ground arith))
      ];
    }

    from : IsValid req → validate req ≡ none
    from v =
        let token : (is_empty req.token || token_ok req.token) ≡ true = elim v.token [
          | inl e ↦ ground (arith, is_empty_iff req.token)
          | inr t ↦ ground (arith, (token_ok_iff req.token).1 t)
        ] in
        let port : (is_nat 8080 req.port || is_nat 4143 req.port) ≡ true = elim v.port [
          | inl e ↦ ground (arith, (is_nat_iff 8080 req.port).1 e)
          | inr e ↦ ground (arith, (is_nat_iff 4143 req.port).1 e)
        ] in
        ground (arith, method_of v.call, allowed_complete req.method req.path v.call, v.body)
