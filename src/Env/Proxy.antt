-- ===== src/Env/Proxy.antt =====
-- The two ways of choosing a proxy.
use mock_lab.Common.{◌≡◌, ◌⊎◌, refl, inl, inr, none, some, Bool-cases, if◌then◌else◌, [], ◌∷◌}
use mock_lab.Common.Text.{Bytes, codes, text_eq, is_empty, to_lower}
use mock_lab.Env.{
  Environment, first_non_empty, proxy_including_localhost, proxy_of_keys, proxy_any_host,
}

module _ {Url : Type 0} (parse : Bytes → Bytes ⊎ Url) (getenv : Environment) where
  -- Two variables, in this order, and two that are not set.
  two_keys :
      (a b c d : Bytes)
      → getenv c ≡ []
      → getenv d ≡ []
      → (let address = first_non_empty (getenv a ∷ getenv b ∷ getenv c ∷ getenv d ∷ []) in
          if is_empty address then none else some (parse address))
        ≡ proxy_of_keys parse getenv (a ∷ b ∷ [])
  unfolding first_non_empty proxy_of_keys
  two_keys a b c d unset_c unset_d = elim (Bool-cases (is_empty (getenv a))) [
    | inr first ↦ rw (first, first) refl
    | inl none_a ↦ elim (Bool-cases (is_empty (getenv b))) [
      | inr second ↦ rw (none_a, second, second) refl
      | inl none_b ↦ rw (none_a, none_b, unset_c, unset_d) refl
    ]
  ]

  -- For the schemes http and https the labs choose the proxy that the demo app chooses, if ALL_PROXY and
  -- all_proxy are not set.
  pub proxy_including_localhost_same :
      (scheme : Bytes)
      → (scheme ≡ codes "http") ⊎ (scheme ≡ codes "https")
      → getenv (codes "ALL_PROXY") ≡ []
      → getenv (codes "all_proxy") ≡ []
      → proxy_including_localhost parse getenv scheme ≡ proxy_any_host parse getenv scheme
  unfolding proxy_including_localhost proxy_any_host codes text_eq to_lower
  proxy_including_localhost_same scheme (inl http) upper lower = rw http (
      two_keys (codes "HTTP_PROXY") (codes "http_proxy") (codes "ALL_PROXY") (codes "all_proxy")
        upper lower)
  proxy_including_localhost_same scheme (inr https) upper lower = rw https (
      two_keys (codes "HTTPS_PROXY") (codes "https_proxy") (codes "ALL_PROXY") (codes "all_proxy")
        upper lower)
