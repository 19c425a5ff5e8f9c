-- ===== src/Env.antt =====
-- What the Go programs read from their environment: proxyFromEnvAnyHost and durationFromEnv of
-- languages/go/main.go, and proxyFromEnvironmentIncludingLocalhost, firstNonEmpty and envOrDefault of
-- the labs.
-- The environment is a function from a name to its value, "" where it is not set; `url.Parse` and
-- `time.ParseDuration` are parameters.
pub mod Proxy
use mock_lab.Common.{
  ℕ, ◌-◌, ◌⊎◌, inl, inr, Bool, ◌&&◌, List, [], ◌∷◌, ◌++◌, Option, none, some, leb, if◌then◌else◌,
  map,
}
use mock_lab.Common.Text.{Bytes, codes, text_eq, is_empty, to_lower}
use mock_lab.Common.Int.{ℤ, pos, negsuc}

abbrev pub Environment : Type 0
Environment = Bytes → Bytes

-- `strings.ToUpper`, on ASCII.
abbrev pub to_upper : Bytes → Bytes
to_upper s = map (λ c. if leb b'a' c && leb c b'z' then c - 32 else c) s

pub first_non_empty : List Bytes → Bytes
first_non_empty [] = []
first_non_empty (v ∷ vs) = if is_empty v then first_non_empty vs else v

pub env_or_default : Environment → Bytes → Bytes → Bytes
env_or_default getenv name fallback = if is_empty (getenv name) then fallback else getenv name

module _ {Url : Type 0} (parse : Bytes → Bytes ⊎ Url) (getenv : Environment) where
  -- The labs: no proxy, or what `url.Parse` makes of the address.
  pub proxy_including_localhost : Bytes → Option (Bytes ⊎ Url)
  unfolding first_non_empty
  proxy_including_localhost scheme =
      let address = first_non_empty (
        getenv (to_upper scheme ++ codes "_PROXY")
        ∷ getenv (to_lower scheme ++ codes "_proxy")
        ∷ getenv (codes "ALL_PROXY")
        ∷ getenv (codes "all_proxy")
        ∷ []) in
      if is_empty address then none else some (parse address)

  -- The loop of `proxyFromEnvAnyHost` over the keys.
  pub proxy_of_keys : List Bytes → Option (Bytes ⊎ Url)
  proxy_of_keys [] = none
  proxy_of_keys (k ∷ ks) = if is_empty (getenv k) then proxy_of_keys ks else some (parse (getenv k))

  -- `proxyFromEnvAnyHost`
  pub proxy_any_host : Bytes → Option (Bytes ⊎ Url)
  unfolding proxy_of_keys
  proxy_any_host scheme = proxy_of_keys (
      if text_eq scheme (codes "https")
      then codes "HTTPS_PROXY" ∷ codes "https_proxy" ∷ []
      else codes "HTTP_PROXY" ∷ codes "http_proxy" ∷ [])

-- `durationFromEnv`: zero where it is not set or no duration.
pub duration_from_env : (Bytes → Option ℤ) → Environment → Bytes → ℤ
duration_from_env parse_duration getenv key =
    if is_empty (getenv key)
    then pos 0
    else elim (parse_duration (getenv key)) [ none ↦ pos 0 | some d ↦ d ]

-- What `main` of the demo app takes from the environment: the downstream, the timeout of its calls, if
-- one is set, and the port.
pub record Settings : Type 0 where
  pub downstream : Bytes
  pub timeout : Option ℕ
  pub port : Bytes

-- `d > 0`
abbrev pub positive : ℤ → Option ℕ
positive (pos n) = if leb n 0 then none else some n
positive (negsuc n) = none

pub settings : (Bytes → Option ℤ) → Environment → Settings
unfolding duration_from_env
settings parse_duration getenv =
    let downstream = getenv (codes "DOWNSTREAM_URL") in
    let port = getenv (codes "PORT") in
    record {
      downstream =
          if is_empty downstream then codes "https://demo-api.trafficreplay.com" else downstream;
      timeout = positive (duration_from_env parse_duration getenv (codes "DOWNSTREAM_TIMEOUT"));
      port = if is_empty port then codes "8080" else port;
    }
