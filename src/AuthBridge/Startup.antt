-- ===== src/AuthBridge/Startup.antt =====
-- cmd/auth-bridge/main.go: the configuration that the bridge reads from its environment, and the
-- certificate that its TLS listener presents.
mod Certificate
pub mod Main
mod Tests
use Prim.Native.String.{◌++◌}
use ogo.Base.{ℕ, ◌-◌, ◌*◌, String, Bool, Option, none, some, ◌==◌, ◌&&◌, not, ltb, if◌then◌else◌}
use ogo.Base.Result.{Result, ok, err}
use ogo.Dict.{Dict, lookup}
use ogo.AuthBridge.{Config, minute}

-- `os.Getenv`
unfoldable pub getenv : String → Dict String → String
unfolding lookup
getenv key env = elim (lookup key env) [ none ↦ "" | some v ↦ v ]

unfoldable pub env_or_default : (key fallback : String) → Dict String → String
unfolding getenv
env_or_default key fallback env = if getenv key env == "" then fallback else getenv key env

unfoldable pub resolve_listen_addr : (explicit : Option String) → (tls_configured : Bool) → String
resolve_listen_addr explicit tls_configured =
    let fallback = if tls_configured then "127.0.0.1:8085" else ":8085" in
    elim explicit [ none ↦ fallback | some addr ↦ if addr == "" then fallback else addr ]

-- Go's `time.ParseDuration` and `tls.LoadX509KeyPair`. Durations are in nanoseconds; none that is
-- parsed is negative.
pub record Go (Pair : Type 0) : Type 0 where
  pub parse_duration : String → Option ℕ
  pub load_pair : (cert key : String) → Result String Pair

module _ {Pair : Type 0} (go : Go Pair) where
  unfoldable pub parse_duration : (s : String) → (fallback : ℕ) → ℕ
  parse_duration s fallback =
      if s == "" then fallback else elim (go.parse_duration s) [ none ↦ fallback | some d ↦ d ]

  unfoldable pub validate_tls_files : (cert key : String) → Option String
  validate_tls_files cert key =
      if (cert == "") && (not (key == ""))
      then some "AUTH_BRIDGE_TLS_CERT and AUTH_BRIDGE_TLS_KEY must be configured together"
      else if not (cert == "") && (key == "")
      then some "AUTH_BRIDGE_TLS_CERT and AUTH_BRIDGE_TLS_KEY must be configured together"
      else if cert == ""
      then none
      else elim (go.load_pair cert key) [
        | err message ↦ some ("loading TLS cert/key: " ++ message)
        | ok _ ↦ none
      ]

  unfoldable pub read_config : Dict String → Config
  unfolding env_or_default getenv resolve_listen_addr parse_duration
  read_config env =
      let issuer = env_or_default "AUTH_BRIDGE_ISSUER" "http://localhost:8085" env in
      record {
        issuer = issuer;
        external_issuer = env_or_default "AUTH_BRIDGE_EXTERNAL_ISSUER" issuer env;
        audience = env_or_default "AUTH_BRIDGE_AUDIENCE" "openshell-cli" env;
        listen_addr =
            resolve_listen_addr (lookup "AUTH_BRIDGE_LISTEN" env)
              (not (getenv "AUTH_BRIDGE_TLS_CERT" env == ""));
        openshift_oauth =
            env_or_default "AUTH_BRIDGE_OPENSHIFT_ISSUER" "https://oauth-openshift.apps.example.com"
              env;
        client_id = env_or_default "AUTH_BRIDGE_CLIENT_ID" "openshell" env;
        client_secret = getenv "AUTH_BRIDGE_CLIENT_SECRET" env;
        user_group = getenv "AUTH_BRIDGE_USER_GROUP" env;
        admin_group = getenv "AUTH_BRIDGE_ADMIN_GROUP" env;
        token_ttl = parse_duration (getenv "AUTH_BRIDGE_TOKEN_TTL" env) (480 * minute);
      }

  -- a fatal message of the files or for a missing secret, or the configuration
  unfoldable pub accept_config : (problem : Option String) → Config → Result String Config
  accept_config (some message) config = err message
  accept_config none config =
      if config.client_secret == "" then err "AUTH_BRIDGE_CLIENT_SECRET is required" else ok config

  -- the start, up to the server
  unfoldable pub configure : Dict String → Result String Config
  unfolding getenv validate_tls_files read_config accept_config
  configure env =
      accept_config
        (validate_tls_files (getenv "AUTH_BRIDGE_TLS_CERT" env) (getenv "AUTH_BRIDGE_TLS_KEY" env))
        (read_config env)

-- What a listener remembers: a certificate and when it was read.
pub record CachedPair (Pair : Type 0) : Type 0 where
  pub pair : Pair
  pub cached_at : ℕ

-- A handshake: the two readings of the clock, and what reading the files would give.
pub record Handshake (Pair : Type 0) : Type 0 where
  pub now : ℕ
  pub loaded : Result String Pair
  pub loaded_at : ℕ

module _ {Pair : Type 0} where
  -- what was read before serves if the files cannot be read
  unfoldable pub reloaded :
      (loaded_at : ℕ)
      → Result String Pair
      → Option (CachedPair Pair)
      → Result String Pair × Option (CachedPair Pair)
  reloaded loaded_at (ok p) cached = (ok p, some (record { pair = p; cached_at = loaded_at }))
  reloaded loaded_at (err message) none = (err message, none)
  reloaded loaded_at (err message) (some c) = (ok c.pair, some c)

  unfoldable pub reload :
      Handshake Pair → Option (CachedPair Pair) → Result String Pair × Option (CachedPair Pair)
  unfolding reloaded
  reload h cached = reloaded h.loaded_at h.loaded cached

  unfoldable pub load_certificate :
      (ttl : ℕ)
      → Handshake Pair
      → Option (CachedPair Pair)
      → Result String Pair × Option (CachedPair Pair)
  unfolding reload
  load_certificate ttl h none = reload h none
  load_certificate ttl h (some c) =
      if ltb (h.now - c.cached_at) ttl then (ok c.pair, some c) else reload h (some c)
