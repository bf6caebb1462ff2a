-- ===== src/AuthBridge/Startup/Main/Listeners.antt =====
-- cmd/auth-bridge/main.go: on which addresses the bridge can be reached without TLS.
use ogo.Base.{
  String, ◌≡◌, ◌≢◌, refl, inl, inr, Bool, true, false, not, Option, none, some, List, [], ◌∷◌, ◌==◌,
  ap, sym, subst, ◌∙◌, if◌then◌else◌, Bool-cases, eq_iff,
}
use ogo.Base.Result.{Result, ok, err, ok-inj, >>=-eq-ok}
use ogo.Dict.{Dict, lookup}
use ogo.AuthBridge.{Config}
use ogo.AuthBridge.Jwt.{Crypto, JwtError, new_jwt_signer}
use ogo.AuthBridge.Server.{Bridge, Urls}
use ogo.AuthBridge.Discovery.{new_server}
use ogo.AuthBridge.Startup.{
  Go, accept_config, configure, validate_tls_files, read_config, getenv, resolve_listen_addr,
}
use ogo.AuthBridge.Startup.Main.{
  Running, Listener, plain, tls, listeners, main, start, serve, new_http_server, listen_and_serve,
}

-- the address of each listener without TLS is as said
abbrev pub AllPlain : (String → Type 0) → List Listener → Type 0
AllPlain P [] = Unit
AllPlain P (plain s ∷ ls) = P s.addr × AllPlain P ls
AllPlain P (tls s cert key ∷ ls) = AllPlain P ls

abbrev pub Loopback : String → Type 0
Loopback addr = addr ≡ "127.0.0.1:8085"

listeners-AllPlain :
    (P : String → Type 0) (config : Config) (env : Dict String)
    → P config.listen_addr
    → AllPlain P (listeners config env)
unfolding listeners new_http_server listen_and_serve
listeners-AllPlain P config env h = elim (Bool-cases (getenv "AUTH_BRIDGE_TLS_CERT" env == "")) [
  | inl none_set ↦ rw (none_set, if◌then◌else◌) (h, tt)
  | inr cert_set ↦ rw (cert_set, if◌then◌else◌) (h, tt)
]

if-eq-ok :
    {E A : Type 0} (b : Bool) (e : E) (a : A) {out : A}
    → (if b then err e else ok a) ≡ ok out
    → (b ≡ false) × (a ≡ out)
if-eq-ok true e a h = cc
if-eq-ok false e a h = (refl, ok-inj h)

resolve_listen_addr-Loopback :
    (cert : String) → cert ≢ "" → Loopback (resolve_listen_addr none (not (cert == "")))
unfolding resolve_listen_addr
resolve_listen_addr-Loopback cert h = elim (Bool-cases (cert == "")) [
  | inl empty ↦ absurd (h ((eq_iff cert "").0 empty))
  | inr given ↦ rw (given, not, if◌then◌else◌) refl
]

new_server-config :
    (crypto : Crypto) (urls : Urls) (files : String → Option String) (env : Dict String)
    (c : Config) (b : Bridge)
    → new_server crypto urls files env c ≡ ok b
    → b.config ≡ c
unfolding new_server
new_server-config crypto urls files env c b e =
    let (signer, _, built) = >>=-eq-ok (new_jwt_signer crypto files env) _ e in
    sym (ap (λ (k : Bridge). k.config) (ok-inj built))

module _ {Pair : Type 0} (go : Go Pair) where
  accept_config-eq-ok :
      (problem : Option String) (c : Config) {config : Config}
      → accept_config go problem c ≡ ok config
      → (c ≡ config) × (problem ≡ none) × (config.client_secret ≢ "")
  unfolding accept_config
  accept_config-eq-ok (some message) c e = cc
  accept_config-eq-ok none c e =
      let (given, same) = if-eq-ok (c.client_secret == "") _ c e in
      (
        same,
        refl,
        λ empty.
            let is_empty : (c.client_secret == "") ≡ true =
              (eq_iff c.client_secret "").1 (ap (λ (k : Config). k.client_secret) same ∙ empty) in
            cc,
      )

  -- what a bridge that has started may rely on
  pub record Serves (env : Dict String) (running : Running) : Type 0 where
    pub has_secret : running.bridge.config.client_secret ≢ ""
    pub files_valid :
        validate_tls_files go (getenv "AUTH_BRIDGE_TLS_CERT" env) (getenv "AUTH_BRIDGE_TLS_KEY" env)
        ≡ none
    pub one_plain_address :
        AllPlain (λ addr. addr ≡ running.bridge.config.listen_addr) running.started
    pub local_with_tls :
        getenv "AUTH_BRIDGE_TLS_CERT" env ≢ ""
        → lookup "AUTH_BRIDGE_LISTEN" env ≡ none
        → AllPlain Loopback running.started

  read_config-Loopback :
      (env : Dict String)
      → getenv "AUTH_BRIDGE_TLS_CERT" env ≢ ""
      → lookup "AUTH_BRIDGE_LISTEN" env ≡ none
      → Loopback (read_config go env).listen_addr
  unfolding read_config
  read_config-Loopback env cert unset =
      rw unset (resolve_listen_addr-Loopback (getenv "AUTH_BRIDGE_TLS_CERT" env) cert)

  serve-Serves :
      (crypto : Crypto) (urls : Urls) (files : String → Option String) (env : Dict String)
      (x : Result JwtError Bridge) {running : Running}
      → validate_tls_files go (getenv "AUTH_BRIDGE_TLS_CERT" env) (getenv "AUTH_BRIDGE_TLS_KEY" env)
        ≡ none
      → (read_config go env).client_secret ≢ ""
      → ((b : Bridge) → x ≡ ok b → b.config ≡ read_config go env)
      → serve go crypto urls files env (read_config go env) x ≡ ok running
      → Serves env running
  unfolding serve
  serve-Serves crypto urls files env (err e) valid secret same h = cc
  serve-Serves crypto urls files env (ok b) valid secret same h =
      let config = same b refl in
      subst (Serves env) (ok-inj h) (record {
        has_secret = rw config secret;
        files_valid = valid;
        one_plain_address =
            listeners-AllPlain (λ addr. addr ≡ b.config.listen_addr) (read_config go env) env
              (ap (λ (k : Config). k.listen_addr) (sym config));
        local_with_tls = λ cert unset.
            listeners-AllPlain Loopback (read_config go env) env
              (read_config-Loopback env cert unset);
      })

  start-Serves :
      (crypto : Crypto) (urls : Urls) (files : String → Option String) (env : Dict String)
      (x : Result String Config) {running : Running}
      → configure go env ≡ x
      → start go crypto urls files env x ≡ ok running
      → Serves env running
  unfolding start configure
  start-Serves crypto urls files env (err text) e h = cc
  start-Serves crypto urls files env (ok config) {running} e h =
      let (same, valid, secret) = accept_config-eq-ok _ (read_config go env) e in
      serve-Serves crypto urls files env (new_server crypto urls files env (read_config go env))
        valid (subst (λ (k : Config). k.client_secret ≢ "") (sym same) secret)
        (new_server-config crypto urls files env (read_config go env))
        (subst
          (λ (k : Config).
            serve go crypto urls files env k (new_server crypto urls files env k) ≡ ok running)
          (sym same) h)

  -- If the bridge starts, then it has a client secret, the TLS files that are configured were
  -- valid together, every listener without TLS has the one address of the configuration, and that
  -- address is 127.0.0.1:8085 if a certificate is configured and AUTH_BRIDGE_LISTEN is not set.
  pub main-Serves :
      (crypto : Crypto) (urls : Urls) (files : String → Option String) (env : Dict String)
      (running : Running)
      → main go crypto urls files env ≡ ok running
      → Serves env running
  unfolding main
  main-Serves crypto urls files env running h =
      start-Serves crypto urls files env (configure go env) refl h
