-- ===== src/Operator/Pod/Login.antt =====
-- cmd/auth-bridge/main.go in the pod of internal/controller/openshellgateway_controller.go: what
-- the bridge reads, and what the operator registers.
use Prim.Native.String.{◌++◌, len}
use text.Mathlib.TextPositions.{len-append}
use ogo.Base.{
  ◌<◌, true, String, false, List, [], ◌∷◌, ◌≡◌, refl, ap, ◌==◌, eq_iff, arith, Bool-cases, inl, inr,
  if◌then◌else◌,
}
use ogo.Dict.{Dict, lookup}
use ogo.AuthBridge.Startup.{Go, read_config, env_or_default, getenv}
use ogo.Controller.{Gateway}
use ogo.Operator.{auth_bridge_external_url, auth_host, service_host}
use ogo.Operator.Pod.{EnvVar, EnvValue, literal, secret_key_ref, bridge_env}
use ogo.Operator.Routes.OauthClient.{callback_url, oauth_client_key, oauth_secret_key}
use ogo.Operator.Pod.Encode.{oidc_issuer}

-- The environment of a container: Kubernetes looks the references to Secrets up.
abbrev pub resolve : (secrets : String → String → String) → EnvValue → String
resolve secrets (literal s) = s
resolve secrets (secret_key_ref name key) = secrets name key

abbrev pub environment : (secrets : String → String → String) → List EnvVar → Dict String
environment secrets [] = []
environment secrets (v ∷ vs) = (v.name, resolve secrets v.value) ∷ environment secrets vs

-- a text that begins with one that is not empty
prefixed_nonempty : (s t : String) → 0 < len s → (s ++ t == "") ≡ false
prefixed_nonempty s t h = elim (Bool-cases (s ++ t == "")) [
  | inr differs ↦ differs
  | inl same ↦
      let none_left : len (s ++ t) ≡ len "" = ap len ((eq_iff (s ++ t) "").0 same) in
      ground (arith, none_left, len-append s t)
]

url_nonempty : (gw : Gateway) → (auth_bridge_external_url gw == "") ≡ false
unfolding auth_bridge_external_url
url_nonempty gw = ground (
  arith,
  prefixed_nonempty "https://" (auth_host gw) (omega arith),
  prefixed_nonempty "http" ("://" ++ (service_host gw ++ ":8085")) (omega arith),
  prefixed_nonempty "https" ("://" ++ (service_host gw ++ ":8085")) (omega arith),
)

-- What the bridge reads from the environment that the operator gives its container agrees with
-- what the operator writes elsewhere: its callback is the redirect URI of the OAuthClient, its
-- client id that object's name, its secret the one of the Secret made for it, and its issuer the
-- one in the gateway's configuration.
pub bridge_env-Login :
    {Pair : Type 0} (go : Go Pair) (gw : Gateway) (secrets : String → String → String)
    → ((read_config go (environment secrets (bridge_env gw))).external_issuer ++ "/callback"
        ≡ callback_url gw)
      × ((read_config go (environment secrets (bridge_env gw))).client_id ≡ oauth_client_key.name)
      × ((read_config go (environment secrets (bridge_env gw))).client_secret
          ≡ secrets (oauth_secret_key gw).name "secret")
      × ((read_config go (environment secrets (bridge_env gw))).issuer ≡ oidc_issuer true)
unfolding bridge_env read_config callback_url env_or_default getenv lookup
bridge_env-Login go gw secrets = (rw (url_nonempty gw, if◌then◌else◌) refl, refl, refl, refl)
