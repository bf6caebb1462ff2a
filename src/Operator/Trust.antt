-- ===== src/Operator/Trust.antt =====
-- internal/controller/openshellgateway_controller.go: certificates, the published CAs and the keys.
pub mod Publish
pub mod Renewal
use Prim.Native.String.{◌++◌}
use ogo.Base.{
  String, List, Bool, false, Option, none, some, [], ◌∷◌, ◌==◌, ◌&&◌, not, if◌then◌else◌,
}
use ogo.Base.Result.{Result, ok, err}
use ogo.Dict.{Dict, insert}
use ogo.Controller.{Gateway, ApiError, gateway_namespace, secret_data, unless_disabled}
use ogo.Operator.{
  label_managed_by, label_instance, managed_by_value, auth_ca_suffix, gateway_ca_suffix,
  gateway_labels, compute_server_sans, auth_bridge_enabled,
}
use ogo.Operator.Value.{text, set_field, texts_of}
use ogo.Operator.Kube.{
  Key, key_of, Object, fresh, or_fresh, exists_already, Api, pki_error, K, ◌>>=◌, ◌>>◌, give, done,
  fail_with, wrap, get, create, delete, create_or_update, drawn, is_served,
}
use ogo.Operator.Identity.{ensure_object}
use ogo.Pki.{Bundle, JwtKeys, hash_sans, generate_pki, generate_rsa_keys, generate_jwt_keys}

-- an object that carries the labels of this gateway
unfoldable pub is_managed_by : Gateway → Dict String → Bool
is_managed_by gw labels =
    secret_data label_managed_by labels == managed_by_value
    && secret_data label_instance labels == gw.name

abbrev pub sans_hash_annotation : String
sans_hash_annotation = "ogo.aknochow.io/pki-sans-hash"

abbrev pub server_tls_key : Gateway → Key
server_tls_key gw = key_of "Secret" (gateway_namespace gw) (gw.name ++ "-server-tls")

abbrev pub client_tls_key : Gateway → Key
client_tls_key gw = key_of "Secret" (gateway_namespace gw) (gw.name ++ "-client-tls")

-- a certificate, its key and the CA, as the data of a Secret
abbrev tls_data : (cert key ca : String) → Dict String
tls_data cert key ca = ("tls.crt", cert) ∷ ("tls.key", key) ∷ ("ca.crt", ca) ∷ []

unfoldable pub fill_server_secret : Gateway → (sans_hash : String) → Bundle → Object → Object
fill_server_secret gw sans_hash b o = record o {
  labels = gateway_labels gw;
  annotations = insert sans_hash_annotation sans_hash o.annotations;
  contents = tls_data b.server_cert b.server_key b.ca_cert;
  body = set_field "type" (text "kubernetes.io/tls") o.body;
}

unfoldable pub fill_client_secret : Gateway → Bundle → Object → Object
fill_client_secret gw b o = record o {
  labels = gateway_labels gw;
  contents = tls_data b.client_cert b.client_key b.ca_cert;
  body = set_field "type" (text "kubernetes.io/tls") o.body;
}

unfoldable pub fill_ca : Gateway → (ca : String) → Object → Object
fill_ca gw ca o = record o { labels = gateway_labels gw; contents = ("ca.crt", ca) ∷ [] }

unfoldable pub key_secret : Gateway → Key → JwtKeys → Object
key_secret gw key keys = record (fresh key) {
  labels = gateway_labels gw;
  contents =
      ("signing.pem", keys.signing_key) ∷ ("public.pem", keys.public_key) ∷ ("kid", keys.kid) ∷ [];
  body = texts_of (("type", "Opaque") ∷ []);
}

-- what `Get` finds where NotFound is no failure
unfoldable pub unless_missing : {A : Type 0} → Result ApiError A → Result ApiError (Option A)
unless_missing (ok a) = ok (some a)
unless_missing (err e) = if e.not_found then ok none else err e

-- the user names the server's Secret
abbrev pub is_external : Gateway → Bool
is_external gw = not (gw.server_cert_secret_name == "")

abbrev pub server_secret_name : Gateway → String
server_secret_name gw =
    if is_external gw then gw.server_cert_secret_name else gw.name ++ "-server-tls"

module _ (api : Api) where
  -- `Get`, and none for NotFound
  unfoldable pub get_optional : Key → K (Option Object)
  get_optional key r = let (x, r') = get api key r in (unless_missing x, r')

  abbrev are_current : (sans_hash : String) → Option Object → Option Object → Bool
  are_current sans_hash (some server) (some _) =
      secret_data sans_hash_annotation server.annotations == sans_hash
  are_current sans_hash _ _ = false

  -- what follows the reads of the two Secrets where they do not serve: both are written anew
  unfoldable pub renew_certificates : Gateway → List String → (sans_hash : String) → K (Unit {0})
  renew_certificates gw sans sans_hash = do
    bundle ←
        wrap "generating PKI: "
          (drawn api (λ t. pki_error (generate_pki api.go (api.moment t) sans)))
    wrap "creating server TLS secret: "
        (ensure_object api (server_tls_key gw) (fill_server_secret gw sans_hash bundle))
    wrap "creating client TLS secret: "
        (ensure_object api (client_tls_key gw) (fill_client_secret gw bundle))

  unfoldable pub renew_unless_current :
      Gateway → List String → (sans_hash : String) → Option Object → Option Object → K (Unit {0})
  renew_unless_current gw sans sans_hash server client =
      if are_current sans_hash server client then done else renew_certificates gw sans sans_hash

  unfoldable pub reconcile_self_signed_tls : Gateway → K (Unit {0})
  reconcile_self_signed_tls gw = do
    let sans = compute_server_sans gw
    let sans_hash = hash_sans api.go sans
    server ← wrap "checking server TLS secret: " (get_optional (server_tls_key gw))
    client ← wrap "checking client TLS secret: " (get_optional (client_tls_key gw))
    renew_unless_current gw sans sans_hash server client

  -- The CA of a server's Secret; `external` where the user named the Secret.
  unfoldable pub ca_of : (secret_name : String) → (external : Bool) → Object → K String
  ca_of secret_name external secret =
      let ca = secret_data "ca.crt" secret.contents in
      let leaf = secret_data "tls.crt" secret.contents in
      if not (ca == "")
      then give ca
      else if external
      then fail_with (
          "server TLS secret "
          ++ (api.quote secret_name
              ++ " (spec.tls.serverCertSecretName) has no ca.crt; external server certificates must include the issuing CA under the ca.crt key — a rotating leaf tls.crt certificate cannot be published as stable trust material"))
      else if leaf == ""
      then fail_with
          ("server TLS secret " ++ (api.quote secret_name ++ " has neither ca.crt nor tls.crt"))
      else give leaf

  abbrev pub read_server_secret : Gateway → K Object
  read_server_secret gw =
      wrap "reading server TLS CA: "
        (get api (key_of "Secret" (gateway_namespace gw) (server_secret_name gw)))

  unfoldable pub server_tls_ca : Gateway → K String
  server_tls_ca gw = do
    secret ← read_server_secret gw
    ca_of (server_secret_name gw) (is_external gw) secret

  -- the callback: it refuses an object of somebody else
  unfoldable pub publish_ca : Gateway → Key → (ca : String) → Option Object → K Object
  publish_ca gw key ca before =
      if exists_already before && not (is_managed_by gw (or_fresh key before).labels)
      then fail_with (
          "existing ConfigMap "
          ++ (key.namespace ++ ("/" ++ (key.name ++ " is not managed by OGO"))))
      else give (fill_ca gw ca (or_fresh key before))

  unfoldable pub withdraw_ca : Gateway → Option Object → K (Unit {0})
  withdraw_ca gw none = done
  withdraw_ca gw (some o) = if is_managed_by gw o.labels then delete api o.key else done

  unfoldable pub reconcile_ca_config_map :
      Gateway → (name : String) → (enabled : Bool) → K (Unit {0})
  reconcile_ca_config_map gw name enabled = do
    let key = key_of "ConfigMap" (gateway_namespace gw) name
    if not enabled
        then get_optional key >>= withdraw_ca gw
        else do ca ← server_tls_ca gw; create_or_update api key (publish_ca gw key ca)

  unfoldable pub reconcile_auth_bridge_ca : Gateway → K (Unit {0})
  reconcile_auth_bridge_ca gw =
      if unless_disabled gw.tls_enabled
      then is_served api "route.openshift.io/v1" >>= (λ is_openshift.
        reconcile_ca_config_map gw (gw.name ++ auth_ca_suffix)
          (auth_bridge_enabled gw is_openshift))
      else reconcile_ca_config_map gw (gw.name ++ auth_ca_suffix) false

  unfoldable pub reconcile_gateway_ca : Gateway → K (Unit {0})
  reconcile_gateway_ca gw =
      reconcile_ca_config_map gw (gw.name ++ gateway_ca_suffix) (unless_disabled gw.tls_enabled)

  -- keys are made once, where there is no Secret of that name
  unfoldable pub make_keys :
      Gateway → Key → (message : String) → K JwtKeys → Option Object → K (Unit {0})
  make_keys gw key message draw (some _) = done
  make_keys gw key message draw none = do
    keys ← wrap message draw
    create api (key_secret gw key keys)

  unfoldable pub reconcile_auth_bridge_keys : Gateway → K (Unit {0})
  reconcile_auth_bridge_keys gw = do
    let key = key_of "Secret" (gateway_namespace gw) (gw.name ++ "-auth-bridge-keys")
    existing ← wrap "checking auth-bridge keys: " (get_optional key)
    make_keys gw key "generating auth-bridge RSA keys: "
        (drawn api (λ t. pki_error (generate_rsa_keys api.go (api.moment t)))) existing

  unfoldable pub ensure_ed25519_key_secret : Gateway → (secret_name : String) → K (Unit {0})
  ensure_ed25519_key_secret gw secret_name = do
    let key = key_of "Secret" (gateway_namespace gw) secret_name
    existing ← wrap ("checking key secret " ++ (secret_name ++ ": ")) (get_optional key)
    make_keys gw key ("generating keys for " ++ (secret_name ++ ": "))
        (drawn api (λ t. pki_error (generate_jwt_keys api.go (api.moment t)))) existing

  unfoldable pub reconcile_jwt_keys : Gateway → K (Unit {0})
  reconcile_jwt_keys gw = ensure_ed25519_key_secret gw (gw.name ++ "-jwt-keys")
