-- ===== src/Operator/Pod.antt =====
-- internal/controller/openshellgateway_controller.go, reconcileDeployment: the pod of the gateway.
pub mod Encode
pub mod Mounts
pub mod Login
use Prim.Native.String.{◌++◌}
use ogo.Base.{
  ℕ, String, Bool, true, false, Option, none, some, List, [], ◌∷◌, ◌==◌, ◌&&◌, not, if◌then◌else◌,
}
use ogo.Base
use ogo.Text.{has_char}
use ogo.Controller.{Gateway, gateway_namespace, unless_disabled}
use ogo.Operator.{
  auth_bridge_external_url, auth_bridge_image, cluster_domain, database_secret_name, token_ttl,
}
use ogo.Operator.Value.{Value, map_of, texts_of}

pub data EnvValue : Type 0 where
  literal : String → EnvValue
  secret_key_ref : (name key : String) → EnvValue

pub record EnvVar : Type 0 where
  pub name : String
  pub value : EnvValue

pub record VolumeMount : Type 0 where
  pub name : String
  pub mount_path : String
  pub read_only : Bool

pub data VolumeSource : Type 0 where
  config_map : (name : String) → VolumeSource
  secret_file : (name : String) → (default_mode : Option ℕ) → (items : List String) → VolumeSource
  claim : (name : String) → VolumeSource

pub record Volume : Type 0 where
  pub name : String
  pub source : VolumeSource

pub record ContainerPort : Type 0 where
  pub name : String
  pub container_port : ℕ

-- The mode 256 is 0400 in octal.

-- a probe by HTTP, of a port by its name; 0 for a number that is not set
pub record Probe : Type 0 where
  pub path : String
  pub port : String
  pub scheme : String
  pub initial_delay : ℕ
  pub period : ℕ
  pub failure_threshold : ℕ

pub record Container : Type 0 where
  pub name : String
  pub image : String
  pub args : List String
  pub env : List EnvVar
  pub ports : List ContainerPort
  pub startup_probe : Probe
  pub liveness_probe : Probe
  pub readiness_probe : Probe
  pub resources : Value
  pub volume_mounts : List VolumeMount
  pub run_as_non_root : Bool  -- false for nil; no privileges, all capabilities dropped

-- `AUTH_BRIDGE_…` and a text
abbrev pub plain_env : (name value : String) → EnvVar
plain_env name value = record { name = name; value = EnvValue.literal value }

abbrev read_only : (name path : String) → VolumeMount
read_only name path = record { name = name; mount_path = path; read_only = true }

abbrev http_probe : (path port scheme : String) → (delay period threshold : ℕ) → Probe
http_probe path port scheme delay period threshold = record {
  path = path;
  port = port;
  scheme = scheme;
  initial_delay = delay;
  period = period;
  failure_threshold = threshold;
}

abbrev pub auth_bridge_internal_url : String
auth_bridge_internal_url = "http://localhost:8085"

unfoldable pub base_image : Gateway → String
base_image gw = if gw.image == "" then "ghcr.io/nvidia/openshell/gateway" else gw.image

-- a tag that cannot be appended, since the image is pinned by a digest
unfoldable pub is_tag_ignored : Gateway → Bool
unfolding base_image has_char
is_tag_ignored gw = not (gw.image_tag == "") && has_char b'@' (base_image gw)

unfoldable pub gateway_image : Gateway → String
unfolding base_image has_char
gateway_image gw =
    if gw.image_tag == ""
    then base_image gw
    else if has_char b'@' (base_image gw)
    then base_image gw
    else base_image gw ++ (":" ++ gw.image_tag)

unfoldable pub gateway_mounts : Gateway → List VolumeMount
gateway_mounts gw =
    let tls =
      if unless_disabled gw.tls_enabled
      then read_only "tls-cert" "/etc/openshell-tls/server"
        ∷ read_only "tls-client-ca" "/etc/openshell-tls/client-ca"
        ∷ []
      else [] in
    read_only "gateway-config" "/etc/openshell"
    ∷ read_only "sandbox-jwt" "/etc/openshell-jwt"
    ∷ record { name = "gateway-state"; mount_path = "/home/openshell"; read_only = false }
    ∷ tls

unfoldable pub gateway_container : Gateway → (is_openshift : Bool) → Container
unfolding gateway_image gateway_mounts
gateway_container gw is_openshift = record {
  name = "openshell-gateway";
  image = gateway_image gw;
  args = "--config" ∷ "/etc/openshell/gateway.toml" ∷ [];
  env =
      record {
        name = "OPENSHELL_DB_URL";
        value = EnvValue.secret_key_ref (database_secret_name gw) "uri";
      }
      ∷ plain_env "HOME" "/home/openshell"
      ∷ [];
  ports =
      record { name = "grpc"; container_port = 8080 }
      ∷ record { name = "health"; container_port = 8081 }
      ∷ record { name = "metrics"; container_port = 9090 }
      ∷ [];
  startup_probe = http_probe "/healthz" "health" "" 0 2 30;
  liveness_probe = http_probe "/healthz" "health" "" 2 5 3;
  readiness_probe = http_probe "/readyz" "health" "" 1 2 3;
  resources = gw.resources;
  volume_mounts = gateway_mounts gw;
  run_as_non_root = not is_openshift;
}

unfoldable pub pod_volumes : Gateway → List Volume
pod_volumes gw =
    let server =
      if gw.server_cert_secret_name == ""
      then gw.name ++ "-server-tls"
      else gw.server_cert_secret_name in
    let tls =
      if unless_disabled gw.tls_enabled
      then record { name = "tls-cert"; source = VolumeSource.secret_file server none [] }
        ∷ record {
          name = "tls-client-ca";
          source = VolumeSource.secret_file (gw.name ++ "-client-tls") none ("ca.crt" ∷ []);
        }
        ∷ []
      else [] in
    record { name = "gateway-config"; source = VolumeSource.config_map (gw.name ++ "-config") }
    ∷ record {
      name = "sandbox-jwt";
      source = VolumeSource.secret_file (gw.name ++ "-jwt-keys") (some 256) [];
    }
    ∷ record {
      name = "auth-bridge-keys";
      source = VolumeSource.secret_file (gw.name ++ "-auth-bridge-keys") (some 256) [];
    }
    ∷ record { name = "gateway-state"; source = VolumeSource.claim (gw.name ++ "-state") }
    ∷ tls

unfoldable pub bridge_env : Gateway → List EnvVar
bridge_env gw =
    let tls =
      if unless_disabled gw.tls_enabled
      then plain_env "AUTH_BRIDGE_LISTEN" "127.0.0.1:8085"
        ∷ plain_env "AUTH_BRIDGE_TLS_LISTEN" ":8443"
        ∷ plain_env "AUTH_BRIDGE_TLS_CERT" "/etc/auth-bridge-tls/tls.crt"
        ∷ plain_env "AUTH_BRIDGE_TLS_KEY" "/etc/auth-bridge-tls/tls.key"
        ∷ []
      else [] in
    plain_env "AUTH_BRIDGE_ISSUER" auth_bridge_internal_url
    ∷ plain_env "AUTH_BRIDGE_EXTERNAL_ISSUER" (auth_bridge_external_url gw)
    ∷ plain_env "AUTH_BRIDGE_OPENSHIFT_ISSUER" ("https://oauth-openshift." ++ cluster_domain gw)
    ∷ plain_env "AUTH_BRIDGE_CLIENT_ID" "openshell"
    ∷ record {
      name = "AUTH_BRIDGE_CLIENT_SECRET";
      value = EnvValue.secret_key_ref (gw.name ++ "-oauth-client") "secret";
    }
    ∷ plain_env "AUTH_BRIDGE_USER_GROUP" gw.user_group
    ∷ plain_env "AUTH_BRIDGE_ADMIN_GROUP" gw.admin_group
    ∷ plain_env "AUTH_BRIDGE_TOKEN_TTL" (token_ttl gw)
    ∷ plain_env "AUTH_BRIDGE_SIGNING_KEY" "/etc/auth-bridge-keys/signing.pem"
    ∷ plain_env "AUTH_BRIDGE_PUBLIC_KEY" "/etc/auth-bridge-keys/public.pem"
    ∷ plain_env "AUTH_BRIDGE_KID" "/etc/auth-bridge-keys/kid"
    ∷ tls

unfoldable pub bridge_mounts : Gateway → List VolumeMount
bridge_mounts gw =
    let tls =
      if unless_disabled gw.tls_enabled
      then read_only "tls-cert" "/etc/auth-bridge-tls" ∷ []
      else [] in
    read_only "auth-bridge-keys" "/etc/auth-bridge-keys" ∷ tls

unfoldable pub bridge_port : Gateway → ContainerPort
bridge_port gw =
    if unless_disabled gw.tls_enabled
    then record { name = "auth-tls"; container_port = 8443 }
    else record { name = "auth"; container_port = 8085 }

abbrev bridge_resources : Value
bridge_resources = map_of (
    ("requests", texts_of (("cpu", "10m") ∷ ("memory", "32Mi") ∷ []))
    ∷ ("limits", texts_of (("cpu", "100m") ∷ ("memory", "128Mi") ∷ []))
    ∷ [])

unfoldable pub bridge_container : Gateway → Container
unfolding bridge_env bridge_mounts bridge_port
bridge_container gw =
    let port = bridge_port gw in
    let scheme = if unless_disabled gw.tls_enabled then "HTTPS" else "HTTP" in
    record {
      name = "auth-bridge";
      image = auth_bridge_image gw;
      args = [];
      env = bridge_env gw;
      ports = port ∷ [];
      startup_probe = http_probe "/healthz" port.name scheme 0 2 15;
      liveness_probe = http_probe "/healthz" port.name scheme 0 10 0;
      readiness_probe = http_probe "/healthz" port.name scheme 1 5 0;
      resources = bridge_resources;
      volume_mounts = bridge_mounts gw;
      run_as_non_root = false;
    }

unfoldable pub containers : Gateway → (is_openshift auth_enabled : Bool) → List Container
unfolding gateway_container bridge_container
containers gw is_openshift auth_enabled =
    gateway_container gw is_openshift ∷ (if auth_enabled then bridge_container gw ∷ [] else [])
