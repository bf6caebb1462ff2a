-- ===== src/Operator/Config.antt =====
-- internal/gateway/config.go: gateway.toml, as its sections of lines.
use Prim.Native.String.{◌++◌}
use ogo.Base.{String, List, [], ◌∷◌, ◌==◌, ◌&&◌, not, if◌then◌else◌}
use ogo.Text.{has_char}
use ogo.Controller.{Gateway, gateway_namespace, unless_disabled}
use ogo.Operator.Kube.{Api}

unfoldable pub log_level : Gateway → String
log_level gw = if gw.log_level == "" then "info" else gw.log_level

unfoldable pub default_image : Gateway → String
default_image gw =
    if gw.sandbox_default_image == ""
    then "ghcr.io/nvidia/openshell-community/sandboxes/base:latest"
    else gw.sandbox_default_image

unfoldable pub supervisor_image : Gateway → String
supervisor_image gw =
    let image =
      if gw.supervisor_image == ""
      then "ghcr.io/nvidia/openshell/supervisor"
      else gw.supervisor_image in
    if not (gw.image_tag == "") && not (has_char b':' image)
    then image ++ (":" ++ gw.image_tag)
    else image

-- the lines written, one after another
unfoldable pub lines : List String → String
lines [] = ""
lines (l ∷ ls) = l ++ ("\n" ++ lines ls)

module _ (api : Api) where
  abbrev quoted : (name value : String) → String
  quoted name value = name ++ ("= " ++ api.quote value)

  abbrev optional : (name value : String) → List String
  optional name value = if value == "" then [] else quoted name value ∷ []

  abbrev tls_section : List String
  tls_section =
      "" ∷ "[openshell.gateway.tls]"
      ∷ "cert_path             = \"/etc/openshell-tls/server/tls.crt\""
      ∷ "key_path              = \"/etc/openshell-tls/server/tls.key\""
      ∷ "client_ca_path        = \"/etc/openshell-tls/client-ca/ca.crt\"" ∷ []

  abbrev auth_section : List String
  auth_section = "" ∷ "[openshell.gateway.auth]" ∷ "allow_unauthenticated_users = true" ∷ []

  abbrev oidc_section : (issuer : String) → List String
  oidc_section issuer =
      ""
      ∷ "[openshell.gateway.oidc]"
      ∷ quoted "issuer        " issuer
      ∷ "audience      = \"openshell-cli\""
      ∷ "jwks_ttl_secs = 300"
      ∷ "roles_claim   = \"realm_access.roles\""
      ∷ "admin_role    = \"openshell-admin\""
      ∷ "user_role     = \"openshell-user\""
      ∷ []

  abbrev gateway_section : Gateway → (sandbox_ns : String) → List String
  gateway_section gw sandbox_ns =
      "[openshell]"
      ∷ "version = 1"
      ∷ ""
      ∷ "[openshell.gateway]"
      ∷ "bind_address          = \"0.0.0.0:8080\""
      ∷ "health_bind_address   = \"0.0.0.0:8081\""
      ∷ "metrics_bind_address  = \"0.0.0.0:9090\""
      ∷ quoted "log_level             " (log_level gw)
      ∷ quoted "sandbox_namespace     " sandbox_ns
      ∷ quoted "default_image         " (default_image gw)
      ∷ quoted "supervisor_image      " (supervisor_image gw)
      ∷ "enable_loopback_service_http = true"
      ∷ []

  abbrev driver_section : Gateway → (scheme : String) → List String
  driver_section gw scheme =
      ""
      ∷ "[openshell.gateway.gateway_jwt]"
      ∷ "signing_key_path = \"/etc/openshell-jwt/signing.pem\""
      ∷ "public_key_path  = \"/etc/openshell-jwt/public.pem\""
      ∷ "kid_path         = \"/etc/openshell-jwt/kid\""
      ∷ quoted "gateway_id       " gw.name
      ∷ "ttl_secs         = 3600"
      ∷ ""
      ∷ "[openshell.drivers.kubernetes]"
      ∷ quoted "grpc_endpoint                " (
          scheme
          ++ ("://" ++ (gw.name ++ ("." ++ (gateway_namespace gw ++ ".svc.cluster.local:8080")))))
      ∷ quoted "service_account_name         " (gw.name ++ "-sandbox")
      ∷ "supervisor_sideload_method   = \"init-container\""
      ∷ "sa_token_ttl_secs            = 3600"
      ∷ []

  -- The sections in the order in which they are written. `oidc_issuer` is "" for no OIDC.
  unfoldable pub sections : Gateway → (sandbox_ns oidc_issuer : String) → List (List String)
  sections gw sandbox_ns oidc_issuer =
      let tls_enabled = unless_disabled gw.tls_enabled in
      gateway_section gw sandbox_ns
      ∷ (if tls_enabled
          then quoted "client_tls_secret_name " (gw.name ++ "-client-tls") ∷ []
          else "disable_tls            = true" ∷ [])
      ∷ (if tls_enabled then tls_section else [])
      ∷ (if gw.allow_unauthenticated then auth_section else [])
      ∷ (if oidc_issuer == "" then [] else oidc_section oidc_issuer)
      ∷ driver_section gw (if tls_enabled then "https" else "http")
      ∷ optional "image_pull_policy            " gw.image_pull_policy
      ∷ optional "workspace_default_storage_size " gw.workspace_storage_size
      ∷ optional "default_runtime_class_name   " gw.runtime_class_name
      ∷ optional "app_armor_profile            " gw.app_armor_profile
      ∷ []

  unfoldable pub print : List (List String) → String
  print [] = ""
  print (s ∷ ss) = lines s ++ print ss

  unfoldable pub render_gateway_toml : Gateway → (sandbox_ns oidc_issuer : String) → String
  render_gateway_toml gw sandbox_ns oidc_issuer = print (sections gw sandbox_ns oidc_issuer)
