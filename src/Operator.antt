-- ===== src/Operator.antt =====
-- internal/controller/openshellgateway_controller.go and the dependency reconcilers beside it: what
-- the operator derives from an OpenShellGateway alone.
pub mod Value
pub mod Kube
pub mod Dependencies
pub mod Identity
pub mod Trust
pub mod Routes
pub mod Config
pub mod Network
pub mod Pod
pub mod Status
pub mod Reconcile
pub mod Watches
pub mod Legal
pub mod Gone
pub mod Total
pub mod Names
mod Tests
use Prim.Native.String.{◌++◌}
use ogo.Base.{
  ℕ, String, Bool, true, false, Option, none, some, List, [], ◌∷◌, ◌==◌, ◌&&◌, if◌then◌else◌,
}
use ogo.Text.{after_char}
use ogo.Base
use ogo.Dict.{Dict}
use ogo.Controller.{Gateway, gateway_namespace, unless_disabled, is_disabled}

abbrev pub finalizer_name : String
finalizer_name = "ogo.aknochow.io/gateway-cleanup"

abbrev pub label_managed_by : String
label_managed_by = "app.kubernetes.io/managed-by"

abbrev pub label_instance : String
label_instance = "app.kubernetes.io/instance"

abbrev pub label_name : String
label_name = "app.kubernetes.io/name"

abbrev pub label_part_of : String
label_part_of = "app.kubernetes.io/part-of"

abbrev pub managed_by_value : String
managed_by_value = "ogo"

abbrev pub auth_ca_suffix : String
auth_ca_suffix = "-auth-ca"

abbrev pub gateway_ca_suffix : String
gateway_ca_suffix = "-gateway-ca"

abbrev pub reason_hostname_missing : String
reason_hostname_missing = "HostnameMissing"

abbrev pub envoy_gateway_system_ns : String
envoy_gateway_system_ns = "envoy-gateway-system"

abbrev pub static_gateway_class_name : String
static_gateway_class_name = "eg"

unfoldable pub sandbox_namespace : Gateway → String
sandbox_namespace gw =
    if gw.sandbox_spec_namespace == "" then gateway_namespace gw else gw.sandbox_spec_namespace

unfoldable pub unique_namespaces : Gateway → List String
unique_namespaces gw =
    let ns = gateway_namespace gw in
    let sns = sandbox_namespace gw in if ns == sns then ns ∷ [] else ns ∷ sns ∷ []

abbrev pub gateway_labels : Gateway → Dict String
gateway_labels gw =
    (label_name, "openshell")
    ∷ (label_instance, gw.name)
    ∷ (label_managed_by, managed_by_value)
    ∷ (label_part_of, "openshell-gateway")
    ∷ []

abbrev pub selector_labels : Gateway → Dict String
selector_labels gw = (label_name, "openshell") ∷ (label_instance, gw.name) ∷ []

-- what stands after the first dot, or all of it
unfoldable pub domain_suffix : String → String
domain_suffix hostname = elim (after_char b'.' hostname) [ none ↦ hostname | some after ↦ after ]

unfoldable pub compute_server_sans : Gateway → List String
compute_server_sans gw =
    let ns = gateway_namespace gw in
    let hosts =
      if gw.hostname == ""
      then []
      else gw.hostname ∷ ("openshell-auth." ++ domain_suffix gw.hostname) ∷ [] in
    gw.name
    ∷ (gw.name ++ ("." ++ (ns ++ ".svc")))
    ∷ (gw.name ++ ("." ++ (ns ++ ".svc.cluster.local")))
    ∷ "localhost"
    ∷ (gw.name ++ ".localhost")
    ∷ ("*." ++ (gw.name ++ ".localhost"))
    ∷ "host.docker.internal"
    ∷ "127.0.0.1"
    ∷ hosts

abbrev pub route_enabled : Gateway → Bool
route_enabled gw = unless_disabled gw.route_enabled

abbrev or_default : Option Bool → Bool → Bool
or_default none d = d
or_default (some b) d = b

unfoldable pub gateway_api_enabled : Gateway → Bool → Bool
gateway_api_enabled gw has_gateway_api = or_default gw.gateway_api_enabled has_gateway_api

unfoldable pub auth_bridge_enabled : Gateway → Bool → Bool
auth_bridge_enabled gw is_openshift = or_default gw.auth_enabled is_openshift

unfoldable pub gateway_class_name : Gateway → String
gateway_class_name gw =
    if gw.gateway_class == "" then static_gateway_class_name else gw.gateway_class

unfoldable pub database_secret_name : Gateway → String
database_secret_name gw =
    if gw.database_secret == ""
    then (if gw.database_embedded then gw.name ++ "-pg-uri" else "")
    else gw.database_secret

unfoldable pub browser_sso_missing_hostname : Gateway → Bool → Bool
browser_sso_missing_hostname gw auth_enabled =
    auth_enabled && (route_enabled gw && gw.hostname == "")

unfoldable pub auth_bridge_image : Gateway → String
auth_bridge_image gw =
    if gw.auth_bridge_image == ""
    then "quay.io/aknochow/ogo-auth-bridge:latest"
    else gw.auth_bridge_image

-- the host of the bridge's public address, where there is a route with a host name
abbrev pub auth_host : Gateway → String
auth_host gw = "openshell-auth." ++ domain_suffix gw.hostname

-- the host of the bridge's address inside the cluster
abbrev pub service_host : Gateway → String
service_host gw = gw.name ++ ("." ++ (gateway_namespace gw ++ ".svc"))

unfoldable pub auth_bridge_external_url : Gateway → String
auth_bridge_external_url gw =
    if route_enabled gw && Base.not (gw.hostname == "")
    then "https://" ++ auth_host gw
    else (if is_disabled gw.tls_enabled then "http" else "https")
      ++ ("://" ++ (service_host gw ++ ":8085"))

unfoldable pub token_ttl : Gateway → String
token_ttl gw = if gw.spec_token_ttl == "" then "8h" else gw.spec_token_ttl

unfoldable pub cluster_domain : Gateway → String
cluster_domain gw = if gw.hostname == "" then "apps.example.com" else domain_suffix gw.hostname
