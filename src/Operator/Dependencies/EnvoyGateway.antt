-- ===== src/Operator/Dependencies/EnvoyGateway.antt =====
-- internal/controller/dep_envoygateway.go: the install of Envoy Gateway from the embedded manifests.
pub mod Total
use Prim.Native.String.{◌++◌}
use ogo.Base.{
  String, Bool, true, false, none, some, List, [], ◌∷◌, ◌==◌, ◌&&◌, ◌||◌, not, if◌then◌else◌,
}
use ogo.Base.Result.{Result, ok, err}
use ogo.Dict.{Dict, insert}
use ogo.Text.{trim_space}
use ogo.Controller.{Gateway, ApiError, unless_disabled, is_disabled}
use ogo.Operator.{envoy_gateway_system_ns, static_gateway_class_name, gateway_class_name}
use ogo.Operator.Kube.{
  Key, key_of, Object, Api, K, ◌>>=◌, ◌>>◌, give, done, raise, plain, wrap, prefixed, attempt, get,
  create, update, is_served,
}
use ogo.Operator.Dependencies.{ownership_labels, is_owned_by_ogo, Report, report, ready, broken}
use ogo.Operator.Dependencies.EnvoyProxyScc.{binding_key, scc_binding}

abbrev pub component_envoy_gateway : String
component_envoy_gateway = "envoy-gateway"

abbrev pub condition_envoy_gateway : String
condition_envoy_gateway = "EnvoyGatewayReady"

-- internal/manifests/envoygateway's `Version`
abbrev pub envoy_gateway_version : String
envoy_gateway_version = "v1.3.2"

abbrev pub class_key : String → Key
class_key name = key_of "GatewayClass" "" name

unfoldable pub should_grant_sccs : Gateway → Bool
should_grant_sccs gw = unless_disabled gw.grant_sccs

-- the labels of a manifest's object, with those of the ownership written over them
unfoldable pub merge_labels : Dict String → Dict String → Dict String
merge_labels [] base = base
merge_labels ((k, v) ∷ labels) base = insert k v (merge_labels labels base)

abbrev is_create_once : String → Bool
is_create_once kind = kind == "CustomResourceDefinition" || kind == "Job"

-- a binding of an SCC to a service account of Envoy Gateway
pub record SccBinding : Type 0 where
  pub name : String
  pub account : String
  pub scc : String

abbrev pub scc_bindings : List SccBinding
scc_bindings =
    record {
      name = "eg-gateway-helm-certgen-anyuid";
      account = "eg-gateway-helm-certgen";
      scc = "anyuid";
    }
    ∷ record { name = "envoy-gateway-anyuid"; account = "envoy-gateway"; scc = "anyuid" }
    ∷ []

module _ (api : Api) where
  unfoldable pub enabled : Gateway → K Bool
  enabled gw =
      if is_disabled gw.gateway_api_enabled || is_disabled gw.install_envoy_gateway
      then give false
      else elim gw.gateway_api_enabled [
        | some _ ↦ give true
        | none ↦ is_served api "gateway.networking.k8s.io/v1"
      ]

  -- `obj` is created, or updated where it is OGO's and may change
  unfoldable pub created_object : Object → Result ApiError (Unit {0}) → K (Unit {0})
  created_object o (ok _) = done
  created_object o (err e) =
      if e.already_exists
      then done
      else raise (prefixed ("creating " ++ (o.key.kind ++ ("/" ++ (o.key.name ++ ": ")))) e)

  unfoldable pub apply_read : Object → Result ApiError Object → K (Unit {0})
  apply_read o (ok existing) =
      if is_create_once existing.key.kind || not (is_owned_by_ogo existing.labels)
      then done
      else wrap ("updating " ++ (o.key.kind ++ ("/" ++ (o.key.name ++ ": "))))
          (update api (record o { resource_version = existing.resource_version }))
  apply_read o (err _) = do outcome ← attempt (create api o); created_object o outcome

  unfoldable pub apply_object : Gateway → Object → K (Unit {0})
  apply_object gw o = do
    let labels = merge_labels (ownership_labels component_envoy_gateway gw) o.labels
    existing ← attempt (get api o.key)
    apply_read (record o { labels = labels }) existing

  unfoldable pub apply_decoded : Gateway → Result ApiError Object → K (Unit {0})
  apply_decoded gw (err e) =
      if api.has_text e.message "Object 'Kind' is missing"
      then done
      else raise (prefixed "decoding manifest: " e)
  apply_decoded gw (ok o) = if o.key.kind == "" then done else apply_object gw o

  -- the rounds of the loop: a document of a manifest, or an error of its reader
  unfoldable pub apply_documents : Gateway → List (Result ApiError String) → K (Unit {0})
  apply_documents gw [] = done
  apply_documents gw (err e ∷ _) = raise (prefixed "reading YAML document: " e)
  apply_documents gw (ok document ∷ documents) = do
    let doc = trim_space document
    (if doc == "" || doc == "---" then done else apply_decoded gw (api.decode doc))
    apply_documents gw documents

  unfoldable pub apply_manifest_file : (filename : String) → Gateway → K (Unit {0})
  apply_manifest_file filename gw = elim (api.manifest filename) [
    | err e ↦ raise (prefixed ("reading embedded manifest " ++ (filename ++ ": ")) e)
    | ok documents ↦ apply_documents gw documents
  ]

  unfoldable pub granted_binding : SccBinding → Result ApiError (Unit {0}) → K (Unit {0})
  granted_binding b (ok _) = done
  granted_binding b (err e) =
      if e.already_exists
      then done
      else raise (prefixed ("creating SCC binding " ++ (b.name ++ ": ")) e)

  unfoldable pub grant_unless : Gateway → SccBinding → Result ApiError Object → K (Unit {0})
  grant_unless gw b (ok _) = done
  grant_unless gw b (err _) = do
    let labels = ownership_labels component_envoy_gateway gw
    outcome ←
        attempt (create api (scc_binding labels b.name b.scc b.account envoy_gateway_system_ns))
    granted_binding b outcome

  unfoldable pub grant_bindings : Gateway → List SccBinding → K (Unit {0})
  grant_bindings gw [] = done
  grant_bindings gw (b ∷ bs) = do
    existing ← attempt (get api (binding_key b.name))
    grant_unless gw b existing
    grant_bindings gw bs

  unfoldable pub grant_openshift_sccs : Gateway → K (Unit {0})
  grant_openshift_sccs gw = grant_bindings gw scc_bindings

  -- Whether the class is installed and OGO's, or what to report at once.
  unfoldable pub check_class : Gateway → Result ApiError Object → Result Report Bool
  check_class gw (ok class) =
      if is_owned_by_ogo class.labels
      then ok true
      else err (
        report condition_envoy_gateway true "External"
            ("GatewayClass " ++ (api.quote (gateway_class_name gw) ++ " already exists")),
        none,
      )
  check_class gw (err e) =
      if not e.not_found && not e.no_match
      then err (
        report condition_envoy_gateway false "CheckFailed"
            "Failed to check GatewayClass - see operator logs for details",
        some e,
      )
      else ok false

  -- a step of the install, whose failure is reported
  unfoldable pub reported : (reason message : String) → K (Unit {0}) → K Report → K Report
  reported reason message step next = do
    outcome ← attempt step
    elim outcome [ err e ↦ broken condition_envoy_gateway reason message e | ok _ ↦ next ]

  unfoldable pub install_manifests : Gateway → K Report → K Report
  install_manifests gw next = do
    has_gateway_api ← is_served api "gateway.networking.k8s.io/v1"
    reported "InstallFailed" "Failed to install Gateway API CRDs - see operator logs for details"
        (if has_gateway_api then done else apply_manifest_file "gatewayapi-crds.yaml" gw)
        (reported "InstallFailed"
          "Failed to install Envoy Gateway CRDs - see operator logs for details"
          (apply_manifest_file "envoygateway-crds.yaml" gw)
          (reported "InstallFailed"
            "Failed to install Envoy Gateway - see operator logs for details"
            (apply_manifest_file "components.yaml" gw) next))

  abbrev installed : (suffix : String) → K Report
  installed suffix =
      ready condition_envoy_gateway "Installed"
        ("Envoy Gateway " ++ (envoy_gateway_version ++ (" installed by OGO" ++ suffix)))

  unfoldable pub grant_and_report : Gateway → (is_openshift : Bool) → K Report
  grant_and_report gw is_openshift =
      if not is_openshift
      then installed ""
      else if not (should_grant_sccs gw)
      then installed
          " (grantSCCs: false — SCC grants skipped, pods won't schedule until granted separately)"
      else reported "SCCFailed" "Failed to grant SCCs - see operator logs for details"
          (grant_openshift_sccs gw) (installed "")

  unfoldable pub install : Gateway → (already_installed : Bool) → K Report
  install gw already_installed =
      let class = gateway_class_name gw in
      if not (class == static_gateway_class_name)
      then broken condition_envoy_gateway "InvalidConfig"
          ("route.gatewayAPI.gatewayClassName "
            ++ (api.quote class
                ++ (" requires an externally-managed GatewayClass - the auto-install path can only create one named "
                    ++ api.quote static_gateway_class_name)))
          (plain (
            "custom gatewayClassName "
            ++ (api.quote class ++ " requires an externally-managed GatewayClass")))
      else do
        is_openshift ← is_served api "route.openshift.io/v1"
        if already_installed
            then grant_and_report gw is_openshift
            else install_manifests gw (grant_and_report gw is_openshift)

  unfoldable pub reconcile : Gateway → K Report
  reconcile gw = do
    existing ← attempt (get api (class_key (gateway_class_name gw)))
    elim (check_class gw existing) [
      | err stop ↦ give stop
      | ok already_installed ↦ install gw already_installed
    ]

  unfoldable pub cleaned_up : Result ApiError Object → K (Unit {0})
  cleaned_up (ok _) = done
  cleaned_up (err e) =
      if e.not_found || e.no_match
      then done
      else raise (prefixed "checking GatewayClass for cleanup: " e)

  unfoldable pub cleanup : Gateway → K (Unit {0})
  cleanup gw = do
    existing ← attempt (get api (class_key (gateway_class_name gw)))
    cleaned_up existing
