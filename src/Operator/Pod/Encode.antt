-- ===== src/Operator/Pod/Encode.antt =====
-- internal/controller/openshellgateway_controller.go, reconcileDeployment: the Deployment, as the
-- fields of the object that is written.
use Prim.Native.String.{◌++◌}
use ogo.Base.{
  ℕ, String, Bool, true, false, Option, none, some, List, [], ◌∷◌, ◌==◌, if◌then◌else◌, nat_eq,
}
use ogo.Controller.{Gateway, gateway_namespace}
use ogo.Operator.{
  sandbox_namespace, gateway_labels, selector_labels, auth_bridge_enabled, database_secret_name,
}
use ogo.Operator.Value.{
  Value, text, number, flag, list_of, map_of, texts_of, text_list, set_field, change_spec,
}
use ogo.Operator.Kube.{
  Key, key_of, Object, or_fresh, Api, K, ◌>>=◌, ◌>>◌, give, wrap, get, create_or_update, is_served,
  set_condition,
}
use ogo.Operator.Config.{render_gateway_toml}
use ogo.Operator.Dependencies.{report}
use ogo.Operator.Dependencies.Postgres.Objects.{new_claim}
use ogo.Operator.Identity.{ensure_object}
use ogo.Operator.Pod.{
  EnvVar, literal, secret_key_ref, VolumeMount, Volume, config_map, secret_file, claim,
  ContainerPort, Probe, Container, auth_bridge_internal_url, base_image, is_tag_ignored,
  pod_volumes, containers,
}

each : {A : Type 0} → (A → Value) → List A → List Value
each f [] = []
each f (a ∷ more) = let rest = each f more in f a ∷ rest

unfoldable pub values : {A : Type 0} → (A → Value) → List A → Value
unfolding each
values f all = list_of (each f all)

abbrev env_value : EnvVar → Value
env_value e = elim e.value [
  | literal s ↦ texts_of (("name", e.name) ∷ ("value", s) ∷ [])
  | secret_key_ref name key ↦ map_of (
      ("name", text e.name)
      ∷ ("valueFrom", map_of (("secretKeyRef", texts_of (("name", name) ∷ ("key", key) ∷ [])) ∷ []))
      ∷ [])
]

abbrev mount_value : VolumeMount → Value
mount_value m =
    let v = texts_of (("name", m.name) ∷ ("mountPath", m.mount_path) ∷ []) in
    if m.read_only then set_field "readOnly" (flag true) v else v

abbrev item_value : String → Value
item_value key = texts_of (("key", key) ∷ ("path", key) ∷ [])

abbrev with_mode : Option ℕ → Value → Value
with_mode none v = v
with_mode (some mode) v = set_field "defaultMode" (number mode) v

abbrev with_items : List String → Value → Value
with_items [] v = v
with_items (i ∷ is) v = set_field "items" (list_of (item_values (i ∷ is))) v
  where
    item_values : List String → List Value
    item_values [] = []
    item_values (j ∷ js) = item_value j ∷ item_values js

abbrev volume_value : Volume → Value
volume_value v = elim v.source [
  | config_map name ↦
      map_of (("name", text v.name) ∷ ("configMap", texts_of (("name", name) ∷ [])) ∷ [])
  | secret_file name mode items ↦ map_of (
      ("name", text v.name)
      ∷ ("secret", with_items items (with_mode mode (texts_of (("secretName", name) ∷ []))))
      ∷ [])
  | claim name ↦
      map_of (
        ("name", text v.name) ∷ ("persistentVolumeClaim", texts_of (("claimName", name) ∷ [])) ∷ [])
]

abbrev port_value : ContainerPort → Value
port_value p = map_of (
    ("name", text p.name)
    ∷ ("containerPort", number p.container_port)
    ∷ ("protocol", text "TCP")
    ∷ [])

abbrev unless_zero : String → ℕ → Value → Value
unless_zero name n v = if nat_eq n 0 then v else set_field name (number n) v

abbrev probe_value : Probe → Value
probe_value p =
    let get = texts_of (("path", p.path) ∷ ("port", p.port) ∷ []) in
    let with_scheme = if p.scheme == "" then get else set_field "scheme" (text p.scheme) get in
    unless_zero "initialDelaySeconds" p.initial_delay (
      unless_zero "failureThreshold" p.failure_threshold
        (map_of (("httpGet", with_scheme) ∷ ("periodSeconds", number p.period) ∷ [])))

abbrev security_value : Container → Value
security_value c =
    let v = map_of (
      ("allowPrivilegeEscalation", flag false)
      ∷ ("capabilities", map_of (("drop", text_list ("ALL" ∷ [])) ∷ []))
      ∷ []) in
    if c.run_as_non_root then set_field "runAsNonRoot" (flag true) v else v

unfoldable pub container_value : Container → Value
unfolding values
container_value c = map_of (
    ("name", text c.name)
    ∷ ("image", text c.image)
    ∷ ("args", text_list c.args)
    ∷ ("env", values env_value c.env)
    ∷ ("ports", values port_value c.ports)
    ∷ ("startupProbe", probe_value c.startup_probe)
    ∷ ("livenessProbe", probe_value c.liveness_probe)
    ∷ ("readinessProbe", probe_value c.readiness_probe)
    ∷ ("resources", c.resources)
    ∷ ("volumeMounts", values mount_value c.volume_mounts)
    ∷ ("securityContext", security_value c)
    ∷ [])

unfoldable pub pod_spec : Gateway → (is_openshift auth_enabled : Bool) → Value
unfolding values containers pod_volumes container_value
pod_spec gw is_openshift auth_enabled =
    let spec = map_of (
      ("serviceAccountName", text gw.name)
      ∷ ("terminationGracePeriodSeconds", number 5)
      ∷ ("containers", values container_value (containers gw is_openshift auth_enabled))
      ∷ ("volumes", values volume_value (pod_volumes gw))
      ∷ []) in
    if is_openshift
    then spec
    else set_field "securityContext"
        (map_of (("fsGroup", number 1000) ∷ ("runAsUser", number 1000) ∷ [])) spec

abbrev replicas : Gateway → ℕ
replicas gw = elim gw.replicas [ none ↦ 1 | some n ↦ n ]

-- what the callback makes of the Deployment
unfoldable pub fill_deployment :
    Gateway → (is_openshift auth_enabled : Bool) → (config_hash : String) → Object → Object
unfolding pod_spec
fill_deployment gw is_openshift auth_enabled config_hash o =
    let metadata = map_of (
      ("labels", texts_of (gateway_labels gw))
      ∷ ("annotations", texts_of (("ogo.aknochow.io/config-hash", config_hash) ∷ []))
      ∷ []) in
    let pod =
      map_of (("metadata", metadata) ∷ ("spec", pod_spec gw is_openshift auth_enabled) ∷ []) in
    record o {
      labels = gateway_labels gw;
      body =
          change_spec
            (λ spec. set_field "replicas" (number (replicas gw)) (
              set_field "selector" (map_of (("matchLabels", texts_of (selector_labels gw)) ∷ []))
                (set_field "template" pod spec)))
            o.body;
    }

abbrev pub condition_image_config : String
condition_image_config = "ImageConfigValid"

-- The issuer that the configuration names: the bridge, where it is enabled.
abbrev pub oidc_issuer : (auth_enabled : Bool) → String
oidc_issuer auth_enabled = if auth_enabled then auth_bridge_internal_url else ""

module _ (api : Api) where
  unfoldable pub ensure_gateway_state_pvc : Gateway → (namespace : String) → K (Unit {0})
  ensure_gateway_state_pvc gw namespace =
      let key = key_of "PersistentVolumeClaim" namespace (gw.name ++ "-state") in
      create_or_update api key (λ before. give (new_claim (gateway_labels gw) "1Gi" key before))

  unfoldable pub database_secret_revision : Gateway → K String
  database_secret_revision gw =
      let name = database_secret_name gw in
      if name == "" then give "" else do
        secret ← get api (key_of "Secret" (gateway_namespace gw) name)
        give (secret.uid ++ ("/" ++ secret.resource_version))

  -- what the annotation of the pods is a hash of
  unfoldable pub hash_input : Gateway → (auth_enabled : Bool) → (revision : String) → String
  unfolding render_gateway_toml
  hash_input gw auth_enabled revision =
      render_gateway_toml api gw (sandbox_namespace gw) (oidc_issuer auth_enabled)
      ++ ("\ndatabase_secret_revision=" ++ revision)

  unfoldable pub report_image : Gateway → K (Unit {0})
  unfolding is_tag_ignored base_image
  report_image gw =
      if is_tag_ignored gw
      then set_condition api (
          report condition_image_config false "ImageTagIgnored" (
            "spec.imageTag "
            ++ (api.quote gw.image_tag
                ++ (" is ignored because spec.image is already digest-pinned ("
                    ++ (base_image gw ++ ")")))))
      else set_condition api (report condition_image_config true "OK" "")

  unfoldable pub mutate_deployment :
      Gateway → (is_openshift : Bool) → Key → Option Object → K Object
  unfolding database_secret_revision hash_input report_image fill_deployment
  mutate_deployment gw is_openshift key before = do
    let auth_enabled = auth_bridge_enabled gw is_openshift
    revision ← wrap "get database secret revision: " (database_secret_revision gw)
    let config_hash = api.config_hash (hash_input gw auth_enabled revision)
    report_image gw
    give (fill_deployment gw is_openshift auth_enabled config_hash (or_fresh key before))

  unfoldable pub reconcile_deployment : Gateway → K (Unit {0})
  unfolding ensure_gateway_state_pvc mutate_deployment
  reconcile_deployment gw = do
    is_openshift ← is_served api "route.openshift.io/v1"
    wrap "ensure gateway state PVC: " (ensure_gateway_state_pvc gw (gateway_namespace gw))
    let key = key_of "Deployment" (gateway_namespace gw) gw.name
    create_or_update api key (mutate_deployment gw is_openshift key)

  unfoldable pub reconcile_config_map : Gateway → K (Unit {0})
  unfolding render_gateway_toml
  reconcile_config_map gw = do
    is_openshift ← is_served api "route.openshift.io/v1"
    let issuer = oidc_issuer (auth_bridge_enabled gw is_openshift)
    let toml = render_gateway_toml api gw (sandbox_namespace gw) issuer
    ensure_object api (key_of "ConfigMap" (gateway_namespace gw) (gw.name ++ "-config"))
        (λ o. record o { labels = gateway_labels gw; contents = ("gateway.toml", toml) ∷ [] })
