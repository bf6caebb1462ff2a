-- ===== src/Operator/Routes.antt =====
-- internal/controller/openshellgateway_controller.go: the OpenShift Routes of the gateway and of the
-- auth-bridge.
pub mod Obsolete
pub mod Envoy
pub mod GatewayApi
pub mod OauthClient
use Prim.Native.String.{◌++◌}
use ogo.Base.{
  String, Bool, true, false, Option, none, some, List, [], ◌∷◌, ◌==◌, ◌&&◌, ◌||◌, not,
  if◌then◌else◌,
}
use ogo.Base.Result.{Result, ok, err}
use ogo.Dict.{Dict}
use ogo.Controller.{Gateway, ApiError, gateway_namespace, secret_data, unless_disabled, is_disabled}
use ogo.Operator.{
  label_managed_by, label_instance, managed_by_value, auth_ca_suffix, gateway_labels,
  envoy_gateway_system_ns, auth_host, route_enabled,
}
use ogo.Operator.Value.{
  Value, text, number, map_of, texts_of, end, field, nested_string, set_field, entry,
}
use ogo.Operator.Kube.{
  Key, key_of, Object, fresh, Query, Api, K, ◌>>=◌, ◌>>◌, give, done, raise, fail_with, wrap,
  prefixed, attempt, get, list, create, update, delete,
}
use ogo.Operator.Trust.{is_managed_by, get_optional}

abbrev pub route_key : (namespace name : String) → Key
route_key namespace name = key_of "Route" namespace name

unfoldable pub same_key : Key → Key → Bool
same_key a b = a.kind == b.kind && (a.namespace == b.namespace && a.name == b.name)

abbrev pub gateway_route : Gateway → Key
gateway_route gw = route_key (gateway_namespace gw) gw.name

abbrev pub envoy_route : Gateway → Key
envoy_route gw = route_key envoy_gateway_system_ns (gw.name ++ "-gw")

abbrev pub auth_route : Gateway → Key
auth_route gw = route_key (gateway_namespace gw) (gw.name ++ "-auth")

-- `desired`; of two equal keys of the literal, no two are equal as the names differ
unfoldable pub is_desired : Gateway → (use_gateway_api auth_enabled : Bool) → Key → Bool
unfolding same_key
is_desired gw use_gateway_api auth_enabled key =
    if same_key (gateway_route gw) key
    then route_enabled gw && not use_gateway_api
    else if same_key (envoy_route gw) key
    then route_enabled gw && use_gateway_api
    else if same_key (auth_route gw) key
    then route_enabled gw && auth_enabled
    else false

unfoldable pub is_managed_name : Gateway → String → Bool
is_managed_name gw name =
    name == gw.name || (name == (gw.name ++ "-gw") || name == (gw.name ++ "-auth"))

unfoldable pub managed_routes : Gateway → Query
managed_routes gw = record {
  kind = "Route";
  namespace = none;
  labels = (label_managed_by, managed_by_value) ∷ (label_instance, gw.name) ∷ [];
}

-- a Route with the labels of its gateway
unfoldable pub new_route : Gateway → Key → (spec : Value) → Object
new_route gw key spec = record (fresh key) {
  labels = gateway_labels gw;
  body = entry "spec" spec end;
}

unfoldable pub route_spec : Gateway → Value
route_spec gw =
    let tls =
      if unless_disabled gw.tls_enabled
      then texts_of (("termination", "passthrough") ∷ [])
      else texts_of
          (("termination", "edge") ∷ ("insecureEdgeTerminationPolicy", "Redirect") ∷ []) in
    let spec = map_of (
      ("to", texts_of (("kind", "Service") ∷ ("name", gw.name) ∷ []))
      ∷ ("port", texts_of (("targetPort", "grpc") ∷ []))
      ∷ ("tls", tls)
      ∷ []) in
    if gw.hostname == "" then spec else set_field "host" (text gw.hostname) spec

-- whether a Route must be made anew, since its host or its TLS differ
unfoldable pub needs_recreate : Gateway → Object → Bool
unfolding nested_string
needs_recreate gw existing =
    let termination = if unless_disabled gw.tls_enabled then "passthrough" else "edge" in
    (not (gw.hostname == "")
      && not (nested_string ("spec" ∷ "host" ∷ []) existing.body == gw.hostname))
    || not (nested_string ("spec" ∷ "tls" ∷ "termination" ∷ []) existing.body == termination)

unfoldable pub auth_route_spec : Gateway → (tls : Value) → Value
auth_route_spec gw tls =
    let spec = map_of (
      (
        "to",
        map_of (("kind", text "Service") ∷ ("name", text gw.name) ∷ ("weight", number 100) ∷ []),
      )
      ∷ ("port", texts_of (("targetPort", "auth") ∷ []))
      ∷ ("tls", tls)
      ∷ ("wildcardPolicy", text "None")
      ∷ []) in
    if gw.hostname == "" then spec else set_field "host" (text (auth_host gw)) spec

-- the spec of an existing Route keeps its host where the gateway names none
unfoldable pub keep_host : Gateway → Object → (spec : Value) → Value
unfolding nested_string
keep_host gw existing spec =
    let host = nested_string ("spec" ∷ "host" ∷ []) existing.body in
    if gw.hostname == "" && not (host == "") then set_field "host" (text host) spec else spec

-- By its schema a Route's spec is a map.
abbrev spec_of : Object → Value
spec_of o = elim (field "spec" o.body) [ none ↦ end | some spec ↦ spec ]

module _ (api : Api) where
  unfoldable pub after_delete : (message : String) → Result ApiError (Unit {0}) → K (Unit {0})
  after_delete message (ok _) = done
  after_delete message (err e) = if e.not_found then done else raise (prefixed message e)

  -- a `Delete` for which NotFound is no failure
  unfoldable pub delete_present : (message : String) → Key → K (Unit {0})
  unfolding after_delete
  delete_present message key = attempt (delete api key) >>= after_delete message

  abbrev pub deleting : String → Key → String
  deleting message key = message ++ (key.namespace ++ ("/" ++ (key.name ++ ": ")))

  -- a round of the loop
  unfoldable pub delete_unless_desired :
      Gateway → (use_gateway_api auth_enabled : Bool) → Object → K (Unit {0})
  delete_unless_desired gw use_gateway_api auth_enabled route =
      if not (is_managed_name gw route.key.name)
        || is_desired gw use_gateway_api auth_enabled route.key
      then done
      else delete_present (deleting "deleting obsolete Route " route.key) route.key

  unfoldable pub delete_obsolete :
      Gateway → (use_gateway_api auth_enabled : Bool) → List Object → K (Unit {0})
  unfolding delete_unless_desired
  delete_obsolete gw use_gateway_api auth_enabled [] = done
  delete_obsolete gw use_gateway_api auth_enabled (route ∷ routes) = do
    delete_unless_desired gw use_gateway_api auth_enabled route
    delete_obsolete gw use_gateway_api auth_enabled routes

  unfoldable pub reconcile_obsolete_routes :
      Gateway → (use_gateway_api auth_enabled : Bool) → K (Unit {0})
  reconcile_obsolete_routes gw use_gateway_api auth_enabled = do
    routes ← wrap "listing managed Routes: " (list api (managed_routes gw))
    delete_obsolete gw use_gateway_api auth_enabled routes

  unfoldable pub delete_routes : List Object → K (Unit {0})
  delete_routes [] = done
  delete_routes (route ∷ routes) = do
    delete_present (deleting "deleting managed Route " route.key) route.key
    delete_routes routes

  unfoldable pub delete_managed_routes : Gateway → K (Unit {0})
  delete_managed_routes gw = do
    routes ← wrap "listing managed Routes: " (list api (managed_routes gw))
    delete_routes routes

  abbrev pub not_managed : {A : Type 0} → Key → K A
  not_managed key =
      fail_with
        ("route " ++ (key.namespace ++ ("/" ++ (key.name ++ " exists but is not managed by OGO"))))

  unfoldable pub sync_route : Gateway → Option Object → K (Unit {0})
  sync_route gw none = create api (new_route gw (gateway_route gw) (route_spec gw))
  sync_route gw (some existing) =
      if not (is_managed_by gw existing.labels)
      then not_managed (gateway_route gw)
      else if not (needs_recreate gw existing)
      then done
      else do
        wrap "deleting route for spec change: " (delete api existing.key)
        create api (new_route gw (gateway_route gw) (route_spec gw))

  unfoldable pub reconcile_route : Gateway → K (Unit {0})
  reconcile_route gw =
      if not (route_enabled gw) then done else get_optional api (gateway_route gw) >>= sync_route gw

  abbrev published_ca : Gateway → Object → K Value
  published_ca gw o =
      let ca = secret_data "ca.crt" o.contents in
      if ca == ""
      then fail_with (
          "auth-bridge CA ConfigMap "
          ++ (api.quote (gw.name ++ auth_ca_suffix) ++ " is missing ca.crt"))
      else give (
          texts_of (
            ("termination", "reencrypt")
            ∷ ("insecureEdgeTerminationPolicy", "Redirect")
            ∷ ("destinationCACertificate", ca)
            ∷ []))

  unfoldable pub auth_bridge_route_tls : Gateway → K Value
  auth_bridge_route_tls gw =
      if is_disabled gw.tls_enabled
      then give
          (texts_of (("termination", "edge") ∷ ("insecureEdgeTerminationPolicy", "Redirect") ∷ []))
      else do
        ca ←
            wrap "reading auth-bridge CA ConfigMap: "
              (get api (key_of "ConfigMap" (gateway_namespace gw) (gw.name ++ auth_ca_suffix)))
        published_ca gw ca

  unfoldable pub write_auth_route : Gateway → Option Object → (spec : Value) → K (Unit {0})
  write_auth_route gw none spec = create api (new_route gw (auth_route gw) spec)
  write_auth_route gw (some existing) spec =
      let kept = keep_host gw existing spec in
      if api.deep_equal (spec_of existing) kept
      then done
      else update api (record existing { body = set_field "spec" kept existing.body })

  -- whether the Route that was read, if any, is another's
  abbrev is_foreign : Gateway → Option Object → Bool
  is_foreign gw none = false
  is_foreign gw (some o) = not (is_managed_by gw o.labels)

  unfoldable pub sync_auth_route : Gateway → Option Object → K (Unit {0})
  sync_auth_route gw existing =
      if is_foreign gw existing
      then not_managed (auth_route gw)
      else do tls ← auth_bridge_route_tls gw; write_auth_route gw existing (auth_route_spec gw tls)

  unfoldable pub reconcile_auth_bridge_route : Gateway → K (Unit {0})
  reconcile_auth_bridge_route gw =
      if not (route_enabled gw)
      then done
      else get_optional api (auth_route gw) >>= sync_auth_route gw
