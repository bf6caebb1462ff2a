-- ===== src/Operator/Routes/GatewayApi.antt =====
-- internal/controller/openshellgateway_controller.go: the objects of the Gateway API, and the
-- certificate of its listener.
use Prim.Native.String.{◌++◌}
use ogo.Base.{
  String, Bool, true, false, Option, none, some, [], ◌∷◌, ◌==◌, ◌&&◌, ◌||◌, not, if◌then◌else◌,
}
use ogo.Base.Result.{Result, ok, err}
use ogo.Controller.{is_disabled, Gateway, ApiError, gateway_namespace}
use ogo.Operator.{gateway_labels, gateway_class_name, reason_hostname_missing}
use ogo.Operator.Value.{
  Value, text, number, item, map_of, list_of, texts_of, text_list, entry, end, nested,
  nested_string, map_under, set_field,
}
use ogo.Operator.Kube.{
  Key, key_of, Object, fresh, Api, K, ◌>>=◌, ◌>>◌, give, done, raise, fail_with, wrap, attempt, get,
  create, update, is_served, set_condition,
}
use ogo.Operator.Dependencies.{report}
use ogo.Operator.Trust.{reconcile_self_signed_tls, get_optional, unless_missing}
use ogo.Operator.Routes.{delete_present}
use ogo.Operator.Routes.Envoy.{condition_envoy_route}
use ogo.Operator.Routes.OauthClient.{string_field, texts_field, is_only}

-- an object with the labels of its gateway and this spec
abbrev labelled : Gateway → Key → (spec : Value) → Object
labelled gw key spec = record (fresh key) {
  labels = gateway_labels gw;
  body = entry "spec" spec end;
}

abbrev pub tls_secret_name : Gateway → String
tls_secret_name gw = gw.name ++ "-gateway-tls"

abbrev pub gateway_key : Gateway → Key
gateway_key gw = key_of "Gateway" (gateway_namespace gw) gw.name

abbrev pub grpc_route_key : Gateway → Key
grpc_route_key gw = key_of "GRPCRoute" (gateway_namespace gw) gw.name

abbrev pub timeout_key : Gateway → Key
timeout_key gw = key_of "BackendTrafficPolicy" (gateway_namespace gw) (gw.name ++ "-timeout")

unfoldable pub gateway_spec : Gateway → Value
gateway_spec gw =
    let from_same = map_of (("namespaces", texts_of (("from", "Same") ∷ [])) ∷ []) in
    let tls = map_of (
      ("mode", text "Terminate")
      ∷ ("certificateRefs", list_of (texts_of (("name", tls_secret_name gw) ∷ []) ∷ []))
      ∷ []) in
    let listener = map_of (
      ("name", text "https")
      ∷ ("port", number 443)
      ∷ ("protocol", text "HTTPS")
      ∷ ("hostname", text gw.hostname)
      ∷ ("tls", tls)
      ∷ ("allowedRoutes", from_same)
      ∷ []) in
    map_of (
      ("gatewayClassName", text (gateway_class_name gw))
      ∷ ("listeners", list_of (listener ∷ []))
      ∷ [])

unfoldable pub grpc_route_spec : Gateway → Value
grpc_route_spec gw =
    let backend = map_of (("name", text gw.name) ∷ ("port", number 8080) ∷ []) in
    map_of (
      ("parentRefs", list_of (texts_of (("name", gw.name) ∷ []) ∷ []))
      ∷ ("hostnames", text_list (gw.hostname ∷ []))
      ∷ ("rules", list_of (map_of (("backendRefs", list_of (backend ∷ [])) ∷ []) ∷ []))
      ∷ [])

unfoldable pub timeout_spec : Gateway → Value
timeout_spec gw =
    let target =
      texts_of
        (("group", "gateway.networking.k8s.io") ∷ ("kind", "GRPCRoute") ∷ ("name", gw.name) ∷ []) in
    map_of (
      ("targetRefs", list_of (target ∷ []))
      ∷ ("timeout", map_of (("http", texts_of (("requestTimeout", "0s") ∷ [])) ∷ []))
      ∷ [])

-- the host name of the first listener
abbrev first_hostname : Option Value → String
first_hostname (some (item l _)) = nested_string ("hostname" ∷ []) l
first_hostname _ = ""

unfoldable pub gateway_drifted : Gateway → Object → Bool
unfolding nested nested_string
gateway_drifted gw o =
    not (first_hostname (nested ("spec" ∷ "listeners" ∷ []) o.body) == gw.hostname)
    || not (nested_string ("spec" ∷ "gatewayClassName" ∷ []) o.body == gateway_class_name gw)

abbrev issuer_name : Gateway → String
issuer_name gw = if gw.issuer_name == "" then "letsencrypt" else gw.issuer_name

abbrev issuer_kind : Gateway → String
issuer_kind gw = if gw.issuer_kind == "" then "ClusterIssuer" else gw.issuer_kind

abbrev issuer_ref : Gateway → Value
issuer_ref gw = texts_of (("name", issuer_name gw) ∷ ("kind", issuer_kind gw) ∷ [])

unfoldable pub certificate : Gateway → (secret_name hostname : String) → Object
certificate gw secret_name hostname =
    labelled gw (key_of "Certificate" (gateway_namespace gw) secret_name) (
      map_of (
        ("secretName", text secret_name)
        ∷ ("dnsNames", text_list (hostname ∷ []))
        ∷ ("issuerRef", issuer_ref gw)
        ∷ []))

-- `SetNestedField` of the names to certify and of the issuer. By its schema a Certificate's spec and
-- its issuerRef are maps.
unfoldable pub reissue : Gateway → (hostname : String) → Object → Object
reissue gw hostname o =
    let spec = map_under "spec" o.body in
    let issuer =
      set_field "kind" (text (issuer_kind gw))
        (set_field "name" (text (issuer_name gw)) (map_under "issuerRef" spec)) in
    let changed =
      set_field "issuerRef" issuer (set_field "dnsNames" (text_list (hostname ∷ [])) spec) in
    record o { body = set_field "spec" changed o.body }

abbrev reading : {A : Type 0} → (what : String) → Result String A → K A
reading what (err message) =
    fail_with ("reading existing Certificate " ++ (what ++ (": " ++ message)))
reading what (ok a) = give a

module _ (api : Api) where
  unfoldable pub sync_certificate :
      Gateway → (secret_name hostname : String) → Option Object → K (Unit {0})
  sync_certificate gw secret_name hostname none = create api (certificate gw secret_name hostname)
  sync_certificate gw secret_name hostname (some existing) = do
    let spec = map_under "spec" existing.body
    let issuer = map_under "issuerRef" spec
    names ← reading "dnsNames" (texts_field "dnsNames" spec)
    name ← reading "issuerRef.name" (string_field "name" issuer)
    kind ← reading "issuerRef.kind" (string_field "kind" issuer)
    if is_only hostname names && ((name == issuer_name gw) && (kind == issuer_kind gw))
        then done
        else update api (reissue gw hostname existing)

  unfoldable pub explain_unread : ApiError → K (Unit {0})
  explain_unread e = do
    is_known ← is_served api "cert-manager.io/v1"
    if is_known
        then raise e
        else fail_with "cert-manager CRDs not installed — required for Gateway API TLS"

  unfoldable pub reconcile_gateway_tls_cert :
      Gateway → (secret_name hostname : String) → K (Unit {0})
  reconcile_gateway_tls_cert gw secret_name hostname = do
    read ← attempt (get api (key_of "Certificate" (gateway_namespace gw) secret_name))
    elim (unless_missing read) [
      | err e ↦ explain_unread e
      | ok existing ↦ sync_certificate gw secret_name hostname existing
    ]

  -- The Gateway; whether the GRPCRoute and its timeout are to follow.
  unfoldable pub sync_gateway : Gateway → Option Object → K Bool
  sync_gateway gw none = do
    wrap "creating Gateway: " (create api (labelled gw (gateway_key gw) (gateway_spec gw)))
    give true
  sync_gateway gw (some existing) =
      if gateway_drifted gw existing
      then delete_present api "deleting drifted Gateway: " existing.key >> give false
      else give true

  unfoldable pub sync_grpc_route : Gateway → Option Object → K (Unit {0})
  sync_grpc_route gw none =
      wrap "creating GRPCRoute: "
        (create api (labelled gw (grpc_route_key gw) (grpc_route_spec gw)))
  sync_grpc_route gw (some _) = done

  -- errors are logged, no more
  unfoldable pub sync_timeout : Gateway → Result ApiError Object → K (Unit {0})
  sync_timeout gw (ok _) = done
  sync_timeout gw (err e) =
      if e.not_found
      then attempt (create api (labelled gw (timeout_key gw) (timeout_spec gw))) >>= (λ _. done)
      else done

  unfoldable pub reconcile_routes_of : Gateway → K (Unit {0})
  reconcile_routes_of gw = do
    route ← wrap "getting GRPCRoute: " (get_optional api (grpc_route_key gw))
    sync_grpc_route gw route
    timeout ← attempt (get api (timeout_key gw))
    sync_timeout gw timeout

  unfoldable pub reconcile_gateway_api : Gateway → K (Unit {0})
  reconcile_gateway_api gw =
      if gw.hostname == ""
      then set_condition api (
          report condition_envoy_route false reason_hostname_missing
            "route.hostname is required when using Gateway API")
      else do
        wrap "reconciling gateway TLS certificate: "
            (reconcile_gateway_tls_cert gw (tls_secret_name gw) gw.hostname)
        existing ← wrap "getting Gateway: " (get_optional api (gateway_key gw))
        follow ← sync_gateway gw existing
        if follow then reconcile_routes_of gw else done

  unfoldable pub reconcile_tls : Gateway → K (Unit {0})
  reconcile_tls gw =
      if is_disabled gw.tls_enabled
      then done
      else if not (gw.server_cert_secret_name == "")
      then done
      else do
        reconcile_self_signed_tls api gw
        if gw.cert_manager_enabled && not (gw.hostname == "")
            then wrap "reconciling cert-manager TLS certificate: "
                (reconcile_gateway_tls_cert gw (tls_secret_name gw) gw.hostname)
            else done
