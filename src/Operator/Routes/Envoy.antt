-- ===== src/Operator/Routes/Envoy.antt =====
-- internal/controller/openshellgateway_controller.go, reconcileEnvoyRoute: the Route to the Service of
-- Envoy's proxy. It reports a condition, unless Routes are disabled.
use Prim.Native.String.{◌++◌}
use ogo.Base.{
  String, Bool, true, false, Option, none, some, List, [], ◌∷◌, ◌==◌, ◌||◌, not, if◌then◌else◌,
}
use ogo.Base.Result.{Result, ok, err}
use ogo.Controller.{Gateway, ApiError, Condition, gateway_namespace}
use ogo.Operator.{envoy_gateway_system_ns, reason_hostname_missing, route_enabled}
use ogo.Operator.Value.{Value, text, number, map_of, texts_of, nested_string}
use ogo.Operator.Kube.{
  Key, Object, Query, Api, K, ◌>>=◌, give, plain, prefixed, attempt, get, list, create, delete,
}
use ogo.Operator.Dependencies.{report}
use ogo.Operator.Trust.{is_managed_by}
use ogo.Operator.Routes.{route_key, new_route}

abbrev pub condition_envoy_route : String
condition_envoy_route = "EnvoyRouteReady"

-- what the function returns; no condition for the zero `metav1.Condition`
abbrev pub RouteReport : Type 0
RouteReport = Option Condition × Option ApiError

abbrev route_ready : (reason message : String) → K RouteReport
route_ready reason message = give (some (report condition_envoy_route true reason message), none)

-- a wait, which is no error
abbrev route_waits : (reason message : String) → K RouteReport
route_waits reason message = give (some (report condition_envoy_route false reason message), none)

abbrev route_broken : (reason message : String) → ApiError → K RouteReport
route_broken reason message e =
    give (some (report condition_envoy_route false reason message), some e)

unfoldable pub proxy_services : Gateway → Query
proxy_services gw = record {
  kind = "Service";
  namespace = some envoy_gateway_system_ns;
  labels =
      ("gateway.envoyproxy.io/owning-gateway-name", gw.name)
      ∷ ("gateway.envoyproxy.io/owning-gateway-namespace", gateway_namespace gw)
      ∷ [];
}

unfoldable pub envoy_route_spec : (hostname service : String) → Value
envoy_route_spec hostname service = map_of (
    ("host", text hostname)
    ∷ ("to", texts_of (("kind", "Service") ∷ ("name", service) ∷ []))
    ∷ ("port", map_of (("targetPort", number 10443) ∷ []))
    ∷ ("tls", texts_of (("termination", "passthrough") ∷ []))
    ∷ [])

-- whether the Route leads to another host or another Service than it should
unfoldable pub has_drifted : Gateway → (service existing : Object) → Bool
unfolding nested_string
has_drifted gw service existing =
    not (nested_string ("spec" ∷ "host" ∷ []) existing.body == gw.hostname)
    || not (nested_string ("spec" ∷ "to" ∷ "name" ∷ []) existing.body == service.key.name)

module _ (api : Api) where
  abbrev proxy_route : Gateway → (service : Object) → Key
  proxy_route gw service = route_key service.key.namespace (gw.name ++ "-gw")

  abbrev new_envoy_route : Gateway → (service : Object) → Object
  new_envoy_route gw service =
      new_route gw (proxy_route gw service) (envoy_route_spec gw.hostname service.key.name)

  abbrev about_route : Gateway → (verb : String) → String
  about_route gw verb = "Route " ++ (gw.name ++ ("-gw " ++ (verb ++ (" for host " ++ gw.hostname))))

  unfoldable pub create_envoy_route : Gateway → (service : Object) → K RouteReport
  create_envoy_route gw service = do
    outcome ← attempt (create api (new_envoy_route gw service))
    elim outcome [
      | err e ↦
          route_broken "CreateFailed" "Failed to create Route - see operator logs for details"
            (prefixed "creating envoy route: " e)
      | ok _ ↦ route_ready "Created" (about_route gw "created")
    ]

  unfoldable pub recreated : Gateway → Result ApiError (Unit {0}) → K RouteReport
  recreated gw (err e) =
      route_broken "RecreateFailed"
        "Deleted the drifted Route but failed to recreate it - no Route exists until the next reconcile retries this; see operator logs for details"
        (prefixed "recreating drifted envoy route: " e)
  recreated gw (ok _) = route_ready "Created" (about_route gw "recreated")

  unfoldable pub recreate_envoy_route : Gateway → (service existing : Object) → K RouteReport
  recreate_envoy_route gw service existing = do
    outcome ← attempt (delete api existing.key)
    elim outcome [
      | err e ↦
          route_broken "UpdateFailed"
            "Failed to delete drifted Route - see operator logs for details"
            (prefixed "deleting drifted envoy route: " e)
      | ok _ ↦ attempt (create api (new_envoy_route gw service)) >>= recreated gw
    ]

  unfoldable pub sync_envoy_route :
      Gateway → (service : Object) → Result ApiError Object → K RouteReport
  sync_envoy_route gw service (err e) =
      if e.not_found
      then create_envoy_route gw service
      else route_broken "GetFailed" "Failed to get existing Route - see operator logs for details"
          (prefixed "getting envoy route: " e)
  sync_envoy_route gw service (ok existing) =
      if not (is_managed_by gw existing.labels)
      then route_broken "OwnershipConflict" "Route exists but is not managed by OGO" (
          plain (
            "route "
            ++ (existing.key.namespace
                ++ ("/" ++ (existing.key.name ++ " exists but is not managed by OGO")))))
      else if has_drifted gw service existing
      then recreate_envoy_route gw service existing
      else route_ready "Exists" (about_route gw "exists")

  -- the only Service, or the first by name
  abbrev pick_service : List Object → List Object
  pick_service [] = []
  pick_service (s ∷ []) = s ∷ []
  pick_service (s ∷ t ∷ services) = api.sort_by_name (s ∷ t ∷ services)

  abbrev with_service : Gateway → List Object → K RouteReport
  with_service gw [] =
      route_waits "ProxyServiceNotFound"
        "Waiting for Envoy Gateway to provision the proxy Service (labeled gateway.envoyproxy.io/owning-gateway-name/-namespace) before the Route can be created"
  with_service gw (service ∷ _) =
      attempt (get api (proxy_route gw service)) >>= sync_envoy_route gw service

  unfoldable pub with_services : Gateway → Result ApiError (List Object) → K RouteReport
  with_services gw (err e) =
      route_broken "ListFailed"
        "Failed to list Envoy proxy services - see operator logs for details"
        (prefixed "listing Envoy proxy services: " e)
  with_services gw (ok services) = with_service gw (pick_service services)

  unfoldable pub reconcile_envoy_route : Gateway → K RouteReport
  reconcile_envoy_route gw =
      if not (route_enabled gw)
      then give (none, none)
      else if gw.hostname == ""
      then route_waits reason_hostname_missing "route.hostname is required when using Gateway API"
      else attempt (list api (proxy_services gw)) >>= with_services gw
