-- ===== src/Operator/Status.antt =====
-- internal/controller/openshellgateway_controller.go: updateStatus and setDegraded.
pub mod Phase
use Prim.Native.String.{◌++◌}
use ogo.Base.{
  ℕ, String, Bool, true, false, Option, none, some, List, [], ◌∷◌, ◌==◌, ◌&&◌, ◌||◌, not,
  if◌then◌else◌, ltb, nat_eq,
}
use ogo.Base.Result.{Result, ok, err}
use ogo.Controller.{Gateway, GatewayStatus, ApiError, Condition, gateway_namespace, phase_failed}
use ogo.Operator.{reason_hostname_missing, route_enabled, gateway_api_enabled}
use ogo.Operator.Value.{Value, number, nested}
use ogo.Operator.Kube.{
  key_of, Object, Api, K, ◌>>=◌, give, raise, attempt, get, is_served, fetch_gateway, write_status,
  own_conditions,
}
use ogo.Operator.Dependencies.{report}
use ogo.Operator.Dependencies.Groups.{condition_groups}
use ogo.Operator.Dependencies.Postgres.{condition_database}
use ogo.Operator.Dependencies.EnvoyProxyScc.{condition_envoy_proxy_scc}
use ogo.Operator.Dependencies.EnvoyGateway.{condition_envoy_gateway}
use ogo.Operator.Routes.Envoy.{condition_envoy_route}
use ogo.Operator.Pod.Encode.{condition_image_config}

abbrev pub condition_available : String
condition_available = "Available"

abbrev pub condition_progressing : String
condition_progressing = "Progressing"

abbrev pub condition_degraded : String
condition_degraded = "Degraded"

abbrev pub condition_browser_sso : String
condition_browser_sso = "BrowserSSOReady"

abbrev pub phase_running : String
phase_running = "Running"

abbrev pub phase_creating : String
phase_creating = "Creating"

abbrev number_or : ℕ → Option Value → ℕ
number_or d (some (number n)) = n
number_or d _ = d

-- all pods that the Deployment asks for are ready, and there is one
unfoldable pub pods_ready : Object → Bool
unfolding nested
pods_ready deploy =
    let desired = number_or 1 (nested ("spec" ∷ "replicas" ∷ []) deploy.body) in
    let ready = number_or 0 (nested ("status" ∷ "readyReplicas" ∷ []) deploy.body) in
    ltb 0 ready && nat_eq ready desired

abbrev fails : Option Condition → Bool
fails none = false
fails (some c) = not c.holds

-- What of the gateway the status depends on, beyond its pods.
pub record Facts : Type 0 where
  pub envoy_route_active : Bool
  pub auth_bridge_active : Bool
  pub conditions : List Condition

module _ (api : Api) where
  unfoldable pub envoy_route_blocking : Facts → Bool
  envoy_route_blocking f =
      f.envoy_route_active && fails (api.find_condition f.conditions condition_envoy_route)

  unfoldable pub browser_sso_blocking : Facts → Bool
  browser_sso_blocking f =
      f.auth_bridge_active && fails (api.find_condition f.conditions condition_browser_sso)

  unfoldable pub blocked_reason : Facts → String
  unfolding browser_sso_blocking
  blocked_reason f =
      if browser_sso_blocking f then reason_hostname_missing else "EnvoyRouteNotReady"

  unfoldable pub blocked_message : Facts → String
  unfolding browser_sso_blocking
  blocked_message f =
      if browser_sso_blocking f
      then "spec.route.hostname is required for OpenShift browser SSO — see the BrowserSSOReady condition"
      else "Waiting for the Envoy Gateway Route to become ready"

  unfoldable pub progressing_reason : Facts → String
  unfolding browser_sso_blocking
  progressing_reason f = if browser_sso_blocking f then "WaitingForConfig" else "Deploying"

  -- The `switch`: the phase, and the two conditions that tell of the rollout.
  unfoldable pub rollout : (pods_ready : Bool) → Facts → String × Condition × Condition
  unfolding envoy_route_blocking browser_sso_blocking blocked_reason blocked_message
      progressing_reason
  rollout pods_ready f =
      let blocking = envoy_route_blocking f || browser_sso_blocking f in
      if pods_ready && not blocking
      then (
        phase_running,
        report condition_available true "Ready" "Gateway is running",
        report condition_progressing false "Complete" "Rollout complete",
      )
      else if pods_ready && blocking
      then (
        phase_creating,
        report condition_available false (blocked_reason f) (blocked_message f),
        report condition_progressing true (progressing_reason f) (blocked_message f),
      )
      else (
        phase_creating,
        report condition_available false "NotReady" "Waiting for pods",
        report condition_progressing true "Deploying" "Gateway pods starting",
      )

  -- conditions of a kind that does not apply any more are dropped
  unfoldable pub drop_inactive : Facts → List Condition → List Condition
  drop_inactive f cs =
      let routes =
        if f.envoy_route_active then cs else api.remove_condition cs condition_envoy_route in
      if f.auth_bridge_active then routes else api.remove_condition routes condition_browser_sso

  abbrev copied_kinds : List String
  copied_kinds =
      condition_envoy_gateway ∷ condition_database ∷ condition_envoy_proxy_scc ∷ condition_groups
      ∷ condition_envoy_route ∷ condition_browser_sso ∷ condition_image_config ∷ []

  abbrev is_skipped : Facts → (kind : String) → Bool
  is_skipped f kind =
      (kind == condition_envoy_route && not f.envoy_route_active)
      || (kind == condition_browser_sso && not f.auth_bridge_active)

  abbrev copied : Option Condition → List Condition → List Condition
  copied none cs = cs
  copied (some c) cs = api.set_condition cs c

  -- the loop that copies the conditions of this reconcile to the status
  unfoldable pub copy_conditions : Facts → (kinds : List String) → List Condition → List Condition
  copy_conditions f [] cs = cs
  copy_conditions f (kind ∷ kinds) cs =
      copy_conditions f kinds
        (if is_skipped f kind then cs else copied (api.find_condition f.conditions kind) cs)

  unfoldable pub gateway_url : Gateway → String
  gateway_url gw =
      if route_enabled gw && not (gw.hostname == "")
      then "https://" ++ (gw.hostname ++ ":443")
      else "https://" ++ (gw.name ++ ("." ++ (gateway_namespace gw ++ ".svc.cluster.local:8080")))

  unfoldable pub new_status : Gateway → (pods_ready : Bool) → Facts → GatewayStatus → GatewayStatus
  unfolding rollout drop_inactive copy_conditions gateway_url
  new_status gw pods_ready f latest =
      let (phase, available, progressing) = rollout pods_ready f in
      let kept = drop_inactive f latest.conditions in
      let rolled = api.set_condition (api.set_condition kept available) progressing in
      let sound = api.set_condition rolled (report condition_degraded false "OK" "") in
      record {
        phase = phase;
        gateway_url = gateway_url gw;
        client_cert_secret_name = gw.name ++ "-client-tls";
        observed_generation = gw.generation;
        conditions = copy_conditions f copied_kinds sound;
      }

  -- the status where the Deployment cannot be read
  unfoldable pub missing_status : GatewayStatus → GatewayStatus
  missing_status latest = record latest {
    phase = phase_failed;
    conditions =
        api.set_condition latest.conditions
          (report condition_available false "DeploymentNotFound" "Gateway deployment not found");
  }

  unfoldable pub write_with_deployment :
      Gateway → (auth_enabled : Bool) → (latest : Gateway) → Result ApiError Object → K (Unit {0})
  unfolding new_status missing_status pods_ready
  write_with_deployment gw auth_enabled latest (err _) =
      write_status api (missing_status latest.status)
  write_with_deployment gw auth_enabled latest (ok deploy) = do
    has_gateway_api ←
        (if route_enabled gw then is_served api "gateway.networking.k8s.io/v1" else give false)
    conditions ← own_conditions
    let facts : Facts = record {
      envoy_route_active = route_enabled gw && gateway_api_enabled gw has_gateway_api;
      auth_bridge_active = auth_enabled;
      conditions = conditions;
    }
    write_status api (new_status gw (pods_ready deploy) facts latest.status)

  unfoldable pub update_status : Gateway → (auth_enabled : Bool) → K (Unit {0})
  unfolding write_with_deployment
  update_status gw auth_enabled = do
    latest ← fetch_gateway api
    deploy ← attempt (get api (key_of "Deployment" (gateway_namespace gw) gw.name))
    write_with_deployment gw auth_enabled latest deploy

  unfoldable pub degraded_status :
      Gateway → (step : String) → ApiError → GatewayStatus → GatewayStatus
  degraded_status gw step e latest = record latest {
    phase = phase_failed;
    observed_generation = gw.generation;
    conditions =
        api.set_condition latest.conditions
          (report condition_degraded true "ReconcileError" (step ++ (": " ++ e.message)));
  }

  -- writes the status where it can, and returns the error either way
  unfoldable pub degrade_latest :
      {A : Type 0} → Gateway → (step : String) → ApiError → Result ApiError Gateway → K A
  unfolding degraded_status
  degrade_latest gw step e (err _) = raise e
  degrade_latest gw step e (ok latest) =
      attempt (write_status api (degraded_status gw step e latest.status)) >>= (λ _. raise e)

  unfoldable pub set_degraded : {A : Type 0} → Gateway → (step : String) → ApiError → K A
  unfolding degrade_latest
  set_degraded gw step e = attempt (fetch_gateway api) >>= degrade_latest gw step e
