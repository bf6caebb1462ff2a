-- ===== src/Operator/Reconcile.antt =====
-- internal/controller/openshellgateway_controller.go, Reconcile: its phases and steps.
pub mod Delete
pub mod Deletion
pub mod Steps
pub mod Failure
pub mod Returns
use Prim.Native.String.{◌++◌}
use ogo.Base.{
  ℕ, String, Bool, true, false, Option, none, some, List, [], ◌∷◌, ◌==◌, ◌&&◌, not, if◌then◌else◌,
}
use ogo.Base.Result.{Result, ok, err}
use ogo.Dict.{lookup}
use ogo.Controller.{
  Gateway, ApiError, Condition, Outcome, after, with_error, gateway_namespace,
  gateway_retry_interval, requeue_interval,
}
use ogo.Operator.{
  auth_bridge_enabled, browser_sso_missing_hostname, database_secret_name, gateway_api_enabled,
  reason_hostname_missing,
}
use ogo.Operator.Kube.{
  Key, key_of, Object, Api, K, ◌>>=◌, ◌>>◌, give, done, raise, plain, prefixed, attempt, get,
  is_served, set_condition,
}
use ogo.Operator.Dependencies.{Report, report}
use ogo.Operator.Dependencies.Groups
use ogo.Operator.Dependencies.Postgres
use ogo.Operator.Dependencies.EnvoyProxyScc
use ogo.Operator.Dependencies.EnvoyGateway
use ogo.Operator.Identity.{
  reconcile_namespace, reconcile_gateway_service_account, reconcile_sandbox_service_account,
  reconcile_cluster_role, reconcile_cluster_role_binding, reconcile_role, reconcile_role_binding,
  reconcile_scc_binding,
}
use ogo.Operator.Network.{reconcile_service, reconcile_network_policy}
use ogo.Operator.Pod.Encode.{reconcile_config_map, reconcile_deployment}
use ogo.Operator.Routes.{reconcile_obsolete_routes, reconcile_route, reconcile_auth_bridge_route}
use ogo.Operator.Routes.Envoy.{RouteReport, reconcile_envoy_route}
use ogo.Operator.Routes.GatewayApi.{reconcile_tls, reconcile_gateway_api}
use ogo.Operator.Routes.OauthClient.{reconcile_oauth_client}
use ogo.Operator.Status.{condition_browser_sso, set_degraded, update_status}
use ogo.Operator.Trust.{
  reconcile_auth_bridge_ca, reconcile_gateway_ca, reconcile_jwt_keys, reconcile_auth_bridge_keys,
}

-- A step and its name; how a run of steps ends: it may stop at a named step.
abbrev pub Step : Type 0
Step = String × K (Unit {0})

abbrev pub Stop : Type 0
Stop = Result (String × ApiError) (Unit {0})

-- what follows a step: its name and error, or the next steps
unfoldable pub after_step : (name : String) → K Stop → Result ApiError (Unit {0}) → K Stop
after_step name next (err e) = give (err (name, e))
after_step name next (ok _) = next

-- the loop over the steps, which ends at the first that fails
unfoldable pub run_steps : List Step → K Stop
unfolding after_step
run_steps [] = give (ok tt)
run_steps ((name, step) ∷ steps) = attempt step >>= after_step name (run_steps steps)

-- what follows a run that has not stopped
unfoldable pub unless_stopped : K Stop → K Stop → K Stop
unless_stopped first next = do
  outcome ← first
  elim outcome [ err stop ↦ give (err stop) | ok _ ↦ next ]

-- `DependencyReconciler`
pub record Dependency : Type 0 where
  pub name : String
  pub enabled : Gateway → K Bool
  pub reconcile : Gateway → K Report
  pub cleanup : Gateway → K (Unit {0})

module _ (api : Api) where
  abbrev pub dependencies : List Dependency
  dependencies =
      record {
        name = "EnvoyGatewayReady";
        enabled = EnvoyGateway.enabled api;
        reconcile = EnvoyGateway.reconcile api;
        cleanup = EnvoyGateway.cleanup api;
      }
      ∷ record {
        name = "EnvoyProxySCCReady";
        enabled = EnvoyProxyScc.enabled api;
        reconcile = EnvoyProxyScc.reconcile api;
        cleanup = EnvoyProxyScc.cleanup api;
      }
      ∷ record {
        name = "DatabaseReady";
        enabled = λ gw. give (Postgres.enabled gw);
        reconcile = Postgres.reconcile api;
        cleanup = Postgres.cleanup api;
      }
      ∷ record {
        name = "OpenShiftGroupsReady";
        enabled = Groups.enabled api;
        reconcile = Groups.reconcile api;
        cleanup = Groups.cleanup api;
      }
      ∷ []

  unfoldable pub stop_at : (name : String) → Option ApiError → K Stop → K Stop
  stop_at name (some e) next = give (err (name, e))
  stop_at name none next = next

  unfoldable pub run_dependencies : Gateway → List Dependency → K Stop
  run_dependencies gw [] = give (ok tt)
  run_dependencies gw (d ∷ ds) = do
    is_enabled ← d.enabled gw
    if not is_enabled then run_dependencies gw ds else do
      outcome ← d.reconcile gw
      set_condition api outcome.0
      stop_at d.name outcome.1 (run_dependencies gw ds)

  abbrev checked_uri : (secret_name : String) → Object → K (Unit {0})
  checked_uri secret_name secret = elim (lookup "uri" secret.contents) [
    | some _ ↦ done
    | none ↦
        raise
          (plain ("database secret " ++ (api.quote secret_name ++ " missing required key \"uri\"")))
  ]

  abbrev secret_error : Gateway → (secret_name : String) → ApiError → ApiError
  secret_error gw secret_name e =
      if e.not_found
      then plain (
          "database secret "
          ++ (api.quote secret_name
              ++ (" not found in namespace " ++ api.quote (gateway_namespace gw))))
      else prefixed "checking database secret: " e

  unfoldable pub validate_database_secret : Gateway → K (Unit {0})
  validate_database_secret gw =
      let secret_name = database_secret_name gw in
      if secret_name == ""
      then raise (plain "either spec.database.secretName or spec.database.embedded must be set")
      else do
        secret ← attempt (get api (key_of "Secret" (gateway_namespace gw) secret_name))
        elim secret [
          | err e ↦ raise (secret_error gw secret_name e)
          | ok o ↦ checked_uri secret_name o
        ]

  unfoldable pub core_steps : Gateway → List Step
  core_steps gw =
      ("Namespace", reconcile_namespace api gw)
      ∷ ("GatewayServiceAccount", reconcile_gateway_service_account api gw)
      ∷ ("SandboxServiceAccount", reconcile_sandbox_service_account api gw)
      ∷ ("ClusterRole", reconcile_cluster_role api gw)
      ∷ ("ClusterRoleBinding", reconcile_cluster_role_binding api gw)
      ∷ ("Role", reconcile_role api gw)
      ∷ ("RoleBinding", reconcile_role_binding api gw)
      ∷ ("TLS", reconcile_tls api gw)
      ∷ ("AuthBridgeCA", reconcile_auth_bridge_ca api gw)
      ∷ ("GatewayCA", reconcile_gateway_ca api gw)
      ∷ ("JWTKeys", reconcile_jwt_keys api gw)
      ∷ ("AuthBridgeKeys", reconcile_auth_bridge_keys api gw)
      ∷ ("ConfigMap", reconcile_config_map api gw)
      ∷ ("Deployment", reconcile_deployment api gw)
      ∷ ("Service", reconcile_service api gw)
      ∷ ("NetworkPolicy", reconcile_network_policy api gw)
      ∷ []

  abbrev set_reported : Option Condition → K (Unit {0})
  set_reported none = done
  set_reported (some c) = set_condition api c

  abbrev fail_reported : Option ApiError → K (Unit {0})
  fail_reported none = done
  fail_reported (some e) = raise e

  unfoldable pub envoy_route_step : Gateway → K (Unit {0})
  envoy_route_step gw = do
    outcome ← reconcile_envoy_route api gw
    set_reported outcome.0
    fail_reported outcome.1

  abbrev route_steps : Gateway → (use_gateway_api auth_enabled : Bool) → List Step
  route_steps gw use_gateway_api auth_enabled =
      ("RouteCleanup", reconcile_obsolete_routes api gw use_gateway_api auth_enabled)
      ∷ (if use_gateway_api
          then ("EnvoyRoute", envoy_route_step gw)
          else ("Route", reconcile_route api gw))
      ∷ ("SCCBinding", reconcile_scc_binding api gw)
      ∷ []

  -- browser login, for which the host name must be known
  unfoldable pub reconcile_browser_sso : Gateway → (auth_enabled : Bool) → K Stop
  reconcile_browser_sso gw auth_enabled =
      if not auth_enabled
      then give (ok tt)
      else if browser_sso_missing_hostname gw auth_enabled
      then set_condition api (
          report condition_browser_sso false reason_hostname_missing
            "spec.route.hostname is required when OpenShift browser SSO (spec.auth.openshift.enabled) and routing are both enabled; set it explicitly, or disable browser SSO for headless-only (mTLS/ServiceAccount) access")
        >> give (ok tt)
      else do
        set_condition api
            (report condition_browser_sso true "Ready" "Browser SSO hostname configured")
        run_steps (
            ("AuthBridgeRoute", reconcile_auth_bridge_route api gw)
            ∷ ("OAuthClient", reconcile_oauth_client api gw)
            ∷ [])

  unfoldable pub reconcile_openshift_routing :
      Gateway → (use_gateway_api auth_enabled : Bool) → K Stop
  reconcile_openshift_routing gw use_gateway_api auth_enabled =
      unless_stopped (run_steps (route_steps gw use_gateway_api auth_enabled))
        (reconcile_browser_sso gw auth_enabled)

  -- `return ctrl.Result{…}, err` for what `m` returns as `err`
  abbrev pub returning : Outcome → K (Unit {0}) → K Outcome
  returning o m = do
    outcome ← attempt m
    elim outcome [ ok _ ↦ give o | err e ↦ give (with_error o (some e)) ]

  abbrev validated : Gateway → K Stop
  validated gw = run_steps (("DatabaseSecret", validate_database_secret gw) ∷ [])

  abbrev gateway_api_steps : Gateway → (use_gateway_api : Bool) → List Step
  gateway_api_steps gw use_gateway_api =
      if use_gateway_api then ("GatewayAPI", reconcile_gateway_api api gw) ∷ [] else []

  -- all that is done for a gateway, up to the first failure
  unfoldable pub run_phases : Gateway → (is_openshift use_gateway_api auth_enabled : Bool) → K Stop
  run_phases gw is_openshift use_gateway_api auth_enabled =
      unless_stopped (run_dependencies gw dependencies) (
        unless_stopped (validated gw) (
          unless_stopped (run_steps (core_steps gw)) (
            unless_stopped (run_steps (gateway_api_steps gw use_gateway_api)) (
              if is_openshift
              then reconcile_openshift_routing gw use_gateway_api auth_enabled
              else give (ok tt)))))

  unfoldable pub finish : Gateway → (auth_enabled : Bool) → Stop → K Outcome
  finish gw auth_enabled (err (step, e)) =
      returning (after gateway_retry_interval) (set_degraded api gw step e)
  finish gw auth_enabled (ok _) =
      returning (after requeue_interval) (update_status api gw auth_enabled)

  unfoldable pub reconcile_active : Gateway → K Outcome
  reconcile_active gw = do
    is_openshift ← is_served api "route.openshift.io/v1"
    has_gateway_api ← is_served api "gateway.networking.k8s.io/v1"
    let use_gateway_api = gateway_api_enabled gw has_gateway_api
    let auth_enabled = auth_bridge_enabled gw is_openshift
    stop ← run_phases gw is_openshift use_gateway_api auth_enabled
    finish gw auth_enabled stop
