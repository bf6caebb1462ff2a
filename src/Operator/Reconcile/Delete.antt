-- ===== src/Operator/Reconcile/Delete.antt =====
-- internal/controller/openshellgateway_controller.go: reconcileDelete, and Reconcile from its start.
use Prim.Native.String.{◌++◌}
use ogo.Base.{
  ℕ, ◌+◌, Bool, true, Option, none, some, List, [], ◌∷◌, ◌==◌, ◌||◌, not, if◌then◌else◌, length,
  ltb, nat_eq,
}
use ogo.Base.Result.{Result, ok, err}
use ogo.AuthBridge.{second}
use ogo.Controller.{
  Gateway, ApiError, Outcome, done, after, fail, with_error, gateway_namespace,
  gateway_retry_interval, phase_failed,
}
use ogo.Controller.Singleton.{oldest_by_creation_timestamp}
use ogo.Operator.{auth_ca_suffix, finalizer_name, gateway_ca_suffix, sandbox_namespace}
use ogo.Operator.Kube.{
  Key, key_of, Object, Api, K, ◌>>=◌, ◌>>◌, give, attempt, get, delete, is_served, fetch_gateway,
  list_gateways, write_finalizers, write_status, Run,
}
use ogo.Operator.Kube
use ogo.Operator.Dependencies.{report}
use ogo.Operator.Identity.{node_reader, sandbox_account}
use ogo.Operator.Network.{policy_key}
use ogo.Operator.Reconcile.{Dependency, dependencies, returning, reconcile_active}
use ogo.Operator.Routes.{delete_managed_routes}
use ogo.Operator.Routes.GatewayApi.{gateway_key, grpc_route_key, timeout_key}
use ogo.Operator.Status.{condition_degraded}
use ogo.Operator.Trust.{is_managed_by}

abbrev pub cluster_resources : Gateway → (is_openshift : Bool) → List Key
cluster_resources gw is_openshift =
    let scc =
      if is_openshift
      then key_of "ClusterRoleBinding" "" (gw.name ++ "-sandbox-scc-privileged") ∷ []
      else [] in
    key_of "ClusterRole" "" (node_reader gw) ∷ key_of "ClusterRoleBinding" "" (node_reader gw) ∷ scc

-- the objects of a sandbox namespace that is not the gateway's
abbrev pub sandbox_resources : Gateway → List Key
sandbox_resources gw =
    let ns = sandbox_namespace gw in
    if ns == gateway_namespace gw
    then []
    else key_of "ServiceAccount" ns (sandbox_account gw)
      ∷ key_of "Role" ns (sandbox_account gw)
      ∷ key_of "RoleBinding" ns (sandbox_account gw)
      ∷ policy_key gw
      ∷ []

abbrev pub gateway_api_resources : Gateway → List Key
gateway_api_resources gw = gateway_key gw ∷ grpc_route_key gw ∷ timeout_key gw ∷ []

abbrev pub ca_config_maps : Gateway → List Key
ca_config_maps gw =
    key_of "ConfigMap" (gateway_namespace gw) (gw.name ++ auth_ca_suffix)
    ∷ key_of "ConfigMap" (gateway_namespace gw) (gw.name ++ gateway_ca_suffix)
    ∷ []

-- how many errors an outcome adds to `cleanupErrors`
unfoldable pub counted : {A : Type 0} → Result ApiError A → ℕ
counted (ok _) = 0
counted (err e) = if e.not_found then 0 else 1

module _ (api : Api) where
  -- the dependencies that come later are cleaned up first; errors are logged, no more
  unfoldable pub clean_up_dependencies : Gateway → List Dependency → K (Unit {0})
  clean_up_dependencies gw [] = Kube.done
  clean_up_dependencies gw (d ∷ ds) = do
    clean_up_dependencies gw ds
    outcome ← attempt (d.cleanup gw)
    Kube.done

  -- objects that may be missing or of an unknown kind; errors are logged, no more
  unfoldable pub try_to_delete : List Key → K (Unit {0})
  try_to_delete [] = Kube.done
  try_to_delete (key ∷ keys) = do outcome ← attempt (delete api key); try_to_delete keys

  -- each of the objects is deleted; the number of errors
  unfoldable pub delete_all : List Key → K ℕ
  delete_all [] = give 0
  delete_all (key ∷ keys) = do
    outcome ← attempt (delete api key)
    more ← delete_all keys
    give (counted outcome + more)

  unfoldable pub delete_ca : Gateway → Result ApiError Object → K ℕ
  unfolding is_managed_by
  delete_ca gw (err e) = give (counted {A = Object} (err e))
  delete_ca gw (ok o) =
      if is_managed_by gw o.labels
      then attempt (delete api o.key) >>= (λ outcome. give (counted outcome))
      else give 0

  unfoldable pub delete_cas : Gateway → List Key → K ℕ
  delete_cas gw [] = give 0
  delete_cas gw (key ∷ keys) = do
    existing ← attempt (get api key)
    here ← delete_ca gw existing
    more ← delete_cas gw keys
    give (here + more)

  abbrev pub counted_routes : Result ApiError (Unit {0}) → ℕ
  counted_routes (ok _) = 0
  counted_routes (err e) = if e.no_match || e.not_found then 0 else 1

  -- `cleanupErrors` grows from one group of objects to the next
  unfoldable pub with_cas : Gateway → (errors : ℕ) → K ℕ
  with_cas gw errors = delete_cas gw (ca_config_maps gw) >>= (λ more. give (errors + more))

  unfoldable pub with_sandbox : Gateway → (errors : ℕ) → K ℕ
  with_sandbox gw errors =
      delete_all (sandbox_resources gw) >>= (λ more. with_cas gw (errors + more))

  unfoldable pub with_cluster : Gateway → (is_openshift : Bool) → (errors : ℕ) → K ℕ
  with_cluster gw is_openshift errors =
      delete_all (cluster_resources gw is_openshift) >>= (λ more. with_sandbox gw (errors + more))

  unfoldable pub clean_up_objects : Gateway → (is_openshift : Bool) → K ℕ
  clean_up_objects gw is_openshift = do
    try_to_delete (gateway_api_resources gw)
    routes ← attempt (delete_managed_routes api gw)
    with_cluster gw is_openshift (counted_routes routes)

  -- all that a gateway leaves behind; the number of errors
  unfoldable pub clean_up : Gateway → K ℕ
  clean_up gw =
      clean_up_dependencies gw (dependencies api)
      >> (is_served api "route.openshift.io/v1" >>= clean_up_objects gw)

  unfoldable pub drop_finalizer : Gateway → (errors : ℕ) → K Outcome
  drop_finalizer gw errors =
      if nat_eq errors 0
      then returning api done
          (write_finalizers api (api.remove_finalizer gw.finalizers finalizer_name))
      else give (
          with_error (after gateway_retry_interval)
            (some (Kube.plain ("cleanup incomplete: " ++ (api.show errors ++ " errors")))))

  unfoldable pub reconcile_delete : Gateway → K Outcome
  reconcile_delete gw =
      if not (api.contains_finalizer gw.finalizers finalizer_name)
      then give done
      else clean_up gw >>= drop_finalizer gw

  unfoldable pub add_finalizer : Gateway → K Outcome
  add_finalizer gw = do
    written ← attempt (write_finalizers api (api.add_finalizer gw.finalizers finalizer_name))
    elim written [ err e ↦ give (fail e.message) | ok _ ↦ give (after second) ]

  -- a gateway beside an older one
  unfoldable pub refuse : Gateway → (oldest : Gateway) → K Outcome
  refuse gw oldest =
      let status = gw.status in
      returning api done (
        write_status api (record status {
          phase = phase_failed;
          conditions = api.set_condition gw.status.conditions (
              report condition_degraded true "MultipleGateways" (
                "Only one OpenShellGateway is allowed per cluster; "
                ++ (api.quote oldest.name ++ " is the active instance")));
        }))

  -- the gateway that takes the place of this one, if another does
  unfoldable pub superseded_by : Gateway → List Gateway → Option Gateway
  unfolding oldest_by_creation_timestamp
  superseded_by gw gateways =
      if not (ltb 1 (length gateways))
      then none
      else elim (oldest_by_creation_timestamp (λ (g : Gateway). g.created_at) gateways) [
        | none ↦ none
        | some oldest ↦ if oldest.name == gw.name then none else some oldest
      ]

  unfoldable pub reconcile_only : Gateway → K Outcome
  reconcile_only gw =
      if gw.deleting
      then reconcile_delete gw
      else if not (api.contains_finalizer gw.finalizers finalizer_name)
      then add_finalizer gw
      else reconcile_active api gw

  unfoldable pub among : Gateway → Result ApiError (List Gateway) → K Outcome
  among gw (err e) = give (fail e.message)
  among gw (ok gateways) = elim (superseded_by gw gateways) [
    | some oldest ↦ refuse gw oldest
    | none ↦ reconcile_only gw
  ]

  -- the conditions in memory are those that were read
  abbrev pub remember : Gateway → K (Unit {0})
  remember gw r = (ok tt, record r { conditions = gw.status.conditions })

  unfoldable pub with_gateway : Result ApiError Gateway → K Outcome
  with_gateway (err e) = if e.not_found then give done else give (fail e.message)
  with_gateway (ok gw) = do remember gw; gateways ← attempt (list_gateways api); among gw gateways

  unfoldable pub reconcile : K Outcome
  reconcile = attempt (fetch_gateway api) >>= with_gateway
