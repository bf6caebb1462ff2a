-- ===== src/Operator/Dependencies/EnvoyProxyScc.antt =====
-- internal/controller/dep_envoyproxyscc.go: the proxies of Envoy may run with the privileged SCC.
use Prim.Native.String.{◌++◌}
use ogo.Base.{
  ℕ, suc, String, Bool, true, false, none, some, List, [], ◌∷◌, ◌==◌, ◌||◌, not, ltb, starts_with,
  if◌then◌else◌,
}
use ogo.Base.Result.{Result, ok, err}
use ogo.Dict.{Dict}
use ogo.Controller.{Gateway, ApiError}
use ogo.Operator.{envoy_gateway_system_ns}
use ogo.Operator.Value.{text, map_of, list_of}
use ogo.Operator.Kube.{
  Key, key_of, Object, fresh, Api, K, ◌>>=◌, ◌>>◌, give, done, attempt, get, list, create,
  is_served,
}
use ogo.Operator.Dependencies.{
  ownership_labels, Report, report, ready, broken, delete_owned, cluster_role_binding_kind,
}

abbrev pub component_envoy_proxy_scc : String
component_envoy_proxy_scc = "envoy-proxy-scc"

abbrev pub condition_envoy_proxy_scc : String
condition_envoy_proxy_scc = "EnvoyProxySCCReady"

abbrev pub binding_key : String → Key
binding_key name = key_of cluster_role_binding_kind "" name

-- a ClusterRoleBinding of an SCC to a ServiceAccount
unfoldable pub scc_binding : Dict String → (name scc account namespace : String) → Object
scc_binding labels name scc account namespace = record (fresh (binding_key name)) {
  labels = labels;
  body = map_of (
      (
        "roleRef",
        map_of (
            ("apiGroup", text "rbac.authorization.k8s.io")
            ∷ ("kind", text "ClusterRole")
            ∷ ("name", text ("system:openshift:scc:" ++ scc))
            ∷ []),
      )
      ∷ (
        "subjects",
        list_of (
            map_of (
              ("kind", text "ServiceAccount")
              ∷ ("name", text account)
              ∷ ("namespace", text namespace)
              ∷ [])
            ∷ []),
      )
      ∷ []);
}

abbrev pub is_proxy : String → Bool
is_proxy name = not (
    not (starts_with name "envoy-")
    || (name == "envoy-gateway" || name == "eg-gateway-helm-certgen"))

module _ (api : Api) where
  unfoldable pub enabled : Gateway → K Bool
  enabled gw = do
    is_openshift ← is_served api "route.openshift.io/v1"
    if not is_openshift then give false else elim gw.gateway_api_enabled [
      | none ↦ is_served api "gateway.networking.k8s.io/v1"
      | some on ↦ give on
    ]

  unfoldable pub created_binding :
      (account : String) → Result ApiError (Unit {0}) → K (Result Report (Unit {0}))
  created_binding account (ok _) = give (ok tt)
  created_binding account (err e) =
      if e.already_exists
      then give (ok tt)
      else give (
          err (
            report condition_envoy_proxy_scc false "GrantFailed"
                ("Failed to grant SCC to " ++ (account ++ (": " ++ e.message))),
            some e,
          ))

  unfoldable pub checked_binding :
      Gateway → (account : String) → Result ApiError Object → K (Result Report (Unit {0}))
  checked_binding gw account (ok _) = give (ok tt)
  checked_binding gw account (err _) = do
    let name = "envoy-proxy-" ++ (account ++ "-privileged")
    let labels = ownership_labels component_envoy_proxy_scc gw
    outcome ←
        attempt (create api (scc_binding labels name "privileged" account envoy_gateway_system_ns))
    created_binding account outcome

  -- one round of the loop; `granted` counts
  unfoldable pub grant : Gateway → (account : String) → K (Result Report (Unit {0}))
  grant gw account = do
    existing ← attempt (get api (binding_key ("envoy-proxy-" ++ (account ++ "-privileged"))))
    checked_binding gw account existing

  unfoldable pub grant_all : Gateway → List Object → (granted : ℕ) → K (Result Report ℕ)
  grant_all gw [] granted = give (ok granted)
  grant_all gw (account ∷ accounts) granted = elim (is_proxy account.key.name) [
    | false ↦ grant_all gw accounts granted
    | true ↦ do
      outcome ← grant gw account.key.name
      elim outcome [ err stop ↦ give (err stop) | ok _ ↦ grant_all gw accounts (suc granted) ]
  ]

  abbrev summary : ℕ → String
  summary granted =
      if ltb 0 granted
      then "Granted privileged SCC to " ++ (api.show granted ++ " Envoy proxy ServiceAccount(s)")
      else "No Envoy proxy ServiceAccounts found yet"

  unfoldable pub granted_report : Result Report ℕ → K Report
  granted_report (err stop) = give stop
  granted_report (ok granted) = ready condition_envoy_proxy_scc "Granted" (summary granted)

  unfoldable pub with_accounts : Gateway → Result ApiError (List Object) → K Report
  with_accounts gw (err e) =
      broken condition_envoy_proxy_scc "ListFailed"
        ("Failed to list ServiceAccounts: " ++ e.message) e
  with_accounts gw (ok accounts) = do outcome ← grant_all gw accounts 0; granted_report outcome

  unfoldable pub reconcile : Gateway → K Report
  reconcile gw = do
    accounts ← attempt (
        list api (record {
          kind = "ServiceAccount";
          namespace = some envoy_gateway_system_ns;
          labels = [];
        }))
    with_accounts gw accounts

  unfoldable pub delete_each : List Object → K (Unit {0})
  delete_each [] = done
  delete_each (o ∷ os) = do delete_owned api o; delete_each os

  unfoldable pub delete_listed : Result ApiError (List Object) → K (Unit {0})
  delete_listed (err _) = done
  delete_listed (ok bindings) = delete_each bindings

  unfoldable pub cleanup : Gateway → K (Unit {0})
  cleanup gw = do
    let labels = ownership_labels component_envoy_proxy_scc gw
    bindings ←
        attempt (
          list api (record { kind = cluster_role_binding_kind; namespace = none; labels = labels }))
    delete_listed bindings
