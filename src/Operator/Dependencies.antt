-- ===== src/Operator/Dependencies.antt =====
-- internal/controller/dependency.go: what the dependency reconcilers share. Each reports a condition
-- and maybe an error.
pub mod Groups
pub mod Postgres
pub mod EnvoyProxyScc
pub mod EnvoyGateway
pub mod Cleanup
pub mod Total
use ogo.Base.{String, Bool, true, false, Option, none, some, List, [], ◌∷◌, ◌==◌}
use ogo.Base.Result.{Result, ok, err}
use ogo.Dict.{Dict, lookup}
use ogo.Controller.{Gateway, ApiError, Condition, secret_data}
use ogo.Operator.{label_managed_by, managed_by_value}
use ogo.Operator.Kube.{Key, Object, Api, K, ◌>>=◌, ◌>>◌, give, done, attempt, get, delete}

abbrev pub label_provisioned_by : String
label_provisioned_by = "ogo.aknochow.io/provisioned-by"

abbrev pub label_component : String
label_component = "ogo.aknochow.io/component"

abbrev pub label_gateway_name : String
label_gateway_name = "ogo.aknochow.io/gateway-name"

abbrev pub provisioned_by_ogo : String
provisioned_by_ogo = "ogo"

unfoldable pub ownership_labels : String → Gateway → Dict String
ownership_labels component gw =
    (label_provisioned_by, provisioned_by_ogo)
    ∷ (label_component, component)
    ∷ (label_gateway_name, gw.name)
    ∷ (label_managed_by, managed_by_value)
    ∷ []

unfoldable pub is_owned_by_ogo : Dict String → Bool
is_owned_by_ogo labels = secret_data label_provisioned_by labels == provisioned_by_ogo

-- What `Reconcile` returns: a condition, and maybe an error.
abbrev pub Report : Type 0
Report = Condition × Option ApiError

abbrev pub report : (kind : String) → Bool → (reason message : String) → Condition
report kind holds reason message = record {
  kind = kind;
  holds = holds;
  reason = reason;
  message = message;
}

abbrev pub ready : (kind reason message : String) → K Report
ready kind reason message = give (report kind true reason message, none)

abbrev pub broken : (kind reason message : String) → ApiError → K Report
broken kind reason message e = give (report kind false reason message, some e)

abbrev pub cluster_role_binding_kind : String
cluster_role_binding_kind = "ClusterRoleBinding"

module _ (api : Api) where
  -- `if isOwnedByOGO(...) { if err := Delete(...) ... log }`
  unfoldable pub delete_owned : Object → K (Unit {0})
  delete_owned o = elim (is_owned_by_ogo o.labels) [
    | true ↦ do outcome ← attempt (delete api o.key); done
    | false ↦ done
  ]

  unfoldable pub delete_read : Result ApiError Object → K (Unit {0})
  delete_read (err _) = done
  delete_read (ok o) = delete_owned o

  -- one round of the loops of `Cleanup`: an object is deleted if it can be read and is owned
  unfoldable pub clean_up_object : Key → K (Unit {0})
  clean_up_object key = do existing ← attempt (get api key); delete_read existing
