-- ===== src/Operator/Watches.antt =====
-- internal/controller/openshellgateway_controller.go: which gateways are reconciled when an object of
-- the cluster changes.
pub mod Enqueued
use ogo.Base.{String, Bool, List, [], ◌∷◌, ◌==◌, ◌&&◌, not, if◌then◌else◌}
use ogo.Base.Result.{Result, ok, err}
use ogo.Controller.{Gateway, ApiError, gateway_namespace, secret_data}
use ogo.Operator.{label_instance, label_managed_by, managed_by_value, database_secret_name}
use ogo.Operator.Kube.{Object}

-- the names of the gateways to reconcile
unfoldable pub find_gateway_for_managed_resource : Object → List String
find_gateway_for_managed_resource o =
    if not (secret_data label_managed_by o.labels == managed_by_value)
    then []
    else if secret_data label_instance o.labels == ""
    then []
    else secret_data label_instance o.labels ∷ []

unfoldable pub reads_secret : Object → Gateway → Bool
reads_secret o gw = gateway_namespace gw == o.key.namespace && database_secret_name gw == o.key.name

unfoldable pub readers : Object → List Gateway → List String
unfolding reads_secret
readers o [] = []
readers o (gw ∷ gateways) =
    let rest = readers o gateways in if reads_secret o gw then gw.name ∷ rest else rest

-- `gateways` is what the API answered to the list
unfoldable pub find_gateways_for_database_secret :
    Result ApiError (List Gateway) → Object → List String
unfolding readers
find_gateways_for_database_secret (err _) o = []
find_gateways_for_database_secret (ok gateways) o = readers o gateways
