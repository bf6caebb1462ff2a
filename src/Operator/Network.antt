-- ===== src/Operator/Network.antt =====
-- internal/controller/openshellgateway_controller.go: the Service and the NetworkPolicy.
use Prim.Native.String.{◌++◌}
use ogo.Base.{ℕ, String, Bool, List, [], ◌∷◌, ◌==◌, if◌then◌else◌}
use ogo.Base.Result.{Result, ok, err}
use ogo.Controller.{Gateway, ApiError, gateway_namespace, unless_disabled, is_disabled}
use ogo.Operator.{sandbox_namespace, gateway_labels, selector_labels, auth_bridge_enabled}
use ogo.Operator.Value.{Value, text, number, list_of, map_of, texts_of, text_list, set_field}
use ogo.Operator.Kube.{
  Key, key_of, Object, or_fresh, Api, K, ◌>>=◌, give, done, attempt, get, create_or_update,
  is_served,
}
use ogo.Operator.Identity.{ensure_object}
use ogo.Operator.Routes.{delete_present}

-- `corev1.ServicePort`; the target is the name of a container's port
pub record ServicePort : Type 0 where
  pub name : String
  pub port : ℕ
  pub target_port : String
  pub app_protocol : String  -- "" for nil

abbrev port_value : ServicePort → Value
port_value p =
    let v = map_of (
      ("name", text p.name)
      ∷ ("port", number p.port)
      ∷ ("targetPort", text p.target_port)
      ∷ ("protocol", text "TCP")
      ∷ []) in
    if p.app_protocol == "" then v else set_field "appProtocol" (text p.app_protocol) v

abbrev port_values : List ServicePort → Value
port_values ps = list_of (values ps)
  where
    values : List ServicePort → List Value
    values [] = []
    values (p ∷ ps) = port_value p ∷ values ps

unfoldable pub service_ports : Gateway → (auth_enabled : Bool) → List ServicePort
service_ports gw auth_enabled =
    let target = if unless_disabled gw.tls_enabled then "auth-tls" else "auth" in
    let auth =
      if auth_enabled
      then record { name = "auth"; port = 8085; target_port = target; app_protocol = "" } ∷ []
      else [] in
    record { name = "grpc"; port = 8080; target_port = "grpc"; app_protocol = "grpc" }
    ∷ record { name = "metrics"; port = 9090; target_port = "metrics"; app_protocol = "" }
    ∷ auth

unfoldable pub fill_service : Gateway → (auth_enabled : Bool) → Object → Object
fill_service gw auth_enabled o = record o {
  labels = gateway_labels gw;
  body =
      set_field "spec"
        (map_of (
          ("type", text "ClusterIP")
          ∷ ("selector", texts_of (selector_labels gw))
          ∷ ("ports", port_values (service_ports gw auth_enabled))
          ∷ []))
        o.body;
}

abbrev pub policy_key : Gateway → Key
policy_key gw = key_of "NetworkPolicy" (sandbox_namespace gw) (gw.name ++ "-sandbox-ssh")

unfoldable pub fill_network_policy : Gateway → Object → Object
fill_network_policy gw o =
    let sandboxes =
      map_of (("matchLabels", texts_of (("openshell.ai/managed-by", "openshell") ∷ [])) ∷ []) in
    let namespaces = map_of (
      ("matchLabels", texts_of (("kubernetes.io/metadata.name", gateway_namespace gw) ∷ []))
      ∷ []) in
    let pods = map_of (("matchLabels", texts_of (selector_labels gw)) ∷ []) in
    let peer = map_of (("namespaceSelector", namespaces) ∷ ("podSelector", pods) ∷ []) in
    let port = map_of (("protocol", text "TCP") ∷ ("port", number 2222) ∷ []) in
    let ingress = map_of (("from", list_of (peer ∷ [])) ∷ ("ports", list_of (port ∷ [])) ∷ []) in
    record o {
      labels = gateway_labels gw;
      body =
          set_field "spec"
            (map_of (
              ("podSelector", sandboxes)
              ∷ ("policyTypes", text_list ("Ingress" ∷ []))
              ∷ ("ingress", list_of (ingress ∷ []))
              ∷ []))
            o.body;
    }

module _ (api : Api) where
  unfoldable pub reconcile_service : Gateway → K (Unit {0})
  reconcile_service gw =
      let key = key_of "Service" (gateway_namespace gw) gw.name in
      create_or_update api key (λ before. is_served api "route.openshift.io/v1" >>= (λ is_openshift.
        give (fill_service gw (auth_bridge_enabled gw is_openshift) (or_fresh key before))))

  unfoldable pub withdraw_policy : Result ApiError Object → K (Unit {0})
  withdraw_policy (err _) = done
  withdraw_policy (ok o) = delete_present api "cleaning up disabled NetworkPolicy: " o.key

  unfoldable pub reconcile_network_policy : Gateway → K (Unit {0})
  reconcile_network_policy gw =
      if is_disabled gw.network_policy_enabled
      then attempt (get api (policy_key gw)) >>= withdraw_policy
      else ensure_object api (policy_key gw) (fill_network_policy gw)
