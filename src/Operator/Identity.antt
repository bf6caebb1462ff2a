-- ===== src/Operator/Identity.antt =====
-- internal/controller/openshellgateway_controller.go: the namespaces, the service accounts and their
-- roles.
use Prim.Native.String.{◌++◌}
use ogo.Base.{String, List, [], ◌∷◌}
use ogo.Dict.{insert}
use ogo.Controller.{Gateway, gateway_namespace}
use ogo.Operator.{
  label_managed_by, managed_by_value, sandbox_namespace, unique_namespaces, gateway_labels,
}
use ogo.Operator.Value.{Value, list_of, map_of, texts_of, text_list, set_field}
use ogo.Operator.Kube.{
  Key, key_of, Object, or_fresh, Api, K, ◌>>◌, give, done, wrap, create_or_update,
}

abbrev pub node_reader : Gateway → String
node_reader gw = gw.name ++ "-node-reader"

abbrev pub sandbox_account : Gateway → String
sandbox_account gw = gw.name ++ "-sandbox"

-- `rbacv1.PolicyRule`
abbrev rule : (groups resources verbs : List String) → Value
rule groups resources verbs = map_of (
    ("apiGroups", text_list groups)
    ∷ ("resources", text_list resources)
    ∷ ("verbs", text_list verbs)
    ∷ [])

-- `roleRef` and `subjects` of a binding of a role to a service account
abbrev bind_role : (kind role account namespace : String) → Value → Value
bind_role kind role account namespace v =
    set_field "roleRef"
      (texts_of (("apiGroup", "rbac.authorization.k8s.io") ∷ ("kind", kind) ∷ ("name", role) ∷ []))
      (set_field "subjects"
        (list_of (
          texts_of (("kind", "ServiceAccount") ∷ ("name", account) ∷ ("namespace", namespace) ∷ [])
          ∷ []))
        v)

-- The callbacks of `CreateOrUpdate`.
unfoldable pub label_namespace : Object → Object
label_namespace o = record o { labels = insert label_managed_by managed_by_value o.labels }

unfoldable pub label_object : Gateway → Object → Object
label_object gw o = record o { labels = gateway_labels gw }

unfoldable pub fill_cluster_role : Gateway → Object → Object
unfolding label_object
fill_cluster_role gw o = record (label_object gw o) {
  body =
      set_field "rules"
        (list_of (
          rule ("authentication.k8s.io" ∷ []) ("tokenreviews" ∷ []) ("create" ∷ [])
          ∷ rule ("" ∷ []) ("nodes" ∷ []) ("get" ∷ "list" ∷ "watch" ∷ [])
          ∷ rule ("user.openshift.io" ∷ []) ("groups" ∷ []) ("get" ∷ [])
          ∷ []))
        o.body;
}

unfoldable pub fill_cluster_role_binding : Gateway → Object → Object
unfolding label_object
fill_cluster_role_binding gw o = record (label_object gw o) {
  body = bind_role "ClusterRole" (node_reader gw) gw.name (gateway_namespace gw) o.body;
}

unfoldable pub fill_role : Gateway → Object → Object
unfolding label_object
fill_role gw o = record (label_object gw o) {
  body =
      set_field "rules"
        (list_of (
          rule ("agents.x-k8s.io" ∷ []) ("sandboxes" ∷ "sandboxes/status" ∷ [])
            ("create" ∷ "delete" ∷ "get" ∷ "list" ∷ "patch" ∷ "update" ∷ "watch" ∷ [])
          ∷ rule ("" ∷ []) ("events" ∷ []) ("get" ∷ "list" ∷ "watch" ∷ [])
          ∷ rule ("" ∷ []) ("pods" ∷ []) ("get" ∷ [])
          ∷ []))
        o.body;
}

unfoldable pub fill_role_binding : Gateway → Object → Object
unfolding label_object
fill_role_binding gw o = record (label_object gw o) {
  body = bind_role "Role" (sandbox_account gw) gw.name (gateway_namespace gw) o.body;
}

unfoldable pub fill_scc_binding : Gateway → Object → Object
unfolding label_object
fill_scc_binding gw o = record (label_object gw o) {
  body =
      bind_role "ClusterRole" "system:openshift:scc:privileged" (sandbox_account gw)
        (sandbox_namespace gw) o.body;
}

module _ (api : Api) where
  -- a `CreateOrUpdate` whose callback cannot fail
  unfoldable pub ensure_object : Key → (Object → Object) → K (Unit {0})
  ensure_object key fill = create_or_update api key (λ before. give (fill (or_fresh key before)))

  unfoldable pub reconcile_namespaces : List String → K (Unit {0})
  reconcile_namespaces [] = done
  reconcile_namespaces (ns ∷ namespaces) = do
    wrap ("ensuring namespace " ++ (ns ++ ": "))
        (ensure_object (key_of "Namespace" "" ns) label_namespace)
    reconcile_namespaces namespaces

  unfoldable pub reconcile_namespace : Gateway → K (Unit {0})
  reconcile_namespace gw = reconcile_namespaces (unique_namespaces gw)

  unfoldable pub reconcile_gateway_service_account : Gateway → K (Unit {0})
  reconcile_gateway_service_account gw =
      ensure_object (key_of "ServiceAccount" (gateway_namespace gw) gw.name) (label_object gw)

  unfoldable pub reconcile_sandbox_service_account : Gateway → K (Unit {0})
  reconcile_sandbox_service_account gw =
      ensure_object (key_of "ServiceAccount" (sandbox_namespace gw) (sandbox_account gw))
        (label_object gw)

  unfoldable pub reconcile_cluster_role : Gateway → K (Unit {0})
  reconcile_cluster_role gw =
      ensure_object (key_of "ClusterRole" "" (node_reader gw)) (fill_cluster_role gw)

  unfoldable pub reconcile_cluster_role_binding : Gateway → K (Unit {0})
  reconcile_cluster_role_binding gw =
      ensure_object (key_of "ClusterRoleBinding" "" (node_reader gw)) (fill_cluster_role_binding gw)

  unfoldable pub reconcile_role : Gateway → K (Unit {0})
  reconcile_role gw =
      ensure_object (key_of "Role" (sandbox_namespace gw) (sandbox_account gw)) (fill_role gw)

  unfoldable pub reconcile_role_binding : Gateway → K (Unit {0})
  reconcile_role_binding gw =
      ensure_object (key_of "RoleBinding" (sandbox_namespace gw) (sandbox_account gw))
        (fill_role_binding gw)

  unfoldable pub reconcile_scc_binding : Gateway → K (Unit {0})
  reconcile_scc_binding gw =
      ensure_object (key_of "ClusterRoleBinding" "" (gw.name ++ "-sandbox-scc-privileged"))
        (fill_scc_binding gw)
