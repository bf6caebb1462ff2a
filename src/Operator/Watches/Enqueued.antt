-- ===== src/Operator/Watches/Enqueued.antt =====
-- internal/controller/openshellgateway_controller.go: the watch of the database Secrets.
use ogo.Base.{
  sym, ◌≡◌, true, List, [], ◌∷◌, ◌++◌, contains, arith, eq_iff, Bool-cases, inl, inr, if◌then◌else◌,
}
use ogo.Base.Result.{ok}
use ogo.Controller.{Gateway, gateway_namespace}
use ogo.Operator.{database_secret_name}
use ogo.Operator.Kube.{Object}
use ogo.Operator.Watches.{find_gateways_for_database_secret, readers, reads_secret}

reads_secret-named :
    (o : Object) (gw : Gateway)
    → o.key.namespace ≡ gateway_namespace gw
    → o.key.name ≡ database_secret_name gw
    → reads_secret o gw ≡ true
unfolding reads_secret
reads_secret-named o gw ns name =
    let same_ns = (eq_iff (gateway_namespace gw) o.key.namespace).1 (sym ns) in
    let same_name = (eq_iff (database_secret_name gw) o.key.name).1 (sym name) in
    ground (arith, same_ns, same_name)

readers-contains :
    (o : Object) (gw : Gateway) (before after : List Gateway)
    → reads_secret o gw ≡ true
    → contains gw.name (readers o (before ++ gw ∷ after)) ≡ true
unfolding readers contains
readers-contains o gw [] after h = ground (arith, eq_iff gw.name gw.name)
readers-contains o gw (g ∷ before) after h = elim (Bool-cases (reads_secret o g)) [
  | inl also ↦ rw (also, if◌then◌else◌) (ground (arith, readers-contains o gw before after h))
  | inr not_this ↦ rw (not_this, if◌then◌else◌) (readers-contains o gw before after h)
]

-- If the list of gateways is answered, then a change of an object with the namespace of a listed
-- gateway and the name of its database Secret has that gateway reconciled: its name is among the
-- requests.
pub find_gateways_for_database_secret-contains :
    (o : Object) (gw : Gateway) (before after : List Gateway)
    → o.key.namespace ≡ gateway_namespace gw
    → o.key.name ≡ database_secret_name gw
    → contains gw.name (find_gateways_for_database_secret (ok (before ++ gw ∷ after)) o) ≡ true
unfolding find_gateways_for_database_secret
find_gateways_for_database_secret-contains o gw before after ns name =
    readers-contains o gw before after (reads_secret-named o gw ns name)
