-- ===== src/Operator/Trust/Publish.antt =====
-- internal/controller/openshellgateway_controller.go, reconcileCAConfigMap: which ConfigMaps are
-- written and deleted.
use ogo.Base.{
  String, Bool, true, false, none, some, refl, not, Bool-cases, inl, inr, if◌then◌else◌, arith,
}
use ogo.Base.Result.{Result, ok, err}
use ogo.Dict.{Dict}
use ogo.Controller.{Gateway, ApiError, gateway_namespace}
use ogo.Operator.Kube.{
  create_or_update, Key, key_of, Object, Api, Run, ◌>>=◌, got, saw, get, delete,
}
use ogo.Operator.Legal.{
  AllLegal, IsCareful, IsPolite, IsCareful-bind, IsCareful-get, IsCareful-create_or_update,
  IsCareful-wrap,
}
use ogo.Operator.Trust.{
  is_managed_by, get_optional, unless_missing, withdraw_ca, publish_ca, server_tls_ca, ca_of,
  read_server_secret, server_secret_name, is_external, reconcile_ca_config_map,
}

module _ (api : Api) (gw : Gateway) where
  own : Dict String → Bool
  own labels = is_managed_by gw labels

  publish_ca-IsPolite :
      (key : Key) (ca : String) → IsPolite (is_managed_by gw) api (publish_ca api gw key ca)
  unfolding publish_ca
  publish_ca-IsPolite key ca none r = (refl, λ o e. tt)
  publish_ca-IsPolite key ca (some b) r = elim (Bool-cases (is_managed_by gw b.labels)) [
    | inl is_own ↦ rw (is_own, if◌then◌else◌, not) (refl, λ o e. refl)
    | inr foreign ↦ rw (foreign, if◌then◌else◌, not) (refl, λ o e. cc)
  ]

  withdraw_ca-AllLegal :
      (key : Key) (x : Result ApiError Object) (r : Run)
      → AllLegal (is_managed_by gw) r.trace
      → AllLegal
          (is_managed_by gw)
          (((λ (s : Run). (unless_missing x, s)) >>= withdraw_ca api gw)
            (saw (got key x) r)).1.trace
  unfolding unless_missing withdraw_ca delete
  withdraw_ca-AllLegal key (err e) r h = elim (Bool-cases e.not_found) [
    | inl gone ↦ rw (gone, if◌then◌else◌) (tt, h)
    | inr failed ↦ rw (failed, if◌then◌else◌) (tt, h)
  ]
  withdraw_ca-AllLegal key (ok o) r h = elim (Bool-cases (is_managed_by gw o.labels)) [
    | inl is_own ↦ rw (is_own, if◌then◌else◌) ((refl, is_own), (tt, h))
    | inr foreign ↦ rw (foreign, if◌then◌else◌) (tt, h)
  ]

  ca_of-IsCareful :
      (name : String) (external : Bool) (o : Object)
      → IsCareful (is_managed_by gw) (ca_of api name external o)
  unfolding ca_of
  ca_of-IsCareful name external o r h = ground arith

  server_tls_ca-IsCareful : IsCareful (is_managed_by gw) (server_tls_ca api gw)
  unfolding server_tls_ca
  server_tls_ca-IsCareful =
      IsCareful-bind (is_managed_by gw) {A = Object} {B = String} (read_server_secret api gw)
        (λ o. ca_of api (server_secret_name gw) (is_external gw) o)
        (IsCareful-wrap (is_managed_by gw) {A = Object} "reading server TLS CA: "
          (get api server_key) (IsCareful-get (is_managed_by gw) api server_key))
        (λ o. ca_of-IsCareful (server_secret_name gw) (is_external gw) o)
    where
      server_key : Key
      server_key = key_of "Secret" (gateway_namespace gw) (server_secret_name gw)

  -- If all deletes and writes so far were legal, then they are after a reconcile of a published
  -- CA: an existing object is only written over if it has the labels of this gateway, and an
  -- object is only deleted right after it was read with these labels.
  pub reconcile_ca_config_map-IsCareful :
      (name : String) (enabled : Bool)
      → IsCareful (is_managed_by gw) (reconcile_ca_config_map api gw name enabled)
  unfolding reconcile_ca_config_map get_optional get
  reconcile_ca_config_map-IsCareful name false r h =
      let key = key_of "ConfigMap" (gateway_namespace gw) name in
      withdraw_ca-AllLegal key (api.get r.trace key) r h
  reconcile_ca_config_map-IsCareful name true r h =
      let key = key_of "ConfigMap" (gateway_namespace gw) name in
      IsCareful-bind (is_managed_by gw) {A = String} {B = Unit {0}} (server_tls_ca api gw)
        (λ ca. create_or_update api key (publish_ca api gw key ca)) server_tls_ca-IsCareful
        (λ ca.
          IsCareful-create_or_update (is_managed_by gw) api key (publish_ca api gw key ca)
            (publish_ca-IsPolite key ca))
        r h
