-- ===== src/Operator/Dependencies/EnvoyGateway/Total.antt =====
-- internal/controller/dep_envoygateway.go: Enabled and Reconcile under the predicate of
-- Operator/Total.
use ogo.Base.{String, Bool, true, Option, none, some, not, ◌==◌}
use ogo.Base.Result.{Result, ok, err}
use ogo.Controller.{Gateway, ApiError}
use ogo.Operator.{gateway_class_name, static_gateway_class_name}
use ogo.Operator.Kube.{Api, K, is_served, give}
use ogo.Operator.Total.{
  IsTotal, IsTotal-give, IsTotal-if, IsTotal-bind, IsTotal-attempt_bind, IsTotal-is_served,
}
use ogo.Operator.Dependencies.{Report, broken}
use ogo.Operator.Dependencies.EnvoyGateway.{
  enabled, reported, install_manifests, grant_and_report, install, check_class, reconcile,
  should_grant_sccs, condition_envoy_gateway,
}

module _ (api : Api) (gw : Gateway) where
  pub enabled-IsTotal : IsTotal (enabled api gw)
  unfolding enabled
  enabled-IsTotal = IsTotal-if _ (IsTotal-give _) (when_unset gw.gateway_api_enabled)
    where
      when_unset :
          (x : Option Bool)
          → IsTotal
              (elim x [ some _ ↦ give true | none ↦ is_served api "gateway.networking.k8s.io/v1" ])
      when_unset none = IsTotal-is_served api _
      when_unset (some on) = IsTotal-give _

  reported-IsTotal :
      (reason message : String) (step : K (Unit {0})) (next : K Report)
      → IsTotal next
      → IsTotal (reported api reason message step next)
  unfolding reported
  reported-IsTotal reason message step next h =
      let rest : Result ApiError (Unit {0}) → K Report =
        λ x. elim x [ err e ↦ broken condition_envoy_gateway reason message e | ok _ ↦ next ] in
      IsTotal-attempt_bind {f = rest}
        (λ x. elim x as (λ y. IsTotal (rest y)) [ err e ↦ IsTotal-give _ | ok _ ↦ h ])

  install_manifests-IsTotal :
      (next : K Report) → IsTotal next → IsTotal (install_manifests api gw next)
  unfolding install_manifests
  install_manifests-IsTotal next h =
      IsTotal-bind (IsTotal-is_served api _)
        (λ served. reported-IsTotal _ _ _ _ (reported-IsTotal _ _ _ _ (reported-IsTotal _ _ _ _ h)))

  grant_and_report-IsTotal : (is_openshift : Bool) → IsTotal (grant_and_report api gw is_openshift)
  unfolding grant_and_report
  grant_and_report-IsTotal is_openshift = IsTotal-if (not is_openshift) (IsTotal-give _) (
      IsTotal-if (not (should_grant_sccs gw)) (IsTotal-give _)
        (reported-IsTotal _ _ _ _ (IsTotal-give _)))

  install-IsTotal : (already_installed : Bool) → IsTotal (install api gw already_installed)
  unfolding install
  install-IsTotal already_installed =
      IsTotal-if (not (gateway_class_name gw == static_gateway_class_name)) (IsTotal-give _) (
        IsTotal-bind (IsTotal-is_served api _) (λ is_openshift.
          IsTotal-if already_installed (grant_and_report-IsTotal is_openshift)
            (install_manifests-IsTotal _ (grant_and_report-IsTotal is_openshift))))

  pub reconcile-IsTotal : IsTotal (reconcile api gw)
  unfolding reconcile
  reconcile-IsTotal =
      let next : Result Report Bool → K Report = λ x. elim x [
        | err stop ↦ give stop
        | ok already_installed ↦ install api gw already_installed
      ] in
      IsTotal-attempt_bind {f = λ x. next (check_class api gw x)} (λ x.
        elim (check_class api gw x) as (λ y. IsTotal (next y)) [
          | err stop ↦ IsTotal-give _
          | ok already_installed ↦ install-IsTotal already_installed
        ])
