-- ===== src/Operator/Dependencies/Total.antt =====
-- internal/controller/dep_groups.go, dep_postgres.go and dep_envoyproxyscc.go: Enabled and
-- Reconcile under the predicate of Operator/Total.
use ogo.Base.{
  ℕ, suc, String, Bool-cases, inl, inr, Bool, Option, none, some, List, [], ◌∷◌, not, ◌==◌,
}
use ogo.Base.Result.{Result, ok, err}
use ogo.Controller.{Gateway, ApiError}
use ogo.Operator.Kube.{Api, K, Object, is_served, give}
use ogo.Operator.Total.{
  IsTotal, IsTotal-give, IsTotal-if, IsTotal-bind, IsTotal-attempt_bind, IsTotal-is_served,
}
use ogo.Operator.Dependencies.{Report}
use ogo.Operator.Dependencies.Groups
use ogo.Operator.Dependencies.Postgres
use ogo.Operator.Dependencies.EnvoyProxyScc
use ogo.Operator.Dependencies.EnvoyProxyScc.{is_proxy}

module _ (api : Api) (gw : Gateway) where
  pub groups_enabled-IsTotal : IsTotal (Groups.enabled api gw)
  unfolding Groups.enabled
  groups_enabled-IsTotal = IsTotal-bind (IsTotal-is_served api _) (λ served.
      IsTotal-if (not served) (IsTotal-give _) (IsTotal-if _ (IsTotal-give _) (IsTotal-give _)))

  created_group-IsTotal :
      (name : String) (x : Result ApiError (Unit {0})) → IsTotal (Groups.created_group api name x)
  unfolding Groups.created_group
  created_group-IsTotal name (ok _) = IsTotal-give _
  created_group-IsTotal name (err e) = IsTotal-give _

  checked_group-IsTotal :
      (name : String) (x : Result ApiError Object) → IsTotal (Groups.checked_group api gw name x)
  unfolding Groups.checked_group
  checked_group-IsTotal name (ok _) = IsTotal-give _
  checked_group-IsTotal name (err e) =
      IsTotal-if (not e.not_found) (IsTotal-give _)
        (IsTotal-attempt_bind (created_group-IsTotal name))

  ensure_group-IsTotal : (name : String) → IsTotal (Groups.ensure_group api gw name)
  unfolding Groups.ensure_group
  ensure_group-IsTotal name =
      IsTotal-if (name == "") (IsTotal-give _) (IsTotal-attempt_bind (checked_group-IsTotal name))

  ensure_groups-IsTotal :
      (names made : List String) → IsTotal (Groups.ensure_groups api gw names made)
  unfolding Groups.ensure_groups
  ensure_groups-IsTotal [] made = IsTotal-give _
  ensure_groups-IsTotal (name ∷ names) made =
      let next : Result Report Bool → K (Result Report (List String)) = λ x. elim x [
        | err stop ↦ give (err stop)
        | ok is_new ↦ Groups.ensure_groups api gw names (Groups.with_created api is_new name made)
      ] in
      IsTotal-bind {f = next} (ensure_group-IsTotal name) (λ x. elim x as (λ y. IsTotal (next y)) [
        | err stop ↦ IsTotal-give _
        | ok is_new ↦ ensure_groups-IsTotal names _
      ])

  success-IsTotal : (made : List String) → IsTotal (Groups.success api made)
  success-IsTotal [] = IsTotal-give _
  success-IsTotal (name ∷ names) = IsTotal-give _

  pub groups-IsTotal : IsTotal (Groups.reconcile api gw)
  unfolding Groups.reconcile
  groups-IsTotal =
      let next : Result Report (List String) → K Report =
        λ x. elim x [ err stop ↦ give stop | ok made ↦ Groups.success api made ] in
      IsTotal-bind {f = next} (ensure_groups-IsTotal (Groups.group_names gw) []) (λ x.
        elim x as (λ y. IsTotal (next y)) [
          | err stop ↦ IsTotal-give _
          | ok made ↦ success-IsTotal made
        ])

  or_report-IsTotal :
      {A : Type 0} (message : String) (rest : A → K Report) (x : Result ApiError A)
      → ((a : A) → IsTotal (rest a))
      → IsTotal (Postgres.or_report api message rest x)
  unfolding Postgres.or_report
  or_report-IsTotal message rest (err e) k = IsTotal-give _
  or_report-IsTotal message rest (ok a) k = k a

  then_report-IsTotal :
      {A : Type 0} (m : K A) (message : String) {rest : A → K Report}
      → ((a : A) → IsTotal (rest a))
      → IsTotal (Postgres.then_report api m message rest)
  unfolding Postgres.then_report
  then_report-IsTotal m message {rest} k =
      IsTotal-attempt_bind (λ x. or_report-IsTotal message rest x k)

  pub postgres-IsTotal : IsTotal (Postgres.reconcile api gw)
  unfolding Postgres.reconcile
  postgres-IsTotal = then_report-IsTotal _ _ (λ password. then_report-IsTotal _ _ (λ _.
      then_report-IsTotal _ _
        (λ _. then_report-IsTotal _ _ (λ _. then_report-IsTotal _ _ (λ _. IsTotal-give _)))))

  pub proxy_enabled-IsTotal : IsTotal (EnvoyProxyScc.enabled api gw)
  unfolding EnvoyProxyScc.enabled
  proxy_enabled-IsTotal = IsTotal-bind (IsTotal-is_served api _) (λ is_openshift.
      IsTotal-if (not is_openshift) (IsTotal-give _) (when_unset gw.gateway_api_enabled))
    where
      when_unset :
          (x : Option Bool)
          → IsTotal
              (elim x [ none ↦ is_served api "gateway.networking.k8s.io/v1" | some on ↦ give on ])
      when_unset none = IsTotal-is_served api _
      when_unset (some on) = IsTotal-give on

  created_binding-IsTotal :
      (account : String) (x : Result ApiError (Unit {0}))
      → IsTotal (EnvoyProxyScc.created_binding api account x)
  unfolding EnvoyProxyScc.created_binding
  created_binding-IsTotal account (ok _) = IsTotal-give _
  created_binding-IsTotal account (err e) =
      IsTotal-if e.already_exists (IsTotal-give _) (IsTotal-give _)

  checked_binding-IsTotal :
      (account : String) (x : Result ApiError Object)
      → IsTotal (EnvoyProxyScc.checked_binding api gw account x)
  unfolding EnvoyProxyScc.checked_binding
  checked_binding-IsTotal account (ok _) = IsTotal-give _
  checked_binding-IsTotal account (err _) = IsTotal-attempt_bind (created_binding-IsTotal account)

  grant-IsTotal : (account : String) → IsTotal (EnvoyProxyScc.grant api gw account)
  unfolding EnvoyProxyScc.grant
  grant-IsTotal account = IsTotal-attempt_bind (checked_binding-IsTotal account)

  grant_all-IsTotal :
      (accounts : List Object) (granted : ℕ)
      → IsTotal (EnvoyProxyScc.grant_all api gw accounts granted)
  unfolding EnvoyProxyScc.grant_all
  grant_all-IsTotal [] granted = IsTotal-give _
  grant_all-IsTotal (account ∷ accounts) granted =
      let next : Result Report (Unit {0}) → K (Result Report ℕ) = λ x. elim x [
        | err stop ↦ give (err stop)
        | ok _ ↦ EnvoyProxyScc.grant_all api gw accounts (suc granted)
      ] in
      elim (Bool-cases (is_proxy account.key.name)) [
        | inl proxy ↦
            rw (proxy, EnvoyProxyScc.grant_all)
              (IsTotal-bind {f = next} (grant-IsTotal account.key.name) (λ x.
                elim x as (λ y. IsTotal (next y)) [
                  | err stop ↦ IsTotal-give _
                  | ok _ ↦ grant_all-IsTotal accounts (suc granted)
                ]))
        | inr other ↦ rw (other, EnvoyProxyScc.grant_all) (grant_all-IsTotal accounts granted)
      ]

  granted_report-IsTotal : (x : Result Report ℕ) → IsTotal (EnvoyProxyScc.granted_report api x)
  unfolding EnvoyProxyScc.granted_report
  granted_report-IsTotal (err stop) = IsTotal-give _
  granted_report-IsTotal (ok granted) = IsTotal-give _

  with_accounts-IsTotal :
      (x : Result ApiError (List Object)) → IsTotal (EnvoyProxyScc.with_accounts api gw x)
  unfolding EnvoyProxyScc.with_accounts
  with_accounts-IsTotal (err e) = IsTotal-give _
  with_accounts-IsTotal (ok accounts) =
      IsTotal-bind (grant_all-IsTotal accounts 0) granted_report-IsTotal

  pub proxy-IsTotal : IsTotal (EnvoyProxyScc.reconcile api gw)
  unfolding EnvoyProxyScc.reconcile
  proxy-IsTotal = IsTotal-attempt_bind with_accounts-IsTotal
