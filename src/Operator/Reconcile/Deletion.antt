-- ===== src/Operator/Reconcile/Deletion.antt =====
-- internal/controller/openshellgateway_controller.go, reconcileDelete: what is gone when the
-- finalizer is dropped.
use Prim.Native.String.{◌++◌}
use ogo.Base.{
  ◌≢◌, ◌⊎◌, Option, none, some, nat_eq, ◌==◌, ℕ, ◌+◌, ◌≡◌, ◌∙◌, inl, inr, refl, ap, Bool, true,
  List, [], ◌∷◌, All, arith, Bool-cases, if◌then◌else◌, not, String,
}
use ogo.Base.Result.{Result, ok, err}
use ogo.Controller.{
  Gateway, ApiError, Outcome, done, after, with_error, gateway_retry_interval, gateway_namespace,
}
use ogo.Operator.{finalizer_name, sandbox_namespace}
use ogo.Operator.Kube.{
  Key, key_of, Object, Event, finalizers_written, deleted, got, asked, is_served, Trace, Run, Api,
  K, ◌>>=◌, ◌>>◌, attempt, give, saw, delete, get, is_served, unless_error, write_finalizers,
}
use ogo.Operator.Kube
use ogo.Operator.Routes.{delete_managed_routes}
use ogo.Operator.Reconcile.{Dependency, dependencies, returning}
use ogo.Operator.Reconcile.Delete.{
  with_cas, with_sandbox, with_cluster, clean_up_objects, counted_routes, cluster_resources,
  sandbox_resources, gateway_api_resources, ca_config_maps, clean_up, reconcile_delete,
  drop_finalizer, cluster_resources, sandbox_resources, gateway_api_resources, ca_config_maps,
  counted, clean_up_dependencies, try_to_delete, delete_all, delete_ca, delete_cas, counted_routes,
  clean_up, drop_finalizer, reconcile_delete,
}
use ogo.Operator.Trust.{is_managed_by}
use ogo.Operator.Gone.{Gone, Total, bind-ok, counted-IsGone, weaken}

-- the objects that do not go with the namespaces, the SCC binding on OpenShift alone
abbrev pub cluster_keys : Gateway → (is_openshift : Bool) → List Key
cluster_keys gw is_openshift =
    key_of "ClusterRole" "" (gw.name ++ "-node-reader")
    ∷ key_of "ClusterRoleBinding" "" (gw.name ++ "-node-reader")
    ∷ (if is_openshift
        then key_of "ClusterRoleBinding" "" (gw.name ++ "-sandbox-scc-privileged") ∷ []
        else [])

-- the objects of a namespace that only the sandboxes have
abbrev pub sandbox_keys : Gateway → List Key
sandbox_keys gw =
    if sandbox_namespace gw == gateway_namespace gw
    then []
    else key_of "ServiceAccount" (sandbox_namespace gw) (gw.name ++ "-sandbox")
      ∷ key_of "Role" (sandbox_namespace gw) (gw.name ++ "-sandbox")
      ∷ key_of "RoleBinding" (sandbox_namespace gw) (gw.name ++ "-sandbox")
      ∷ key_of "NetworkPolicy" (sandbox_namespace gw) (gw.name ++ "-sandbox-ssh")
      ∷ []

module _ (api : Api) where
  -- Each of these objects was deleted or not there, and OpenShift was asked for at some moment.
  abbrev pub AllGone : Gateway → Run → Type 0
  AllGone gw r =
      (t : Trace) × All (λ key. Gone key r.trace)
        (cluster_keys gw (api.is_served t "route.openshift.io/v1"))
      × All (λ key. Gone key r.trace) (sandbox_keys gw)

  -- The finalizer was removed right after this run, and its outcome returned.
  abbrev pub Dropped : Gateway → Result ApiError Outcome × Run → Run → Type 0
  Dropped gw x r' =
      (written : Option ApiError) × (x ≡ (
        ok (with_error done written),
        saw (finalizers_written (api.remove_finalizer gw.finalizers finalizer_name) written) r',
      ))

  abbrev pub incomplete : ℕ → Outcome
  incomplete n =
      with_error (after gateway_retry_interval)
        (some (Kube.plain ("cleanup incomplete: " ++ (api.show n ++ " errors"))))

  clean_up_dependencies-Total :
      (gw : Gateway) (ds : List Dependency) (r : Run) → Total (clean_up_dependencies api gw ds r)
  unfolding clean_up_dependencies
  clean_up_dependencies-Total gw [] r = (tt, r, refl)
  clean_up_dependencies-Total gw (d ∷ ds) r =
      let (_, r', e) = clean_up_dependencies-Total gw ds r in
      (
        tt,
        (d.cleanup gw r').1,
        bind-ok (clean_up_dependencies api gw ds) (λ _. attempt (d.cleanup gw) >>= (λ _. Kube.done))
            r e,
      )

  try_to_delete-Total : (keys : List Key) (r : Run) → Total (try_to_delete api keys r)
  unfolding try_to_delete delete
  try_to_delete-Total [] r = (tt, r, refl)
  try_to_delete-Total (key ∷ keys) r =
      try_to_delete-Total keys (saw (deleted key (api.delete r.trace key)) r)

  -- all keys are deleted where no error is counted
  delete_all-Gone :
      (keys : List Key) (r : Run)
      → (n : ℕ) × (r' : Run) × (delete_all api keys r ≡ (ok n, r'))
        × (((key : Key) → Gone key r.trace → Gone key r'.trace)
            × (n ≡ 0 → All (λ key. Gone key r'.trace) keys))
  unfolding delete_all delete
  delete_all-Gone [] r = (0, r, refl, ((λ key h. h), λ _. tt))
  delete_all-Gone (key ∷ keys) r =
      let e = api.delete r.trace key in
      let (n, r', eq, (keeps, all)) = delete_all-Gone keys (saw (deleted key e) r) in
      (
        counted (unless_error e) + n,
        r',
        bind-ok (delete_all api keys) (λ more. give (counted (unless_error e) + more))
            (saw (deleted key e) r) eq,
        (
          (λ k h. keeps k (inr h)),
          λ h. (keeps key (inl (refl, counted-IsGone e (omega arith))), all (omega arith)),
        ),
      )

  -- what the clean-up of the published CAs leaves as it was
  Kept : {A : Type 0} → Run → Result ApiError A × Run → Type 0
  Kept {A} r x =
      (a : A) × (r' : Run) × (x ≡ (ok a, r')) × ((key : Key) → Gone key r.trace → Gone key r'.trace)

  delete_ca-Kept :
      (gw : Gateway) (x : Result ApiError Object) (r : Run) → Kept r (delete_ca api gw x r)
  unfolding delete_ca delete Kept
  delete_ca-Kept gw (err e) r = (_, r, refl, λ key h. h)
  delete_ca-Kept gw (ok o) r = elim (Bool-cases (is_managed_by gw o.labels)) [
    | inl own ↦ rw (own, if◌then◌else◌) (_, _, refl, λ key h. inr h)
    | inr foreign ↦ rw (foreign, if◌then◌else◌) (_, r, refl, λ key h. h)
  ]

  delete_cas-Kept : (gw : Gateway) (keys : List Key) (r : Run) → Kept r (delete_cas api gw keys r)
  unfolding delete_cas get Kept
  delete_cas-Kept gw [] r = (0, r, refl, λ key h. h)
  delete_cas-Kept gw (key ∷ keys) r =
      let x = api.get r.trace key in
      let (here, r1, e1, k1) = delete_ca-Kept gw x (saw (got key x) r) in
      let (more, r2, e2, k2) = delete_cas-Kept gw keys r1 in
      let rest : ℕ → K ℕ = λ a. delete_cas api gw keys >>= (λ b. give (a + b)) in
      (
        here + more,
        r2,
        bind-ok (delete_ca api gw x) rest (saw (got key x) r) e1
            ∙ bind-ok (delete_cas api gw keys) (λ b. give (here + b)) r1 e2,
        λ k h. k2 k (k1 k h),
      )

  -- the errors so far, and no more if there are none at the end
  with_sandbox-Gone :
      (gw : Gateway) (m : ℕ) (r : Run)
      → (n : ℕ) × (r' : Run) × (with_sandbox api gw m r ≡ (ok (m + n), r'))
        × (((key : Key) → Gone key r.trace → Gone key r'.trace)
            × (n ≡ 0 → All (λ key. Gone key r'.trace) (sandbox_resources gw)))
  unfolding with_sandbox with_cas Kept
  with_sandbox-Gone gw m r =
      let (n1, r1, e1, (k1, a1)) = delete_all-Gone (sandbox_resources gw) r in
      let (n2, r2, e2, k2) = delete_cas-Kept gw (ca_config_maps gw) r1 in
      (
        n1 + n2,
        r2,
        bind-ok (delete_all api (sandbox_resources gw)) (λ more. with_cas api gw (m + more)) r e1
            ∙ (bind-ok (delete_cas api gw (ca_config_maps gw)) (λ more. give (m + n1 + more)) r1 e2
                ∙ ap (λ k. (ok k, r2)) (total n1 n2)),
        (
          (λ key g. k2 key (k1 key g)),
          λ h. weaken r1.trace r2.trace (sandbox_resources gw) k2 (a1 (omega arith)),
        ),
      )
    where
      total : (n1 n2 : ℕ) → m + n1 + n2 ≡ m + (n1 + n2)
      total n1 n2 = omega arith

  clean_up_objects-Gone :
      (gw : Gateway) (b : Bool) (r : Run)
      → (n : ℕ) × (r' : Run) × (clean_up_objects api gw b r ≡ (ok n, r'))
        × (n ≡ 0
            → All (λ key. Gone key r'.trace) (cluster_resources gw b)
              × All (λ key. Gone key r'.trace) (sandbox_resources gw))
  unfolding clean_up_objects with_cluster
  clean_up_objects-Gone gw b r =
      let (_, r1, e1) = try_to_delete-Total (gateway_api_resources gw) r in
      let x = delete_managed_routes api gw r1 in
      let c = counted_routes api x.0 in
      let (n2, r2, e2, (k2, a2)) = delete_all-Gone (cluster_resources gw b) x.1 in
      let (n3, r3, e3, (k3, a3)) = with_sandbox-Gone gw (c + n2) r2 in
      let routes : Unit {0} → K ℕ = λ _.
        attempt (delete_managed_routes api gw)
        >>= (λ y. with_cluster api gw b (counted_routes api y)) in
      (
        c + n2 + n3,
        r3,
        bind-ok (try_to_delete api (gateway_api_resources gw)) routes r e1
            ∙ (bind-ok (delete_all api (cluster_resources gw b))
                  (λ more. with_sandbox api gw (c + more)) x.1 e2
                ∙ e3),
        λ h. (
          weaken r2.trace r3.trace (cluster_resources gw b) k3 (a2 (omega arith)),
          a3 (omega arith),
        ),
      )

  pub clean_up-Gone :
      (gw : Gateway) (r : Run)
      → (n : ℕ) × (r' : Run) × (clean_up api gw r ≡ (ok n, r')) × (n ≡ 0 → AllGone gw r')
  unfolding clean_up is_served
  clean_up-Gone gw r =
      let version : String = "route.openshift.io/v1" in
      let (_, r1, e1) = clean_up_dependencies-Total gw (dependencies api) r in
      let b = api.is_served r1.trace version in
      let (n, r2, e2, gone) = clean_up_objects-Gone gw b (saw (asked version b) r1) in
      let rest : Unit {0} → K ℕ = λ _. is_served api version >>= clean_up_objects api gw in
      (
        n,
        r2,
        bind-ok (clean_up_dependencies api gw (dependencies api)) rest r e1 ∙ e2,
        λ h. (r1.trace, (gone h).0, (gone h).1),
      )

  written-Dropped :
      (gw : Gateway) (r' : Run)
      → Dropped gw
          (returning api done
            (write_finalizers api (api.remove_finalizer gw.finalizers finalizer_name))
            r')
          r'
  unfolding write_finalizers
  written-Dropped gw r' =
      next (api.write_finalizers r'.trace (api.remove_finalizer gw.finalizers finalizer_name))
    where
      next :
          (e : Option ApiError)
          → Dropped gw
              (returning api done
                (λ r. (
                  unless_error e,
                  saw (finalizers_written (api.remove_finalizer gw.finalizers finalizer_name) e) r,
                ))
                r')
              r'
      next none = (none, refl)
      next (some e) = (some e, refl)

  drop_finalizer-Leaves :
      (gw : Gateway) (n : ℕ) (r' : Run)
      → (n ≡ 0 → AllGone gw r')
      → (n ≢ 0) × (drop_finalizer api gw n r' ≡ (ok (incomplete n), r'))
        ⊎ (n ≡ 0) × Dropped gw (drop_finalizer api gw n r') r' × AllGone gw r'
  unfolding drop_finalizer
  drop_finalizer-Leaves gw n r' gone = elim (Bool-cases (nat_eq n 0)) [
    | inl zero ↦
        inr (ground arith, rw (zero, if◌then◌else◌) (written-Dropped gw r'), gone (ground arith))
    | inr some_errors ↦ inl (λ e. absurd (ground arith), rw (some_errors, if◌then◌else◌) refl)
  ]

  -- When a gateway that has the finalizer is deleted, the clean-up runs to its end with a number
  -- of errors. If it is not 0, the reconcile returns an error that says so, with a retry in 30
  -- seconds, and makes no further request. If it is 0, it next removes the finalizer and returns
  -- the outcome of that, and before, success or NotFound was the answer to a delete of the
  -- ClusterRole and the ClusterRoleBinding of the gateway, of the SCC binding if the cluster,
  -- asked at a certain moment, has OpenShift Routes, and, where the sandboxes have their own
  -- namespace, of the ServiceAccount, the Role, the RoleBinding and the NetworkPolicy there.
  pub reconcile_delete-Gone :
      (gw : Gateway) (r : Run)
      → api.contains_finalizer gw.finalizers finalizer_name ≡ true
      → (n : ℕ) × (r' : Run) × (clean_up api gw r ≡ (ok n, r'))
        × ((n ≢ 0) × (reconcile_delete api gw r ≡ (ok (incomplete n), r'))
            ⊎ (n ≡ 0) × Dropped gw (reconcile_delete api gw r) r' × AllGone gw r')
  unfolding reconcile_delete
  reconcile_delete-Gone gw r has =
      let (n, r', e, gone) = clean_up-Gone gw r in
      (
        n,
        r',
        e,
        rw (has, if◌then◌else◌, not)
            (rw (bind-ok (clean_up api gw) (drop_finalizer api gw) r e)
              (drop_finalizer-Leaves gw n r' gone)),
      )
