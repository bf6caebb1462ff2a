-- ===== src/Operator/Routes/Obsolete.antt =====
-- internal/controller/openshellgateway_controller.go, reconcileObsoleteRoutes: which Routes go.
use ogo.Base.{
  String, ◌≡◌, inl, inr, refl, Bool, true, false, Option, none, some, List, [], ◌∷◌, ◌&&◌, ◌||◌,
  not, All, arith, Bool-cases, if◌then◌else◌,
}
use ogo.Base.Result.{Result, ok, err}
use ogo.Controller.{Gateway, ApiError}
use ogo.Operator.Gone.{Gone}
use ogo.Operator.Kube.{Key, Object, deleted, Trace, Run, Api, K, ◌>>◌, saw, unless_error, delete}
use ogo.Operator.Routes.{
  is_desired, is_managed_name, delete_obsolete, delete_present, deleting, delete_unless_desired,
  after_delete,
}

module _ (gw : Gateway) (use_gateway_api auth_enabled : Bool) where
  -- a Route under a name of this gateway's that should not be there
  abbrev pub is_obsolete : Key → Bool
  is_obsolete key =
      is_managed_name gw key.name && not (is_desired gw use_gateway_api auth_enabled key)

  -- only Routes that are obsolete are deleted
  abbrev pub OnlyObsolete : Trace → Type 0
  OnlyObsolete [] = Unit
  OnlyObsolete (deleted key _ ∷ t) = (is_obsolete key ≡ true) × OnlyObsolete t
  OnlyObsolete (_ ∷ t) = OnlyObsolete t

  module _ (api : Api) where
    -- What a computation keeps, and what it has reached if it succeeds.
    abbrev Clears : List Object → Run → Result ApiError (Unit {0}) × Run → Type 0
    Clears routes r x =
        OnlyObsolete x.1.trace
        × ((key : Key) → Gone key r.trace → Gone key x.1.trace)
        × (x.0 ≡ ok tt
            → All (λ (o : Object). is_obsolete o.key ≡ true → Gone o.key x.1.trace) routes)

    after_delete-Clears :
        (message : String) (o : Object) (x : Option ApiError) (r : Run)
        → is_obsolete o.key ≡ true
        → OnlyObsolete r.trace
        → Clears (o ∷ []) r (after_delete api message (unless_error x) (saw (deleted o.key x) r))
    unfolding after_delete
    after_delete-Clears message o none r is_obs h =
        ((is_obs, h), (λ key g. inr g), λ _. ((λ _. inl (refl, tt)), tt))
    after_delete-Clears message o (some e) r is_obs h = elim (Bool-cases e.not_found) [
      | inl gone ↦
          rw (gone, if◌then◌else◌)
            ((is_obs, h), (λ key g. inr g), λ _. ((λ _. inl (refl, refl)), tt))
      | inr failed ↦ rw (failed, if◌then◌else◌) ((is_obs, h), (λ key g. inr g), λ never. cc)
    ]

    delete_unless_desired-Clears :
        (o : Object) (r : Run)
        → OnlyObsolete r.trace
        → Clears (o ∷ []) r (delete_unless_desired api gw use_gateway_api auth_enabled o r)
    unfolding delete_unless_desired delete_present delete
    delete_unless_desired-Clears o r h = elim (Bool-cases (is_obsolete o.key)) [
      | inl is_obs ↦
          let kept : not (is_managed_name gw o.key.name)
                || is_desired gw use_gateway_api auth_enabled o.key
              ≡ false =
            ground arith in
          rw (kept, if◌then◌else◌)
            (after_delete-Clears (deleting api "deleting obsolete Route " o.key) o
              (api.delete r.trace o.key) r is_obs h)
      | inr desired ↦
          let skipped : not (is_managed_name gw o.key.name)
                || is_desired gw use_gateway_api auth_enabled o.key
              ≡ true =
            ground arith in
          rw (skipped, if◌then◌else◌) (h, (λ key g. g), λ _. ((λ is_obs. cc), tt))
    ]

    Clears-both :
        (o : Object) (os : List Object) (next : K (Unit {0})) (r : Run)
        → (x : Result ApiError (Unit {0})) (r1 : Run) → Clears (o ∷ []) r (x, r1)
        → Clears os r1 (next r1)
        → Clears (o ∷ os) r (((λ (_ : Run). (x, r1)) >> next) r)
    Clears-both o os next r (err e) r1 (only, keeps, all) _ = (only, keeps, λ never. cc)
    Clears-both o os next r (ok u) r1 (only, keeps, all) (only', keeps', all') = (
      only',
      (λ key g. keeps' key (keeps key g)),
      λ reached. ((λ is_obs. keeps' o.key ((all refl).0 is_obs)), all' reached),
    )

    -- If only obsolete Routes were deleted so far, then the loop over the listed Routes deletes
    -- only Routes with a name of this gateway's that are not desired; no delete that was answered
    -- is lost; and if the loop succeeds, the answer to a delete of each listed Route of that kind
    -- was success or NotFound.
    pub delete_obsolete-Clears :
        (routes : List Object) (r : Run)
        → OnlyObsolete r.trace
        → OnlyObsolete (delete_obsolete api gw use_gateway_api auth_enabled routes r).1.trace
          × ((key : Key)
              → Gone key r.trace
              → Gone key (delete_obsolete api gw use_gateway_api auth_enabled routes r).1.trace)
          × ((delete_obsolete api gw use_gateway_api auth_enabled routes r).0 ≡ ok tt
              → All
                  (λ (o : Object).
                    is_obsolete o.key ≡ true
                    → Gone o.key
                        (delete_obsolete api gw use_gateway_api auth_enabled routes r).1.trace)
                  routes)
    unfolding delete_obsolete
    delete_obsolete-Clears [] r h = (h, (λ key g. g), λ _. tt)
    delete_obsolete-Clears (o ∷ os) r h =
        let step = delete_unless_desired-Clears o r h in
        let x = delete_unless_desired api gw use_gateway_api auth_enabled o r in
        Clears-both o os (delete_obsolete api gw use_gateway_api auth_enabled os) r x.0 x.1 step
          (delete_obsolete-Clears os x.1 step.0)
