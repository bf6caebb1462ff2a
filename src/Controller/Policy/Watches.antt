-- ===== src/Controller/Policy/Watches.antt =====
-- internal/controller/openshellpolicy_controller.go: which policies are reconciled when a policy or a
-- gateway changes.
use ogo.Base.{
  ◌≡◌, ◌≢◌, refl, Bool, true, false, some, List, [], ◌∷◌, ◌++◌, Any, Any-append_right, inl, inr,
  if◌then◌else◌, subst, sym,
}
use ogo.Base.Result.{Result, ok, err}
use ogo.Controller.{ApiError, NamespacedName}
use ogo.Controller.Policy.{Policy}
use ogo.Controller.Singleton.{oldest_by_creation_timestamp, oldest_by_creation_timestamp-IsOldest}

-- the kinds of `event` of controller-runtime
pub data Change : Type 0 where
  create update delete generic : Change

unfoldable pub policy_self_watch : Change → Bool
policy_self_watch create = false
policy_self_watch update = false
policy_self_watch delete = true
policy_self_watch generic = false

abbrev pub request_for : Policy → NamespacedName
request_for p = record { name = p.name; namespace = p.namespace }

requests_for : List Policy → List NamespacedName
requests_for [] = []
requests_for (p ∷ ps) = request_for p ∷ requests_for ps

unfoldable pub find_all_policies : Result ApiError (List Policy) → List NamespacedName
unfolding requests_for
find_all_policies (err _) = []
find_all_policies (ok ps) = requests_for ps

-- the watch of the policies themselves: `listed` is what the API answers after the change
unfoldable pub self_watch : Change → (listed : Result ApiError (List Policy)) → List NamespacedName
unfolding policy_self_watch find_all_policies
self_watch change listed = if policy_self_watch change then find_all_policies listed else []

-- the objects that the controller is for: `For` has no predicate, so any change of a policy has it
-- reconciled
unfoldable pub own_watch : Change → (changed : Policy) → List NamespacedName
own_watch change changed = request_for changed ∷ []

-- what a change of a policy enqueues
unfoldable pub policy_watches :
    Change → (changed : Policy) → (listed : Result ApiError (List Policy)) → List NamespacedName
unfolding own_watch self_watch
policy_watches change changed listed = own_watch change changed ++ self_watch change listed

requests_for-Any :
    (ps : List Policy) (p : Policy)
    → Any (λ q. q ≡ p) ps
    → Any (λ r. r ≡ request_for p) (requests_for ps)
unfolding requests_for
requests_for-Any [] p h = h
requests_for-Any (q ∷ ps) p (inl e) = inl (rw e refl)
requests_for-Any (q ∷ ps) p (inr h) = inr (requests_for-Any ps p h)

-- If a policy is deleted and the list of those left is answered and not empty, then the policy
-- that resolveActivePolicy takes from this list is among the requests of the two watches of
-- policies; and any other change of a policy requests that policy alone.
pub policy_watches-Promotes :
    (changed p : Policy) (ps : List Policy)
    → (active : Policy) × (oldest_by_creation_timestamp (λ (q : Policy). q.created_at) (p ∷ ps)
        ≡ some active)
      × Any (λ r. r ≡ request_for active) (policy_watches delete changed (ok (p ∷ ps)))
      × ((change : Change)
          → change ≢ delete
          → policy_watches change changed (ok (p ∷ ps)) ≡ request_for changed ∷ [])
unfolding self_watch policy_watches own_watch
policy_watches-Promotes changed p ps =
    let (active, found, oldest) =
      oldest_by_creation_timestamp-IsOldest (λ (q : Policy). q.created_at) p ps in
    let listed : Any (λ q. q ≡ active) (p ∷ ps) =
      subst (Any (λ q. q ≡ active)) (sym oldest.split)
        (Any-append_right (λ q. q ≡ active) oldest.before _ (inl refl)) in
    (active, found, inr (requests_for-Any (p ∷ ps) active listed), others)
  where
    others :
        (change : Change)
        → change ≢ delete
        → policy_watches change changed (ok (p ∷ ps)) ≡ request_for changed ∷ []
    others create h = refl
    others update h = refl
    others delete h = absurd (h refl)
    others generic h = refl
