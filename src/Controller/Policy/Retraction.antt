-- ===== src/Controller/Policy/Retraction.antt =====
-- What the deletion of a policy takes back: internal/controller/openshellpolicy_controller.go,
-- reconcileDelete.
use ogo.Base.{
  Bool, true, false, if◌then◌else◌, String, ◌≡◌, ◌≢◌, refl, Option, none, some, List, [], ◌∷◌, ◌==◌,
  inl, inr, Bool-cases, arith, eq_iff, All, Any,
}
use ogo.Base.Result.{Result, ok, err}
use ogo.Controller.{
  Gateway, ApiError, Outcome, done, after, fail, with_error, gateway_retry_interval,
}
use ogo.Controller.Cluster.{read, updated, called, delete_config, RpcError}
use ogo.Controller.Grpc.{resolve_gateway, gateway_client, rpc}
use ogo.Controller.Grpc.Quiet.{Quiet, same, more, resolve_gateway-Quiet, gateway_client-Quiet}
use ogo.Controller.Policy.{
  PolicyHistory, Policy, PolicyWorld, policy_finalizer, has_other, has_successor_policy, successor,
}
use ogo.Controller.Policy.Singleton.{Unavailable, not_found, unreachable, Reached}
use ogo.Controller.Policy.Sync.{
  drop_finalizer, after_retraction, retract, retract_from, clean_up, reconcile_delete,
}

has_other-All :
    (uid : String) (items : List Policy)
    → has_other uid items ≡ false
    → All (λ q. q.uid ≡ uid) items
unfolding has_other
has_other-All uid [] h = tt
has_other-All uid (q ∷ qs) h = elim (Bool-cases (q.uid == uid)) [
  | inl this ↦ ((eq_iff q.uid uid).0 this, has_other-All uid qs (ground (arith, this)))
  | inr other ↦ absurd (ground (arith, other))
]

has_other-Any :
    (uid : String) (items : List Policy) → has_other uid items ≡ true → Any (λ q. q.uid ≢ uid) items
unfolding has_other
has_other-Any uid [] h = absurd (ground arith)
has_other-Any uid (q ∷ qs) h = elim (Bool-cases (q.uid == uid)) [
  | inl this ↦ inr (has_other-Any uid qs (ground (arith, this)))
  | inr other ↦ inl (λ e. absurd (ground (arith, eq_iff q.uid uid)))
]

module _ (w : PolicyWorld) (p : Policy) (h : PolicyHistory) where
  -- The finalizer is removed by one update, whose error is returned.
  abbrev pub Dropped : PolicyHistory → Outcome × PolicyHistory → Type 0
  Dropped k x =
      (answer : Option ApiError) × (x ≡ (
        with_error done answer,
        updated (w.world.remove_finalizer p.finalizers policy_finalizer) answer ∷ k,
      ))

  -- The policy has the finalizer and was applied.
  abbrev pub IsApplied : Type 0
  IsApplied =
      (w.world.contains_finalizer p.finalizers policy_finalizer ≡ true)
      × (p.status.applied_to_gateway ≡ true)

  -- ... and no other policy is listed.
  abbrev pub IsLast : Type 0
  IsLast =
      IsApplied
      × ((items : List Policy) × (w.list_policies h ≡ ok items) × All (λ q. q.uid ≡ p.uid) items)

  abbrev pub retracted : String → Option RpcError → PolicyHistory → PolicyHistory
  retracted token answer k = called token (delete_config "policy") answer ∷ k

  -- What reconciling a policy that is being deleted does.
  pub data Retraction : Outcome × PolicyHistory → Type 0 where
    no_finalizer :
        w.world.contains_finalizer p.finalizers policy_finalizer ≡ false → Retraction (done, h)
    never_applied :
        {x : Outcome × PolicyHistory}
        → w.world.contains_finalizer p.finalizers policy_finalizer ≡ true
        → p.status.applied_to_gateway ≡ false
        → Dropped h x
        → Retraction x
    list_failed :
        (e : ApiError)
        → IsApplied
        → w.list_policies h ≡ err e
        → Retraction (fail e.message, read ∷ h)
    left_to_other :
        {x : Outcome × PolicyHistory} (items : List Policy)
        → IsApplied
        → w.list_policies h ≡ ok items
        → Any (λ q. q.uid ≢ p.uid) items
        → Dropped (read ∷ h) x
        → Retraction x
    retried :
        {reason : String} {k : PolicyHistory}
        → IsLast
        → Unavailable w p h reason k
        → Retraction (after gateway_retry_interval, k)
    refused :
        {k : PolicyHistory} (token : String) (e : RpcError)
        → IsLast
        → Reached w p h token k
        → w.world.call k token (delete_config "policy") ≡ some e
        → Retraction (after gateway_retry_interval, retracted token (some e) k)
    taken_back :
        {x : Outcome × PolicyHistory} {k : PolicyHistory} (token : String)
        → IsLast
        → Reached w p h token k
        → w.world.call k token (delete_config "policy") ≡ none
        → Dropped (retracted token none k) x
        → Retraction x

  drop_finalizer-Dropped : (k : PolicyHistory) → Dropped k (drop_finalizer w p k)
  unfolding drop_finalizer
  drop_finalizer-Dropped k = (_, refl)

  after_retraction-Retraction :
      {k : PolicyHistory} (token : String) (answer : Option RpcError)
      → IsLast
      → Reached w p h token k
      → w.world.call k token (delete_config "policy") ≡ answer
      → Retraction (after_retraction w p (answer, retracted token answer k))
  unfolding after_retraction
  after_retraction-Retraction token none last reached said =
      taken_back token last reached said (drop_finalizer-Dropped _)
  after_retraction-Retraction token (some e) last reached said = refused token e last reached said

  retract-Retraction :
      (gw : Gateway) (k : PolicyHistory) (r : Result String String × PolicyHistory)
      → IsLast
      → Quiet h r.1
      → resolve_gateway w.world (read ∷ h) ≡ (ok gw, k)
      → gateway_client w.world gw k ≡ r
      → Retraction (retract w p r)
  unfolding retract rpc
  retract-Retraction gw k (err e, k') last q found connected =
      retried last (unreachable gw e q found connected)
  retract-Retraction gw k (ok token, k') last q found connected =
      after_retraction-Retraction token _ last
        (record { quiet = q; gateway = gw; resolved = k; found = found; connected = connected })
        refl

  retract_from-Retraction :
      (r : Result String Gateway × PolicyHistory)
      → IsLast
      → Quiet h r.1
      → resolve_gateway w.world (read ∷ h) ≡ r
      → Retraction (retract_from w p r)
  unfolding retract_from
  retract_from-Retraction (err e, k) last q found = retried last (not_found e q found)
  retract_from-Retraction (ok gw, k) last q found =
      retract-Retraction gw k (gateway_client w.world gw k) last
        (gateway_client-Quiet w.world gw h k q) found refl

  clean_up-Retraction :
      (r : Result ApiError (List Policy))
      → IsApplied
      → w.list_policies h ≡ r
      → Retraction (clean_up w p (successor w p.uid r, read ∷ h))
  unfolding clean_up successor
  clean_up-Retraction (err e) was listed = list_failed e was listed
  clean_up-Retraction (ok items) was listed = elim (Bool-cases (has_other p.uid items)) [
    | inl has ↦
        rw (has, if◌then◌else◌)
          (left_to_other items was listed (has_other-Any p.uid items has)
            (drop_finalizer-Dropped (read ∷ h)))
    | inr alone ↦
        rw (alone, if◌then◌else◌)
          (retract_from-Retraction (resolve_gateway w.world (read ∷ h))
            (was, (items, listed, has_other-All p.uid items alone))
            (resolve_gateway-Quiet w.world h (read ∷ h) (more read tt same)) refl)
  ]

  applied-Retraction :
      (applied : Bool)
      → w.world.contains_finalizer p.finalizers policy_finalizer ≡ true
      → p.status.applied_to_gateway ≡ applied
      → Retraction
          (if applied then clean_up w p (has_successor_policy w p.uid h) else drop_finalizer w p h)
  unfolding has_successor_policy
  applied-Retraction true has was = clean_up-Retraction (w.list_policies h) (has, was) refl
  applied-Retraction false has was = never_applied has was (drop_finalizer-Dropped h)

  -- Reconciling a policy that is being deleted does one of these: without the finalizer nothing;
  -- if it was never applied, its finalizer is removed at once; if it was and the list of the
  -- policies failed, that error is returned; if a policy with another uid is listed, its finalizer
  -- is removed without a call of the gateway; and if none is, the gateway was not found or not
  -- reached, and it is tried again in 30 seconds, or the gateway was asked to delete the setting,
  -- and it is tried again if that failed, and the finalizer is removed right after if it did not.
  pub reconcile_delete-Retraction : Retraction (reconcile_delete w p h)
  unfolding reconcile_delete
  reconcile_delete-Retraction =
      elim (Bool-cases (w.world.contains_finalizer p.finalizers policy_finalizer)) [
        | inl has ↦ rw has (applied-Retraction p.status.applied_to_gateway has refl)
        | inr lacks ↦ rw lacks (no_finalizer lacks)
      ]
