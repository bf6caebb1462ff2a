-- ===== src/Controller/Policy/Together.antt =====
-- Two policies that are deleted at the same time, at
-- internal/controller/openshellpolicy_controller.go.
use ogo.Base.{true, false, ◌≡◌, ◌≢◌, true, false, [], ◌∷◌, arith, eq_iff}
use ogo.Base.Result.{ok}
use ogo.Controller.Cluster.{read, updated}
use ogo.Controller.Policy.{
  PolicyHistory, Policy, PolicyWorld, policy_finalizer, has_other, has_successor_policy, successor,
}
use ogo.Controller.Policy.Sync.{drop_finalizer, clean_up, reconcile_delete}

module _ (w : PolicyWorld) where
  -- The history in which the finalizer of the policy has been dropped.
  abbrev pub finalizer_dropped : Policy → PolicyHistory → PolicyHistory
  finalizer_dropped p h =
      let finalizers = w.world.remove_finalizer p.finalizers policy_finalizer in
      updated finalizers (w.world.update h finalizers) ∷ h

  abbrev pub HasFinalizer : Policy → Type 0
  HasFinalizer p = w.world.contains_finalizer p.finalizers policy_finalizer ≡ true

  -- If two policies with different uids are both being deleted, both have their finalizer, one was
  -- applied and the other never, and the list shows these two, then reconciling the one and then
  -- the other drops both finalizers without a call of the gateway.
  pub deleted_together :
      (p q : Policy) (h : PolicyHistory)
      → p.deleting ≡ true
      → q.deleting ≡ true
      → HasFinalizer p
      → HasFinalizer q
      → p.status.applied_to_gateway ≡ true
      → q.status.applied_to_gateway ≡ false
      → p.uid ≢ q.uid
      → w.list_policies h ≡ ok (p ∷ q ∷ [])
      → (reconcile_delete w q (reconcile_delete w p h).1).1
        ≡ finalizer_dropped q (finalizer_dropped p (read ∷ h))
  unfolding reconcile_delete has_successor_policy drop_finalizer successor clean_up has_other
  deleted_together p q h _ _ p_has q_has applied never other listed =
      ground (arith, p_has, q_has, applied, never, listed, eq_iff p.uid p.uid, eq_iff q.uid p.uid)
