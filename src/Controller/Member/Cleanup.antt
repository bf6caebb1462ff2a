-- ===== src/Controller/Member/Cleanup.antt =====
-- Deleting an OpenShellWorkspaceMember at
-- internal/controller/openshellworkspacemember_controller.go: its finalizer goes last.
use ogo.Base.{
  String, ◌≡◌, ◌≢◌, false, none, some, List, ◌∷◌, ◌==◌, inl, inr, Bool-cases, Option-cases, arith,
  eq_iff,
}
use ogo.Base.Result.{Result, ok, err}
use ogo.Controller.{Gateway, Outcome, done, after, with_error, gateway_retry_interval}
use ogo.Controller.Cluster.{Rpc, RpcError, Event, called, updated, remove_workspace_member}
use ogo.Controller.Grpc.{resolve_gateway, gateway_client, rpc}
use ogo.Controller.Grpc.Quiet.{Quiet, same, resolve_gateway-Quiet, gateway_client-Quiet}
use ogo.Controller.Member.{
  MemberHistory, MemberStatus, Member, MemberWorld, workspace_member_finalizer,
}
use ogo.Controller.Member.Calls.{remove_over, removed, remove_member, remove_member_with_client}
use ogo.Controller.Member.Sync.{reconcile_delete, clean_up, after_removal, drop_finalizer}

module _ (w : MemberWorld) where
  abbrev pub removal_call : Member → Rpc
  removal_call m = remove_workspace_member m.spec.workspace m.status.reconciled_subject

  abbrev pub removal : String → Member → Event MemberStatus
  removal token m = called token (removal_call m) none

  abbrev pub without_finalizer : Member → List String
  without_finalizer m = w.world.remove_finalizer m.finalizers workspace_member_finalizer

  -- What deleting an object does that has a membership of the gateway to take away.
  pub data Deletion (m : Member) (h : MemberHistory) : Outcome × MemberHistory → Type 0 where
    no_finalizer :
        w.world.contains_finalizer m.finalizers workspace_member_finalizer ≡ false
        → Deletion m h (done, h)
    retried : {k : MemberHistory} → Quiet h k → Deletion m h (after gateway_retry_interval, k)
    refused :
        {k : MemberHistory}
        → Quiet h k
        → (token : String) (e : RpcError)
        → Deletion m h (after gateway_retry_interval, called token (removal_call m) (some e) ∷ k)
    dropped :
        {k : MemberHistory}
        → Quiet h k
        → (token : String)
        → Deletion m h (
          with_error done (w.world.update (removal token m ∷ k) (without_finalizer m)),
          updated (without_finalizer m) (w.world.update (removal token m ∷ k) (without_finalizer m))
              ∷ removal token m
              ∷ k,
        )

  after_call-Deletion :
      (token : String) (m : Member) (h k : MemberHistory)
      → Quiet h k
      → Deletion m h (
          after_removal w m
            (remove_member_with_client w token m.spec.workspace m.status.reconciled_subject k))
  unfolding remove_member_with_client removed after_removal drop_finalizer rpc
  after_call-Deletion token m h k q =
      let call = remove_workspace_member m.spec.workspace m.status.reconciled_subject in
      elim (Option-cases (w.world.call k token call)) [
        | inl went ↦ rw (went, removed, after_removal) (dropped q token)
        | inr (e, failed) ↦ rw (failed, removed, after_removal) (refused q token e)
      ]

  over-Deletion :
      (m : Member) (h : MemberHistory) (r : Result String String × MemberHistory)
      → Quiet h r.1
      → Deletion m h
          (after_removal w m (remove_over w m.spec.workspace m.status.reconciled_subject r))
  unfolding remove_over after_removal
  over-Deletion m h (err e, k) q = retried q
  over-Deletion m h (ok token, k) q = after_call-Deletion token m h k q

  clean_up-Deletion :
      (m : Member) (h : MemberHistory) (r : Result String Gateway × MemberHistory)
      → Quiet h r.1
      → Deletion m h (clean_up w m r)
  unfolding clean_up remove_member
  clean_up-Deletion m h (err e, k) q = retried q
  clean_up-Deletion m h (ok gw, k) q =
      over-Deletion m h (gateway_client w.world gw k) (gateway_client-Quiet w.world gw h k q)

  -- When an object is deleted whose status names a subject, then it has no finalizer to drop, or
  -- it is retried later without an update of the object, or its finalizer is dropped right after a
  -- call of the gateway that removed this subject succeeded.
  pub reconcile_delete-Deletion :
      (m : Member) (h : MemberHistory)
      → m.status.reconciled_subject ≢ ""
      → Deletion m h (reconcile_delete w m h)
  unfolding reconcile_delete
  reconcile_delete-Deletion m h subject =
      let present = w.world.contains_finalizer m.finalizers workspace_member_finalizer in
      let is_empty : (m.status.reconciled_subject == "") ≡ false =
        ground (arith, eq_iff m.status.reconciled_subject "") in
      elim (Bool-cases present) [
        | inl has ↦
            rw (has, is_empty)
              (clean_up-Deletion m h (resolve_gateway w.world h)
                (resolve_gateway-Quiet w.world h h same))
        | inr lacks ↦ rw lacks (no_finalizer lacks)
      ]
