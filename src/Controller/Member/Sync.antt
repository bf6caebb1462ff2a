-- ===== src/Controller/Member/Sync.antt =====
-- internal/controller/openshellworkspacemember_controller.go: Reconcile, reconcileSync and
-- reconcileDelete.
use Prim.Native.String.{◌++◌}
use ogo.Base.{String, true, Option, none, some, ◌∷◌, not, ◌==◌, ◌&&◌, if◌then◌else◌}
use ogo.Base.Result.{Result, ok, err}
use ogo.AuthBridge.{second}
use ogo.Controller.{
  Gateway, ApiError, Condition, Outcome, done, after, fail, with_error, requeue_interval,
  gateway_retry_interval,
}
use ogo.Controller.Cluster.{read, updated, status_updated}
use ogo.Controller.Grpc.{resolve_gateway, gateway_client}
use ogo.Controller.Member.{
  MemberHistory, MemberStatus, Member, MemberWorld, AddError, membership_removed, add_failed,
  add_error_text, workspace_member_finalizer, workspace_role_from_spec, with_subject, set_not_ready,
}
use ogo.Controller.Member.Calls.{add_member_with_client, remove_member_with_client, remove_member}

module _ (w : MemberWorld) where
  abbrev pub account_text : Member → String
  account_text m = "ServiceAccount " ++ (m.namespace ++ ("/" ++ m.spec.service_account))

  -- The status is written once the gateway has the membership.
  unfoldable pub synced_status : Member → (subject : String) → MemberStatus
  synced_status m subject =
      let condition : Condition = record {
        kind = "Ready";
        holds = true;
        reason = "Synced";
        message =
            m.spec.service_account
            ++ (" is a "
                ++ (m.spec.role ++ (" member of workspace " ++ w.world.quote m.spec.workspace)));
      } in
      record {
        reconciled_subject = subject;
        phase = "Synced";
        observed_generation = m.generation;
        conditions = w.world.set_status_condition m.status.conditions condition;
      }

  -- The subject that the status keeps when a membership could not be added.
  abbrev pub keep_subject : AddError → Member → Member
  keep_subject (membership_removed _) m = with_subject "" m
  keep_subject (add_failed _) m = m

  unfoldable pub finish_sync :
      Member → (subject : String) → Option AddError × MemberHistory → Outcome × MemberHistory
  finish_sync m subject (some e, h) =
      set_not_ready w (keep_subject e m) "GatewayUnreachable" (add_error_text e) h
  finish_sync m subject (none, h) =
      let status = synced_status m subject in
      let answer = w.world.update_status h status in
      (with_error (after requeue_interval) answer, status_updated status answer ∷ h)

  unfoldable pub grant_role :
      (token : String) → Member → (subject : String) → MemberHistory → Outcome × MemberHistory
  unfolding finish_sync
  grant_role token m subject h = finish_sync m subject (
      add_member_with_client w token m.spec.workspace subject (workspace_role_from_spec m.spec.role)
        h)

  unfoldable pub after_stale :
      (token : String)
      → Member
      → (subject : String) → Option String × MemberHistory
      → Outcome × MemberHistory
  after_stale token m subject (some e, h) =
      set_not_ready w m "GatewayUnreachable"
        ("removing stale membership for recreated identity: " ++ e) h
  after_stale token m subject (none, h) = grant_role token (with_subject "" m) subject h

  -- The membership of an account that was deleted and created again is taken away first.
  unfoldable pub replace_identity :
      (token : String) → Member → (subject : String) → MemberHistory → Outcome × MemberHistory
  unfolding after_stale
  replace_identity token m subject h =
      let old = m.status.reconciled_subject in
      if not (old == "") && not (old == subject)
      then after_stale token m subject (remove_member_with_client w token m.spec.workspace old h)
      else grant_role token m subject h

  unfoldable pub over_connection :
      Member → (subject : String) → Result String String × MemberHistory → Outcome × MemberHistory
  over_connection m subject (err e, h) =
      set_not_ready w m "GatewayUnreachable" ("connecting to gateway: " ++ e) h
  over_connection m subject (ok token, h) = replace_identity token m subject h

  unfoldable pub after_lost : Member → Option String × MemberHistory → Outcome × MemberHistory
  after_lost m (some e, h) =
      set_not_ready w m "GatewayUnreachable"
        ("removing stale membership for a deleted identity: " ++ e) h
  after_lost m (none, h) =
      set_not_ready w (with_subject "" m) "IdentityNotFound" (account_text m ++ " not found") h

  unfoldable pub lose_identity : Gateway → Member → MemberHistory → Outcome × MemberHistory
  unfolding after_lost
  lose_identity gw m h =
      if not (m.status.reconciled_subject == "")
      then after_lost m (remove_member w gw m.spec.workspace m.status.reconciled_subject h)
      else set_not_ready w m "IdentityNotFound" (account_text m ++ " not found") h

  unfoldable pub sync_identity :
      Gateway → Member → Result ApiError String → MemberHistory → Outcome × MemberHistory
  sync_identity gw m (err e) h =
      if not e.not_found then (fail e.message, h) else lose_identity gw m h
  sync_identity gw m (ok uid) h =
      if uid == ""
      then set_not_ready w m "IdentityNotFound" (account_text m ++ " has no uid") h
      else over_connection m uid (gateway_client w.world gw h)

  unfoldable pub sync_at : Member → Result String Gateway × MemberHistory → Outcome × MemberHistory
  sync_at m (err e, h) = set_not_ready w m "GatewayNotFound" e h
  sync_at m (ok gw, h) =
      sync_identity gw m (w.get_service_account h m.namespace m.spec.service_account) (read ∷ h)

  unfoldable pub reconcile_sync : Member → MemberHistory → Outcome × MemberHistory
  unfolding sync_at sync_identity over_connection
  reconcile_sync m h = sync_at m (resolve_gateway w.world h)

  unfoldable pub drop_finalizer : Member → MemberHistory → Outcome × MemberHistory
  drop_finalizer m h =
      let finalizers = w.world.remove_finalizer m.finalizers workspace_member_finalizer in
      let answer = w.world.update h finalizers in
      (with_error done answer, updated finalizers answer ∷ h)

  unfoldable pub after_removal : Member → Option String × MemberHistory → Outcome × MemberHistory
  after_removal m (some e, h) = (after gateway_retry_interval, h)
  after_removal m (none, h) = drop_finalizer m h

  unfoldable pub clean_up : Member → Result String Gateway × MemberHistory → Outcome × MemberHistory
  clean_up m (err e, h) = (after gateway_retry_interval, h)
  clean_up m (ok gw, h) =
      after_removal m (remove_member w gw m.spec.workspace m.status.reconciled_subject h)

  unfoldable pub reconcile_delete : Member → MemberHistory → Outcome × MemberHistory
  unfolding clean_up after_removal drop_finalizer
  reconcile_delete m h =
      if not (w.world.contains_finalizer m.finalizers workspace_member_finalizer)
      then (done, h)
      else if not (m.status.reconciled_subject == "")
      then clean_up m (resolve_gateway w.world h)
      else drop_finalizer m h

  add_own_finalizer : Member → MemberHistory → Outcome × MemberHistory
  add_own_finalizer m h =
      let finalizers = w.world.add_finalizer m.finalizers workspace_member_finalizer in
      let answer = w.world.update h finalizers in
      (elim answer [ none ↦ after second | some e ↦ fail e.message ], updated finalizers answer ∷ h)

  reconcile_found : Member → MemberHistory → Outcome × MemberHistory
  reconcile_found m h =
      if m.deleting
      then reconcile_delete m h
      else if not (w.world.contains_finalizer m.finalizers workspace_member_finalizer)
      then add_own_finalizer m h
      else reconcile_sync m h

  -- What `Get` of the object answered is the first argument.
  unfoldable pub reconcile : Result ApiError Member → MemberHistory → Outcome × MemberHistory
  unfolding reconcile_found add_own_finalizer
  reconcile (err e) h = if e.not_found then (done, read ∷ h) else (fail e.message, read ∷ h)
  reconcile (ok m) h = reconcile_found m (read ∷ h)
