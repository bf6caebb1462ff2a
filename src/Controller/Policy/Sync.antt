-- ===== src/Controller/Policy/Sync.antt =====
-- internal/controller/openshellpolicy_controller.go: Reconcile, reconcileSync and reconcileDelete.
use Prim.Native.String.{◌++◌}
use ogo.Base.{String, Bool, true, false, Option, none, some, ◌∷◌, ◌==◌, not, if◌then◌else◌}
use ogo.Base.Result.{Result, ok, err}
use ogo.Controller.{
  Gateway, ApiError, Condition, Outcome, done, after, requeue_now, fail, with_error,
  requeue_interval, gateway_retry_interval,
}
use ogo.Controller.Cluster.{
  read, updated, status_updated, Code, invalid_argument, RpcError, update_config, delete_config,
}
use ogo.Controller.Grpc.{resolve_gateway, gateway_client, rpc}
use ogo.Controller.Policy.{
  PolicyHistory, PolicyStatus, Policy, PolicyWorld, policy_finalizer, phase_superseded,
  build_sandbox_policy, resolve_active_policy, has_successor_policy, set_not_ready,
}

abbrev pub is_invalid_argument : Code → Bool
is_invalid_argument invalid_argument = true
is_invalid_argument _ = false

-- the setting that `UpdateConfig` deletes
abbrev pub policy_setting : String
policy_setting = "policy"

module _ (w : PolicyWorld) where
  unfoldable pub write_status : PolicyStatus → PolicyHistory → Outcome × PolicyHistory
  write_status status h =
      let answer = w.world.update_status h status in
      (with_error (after requeue_interval) answer, status_updated status answer ∷ h)

  unfoldable pub superseded_status : Policy → (active : Policy) → PolicyStatus
  superseded_status p active =
      let condition : Condition = record {
        kind = "Synced";
        holds = false;
        reason = "AnotherPolicyActive";
        message =
            "OpenShellPolicy "
            ++ (active.namespace
                ++ ("/"
                    ++ (active.name
                        ++ " is the active gateway policy; this resource has no effect until it is deleted")));
      } in
      record {
        conditions = w.world.set_status_condition p.status.conditions condition;
        phase = phase_superseded;
        applied_to_gateway = false;
        observed_generation = p.generation;
      }

  unfoldable pub applied_status : Policy → PolicyStatus
  applied_status p =
      let condition : Condition = record {
        kind = "Synced";
        holds = true;
        reason = "Ready";
        message =
            "OpenShellPolicy "
            ++ (w.world.quote p.spec.policy_name ++ " is the active gateway-global policy");
      } in
      record {
        applied_to_gateway = true;
        phase = "Synced";
        observed_generation = p.generation;
        conditions = w.world.set_status_condition p.status.conditions condition;
      }

  unfoldable pub finish_push : Policy → Option RpcError × PolicyHistory → Outcome × PolicyHistory
  unfolding write_status
  finish_push p (none, h) = write_status (applied_status p) h
  finish_push p (some e, h) =
      if is_invalid_argument e.code
      then set_not_ready w p "InvalidPolicySpec" e.message h
      else set_not_ready w p "GatewayUnreachable" ("UpdateConfig: " ++ e.message) h

  unfoldable pub push : Policy → Result String String × PolicyHistory → Outcome × PolicyHistory
  push p (err e, h) = set_not_ready w p "GatewayUnreachable" ("connecting to gateway: " ++ e) h
  push p (ok token, h) =
      finish_push p (rpc w.world token (update_config (build_sandbox_policy p.spec)) h)

  unfoldable pub push_to : Policy → Result String Gateway × PolicyHistory → Outcome × PolicyHistory
  push_to p (err e, h) = set_not_ready w p "GatewayNotFound" e h
  push_to p (ok gw, h) = push p (gateway_client w.world gw h)

  unfoldable pub sync_active :
      Policy → Result String Policy × PolicyHistory → Outcome × PolicyHistory
  unfolding write_status
  sync_active p (err e, h) = set_not_ready w p "PolicyListFailed" e h
  sync_active p (ok active, h) =
      if not (active.uid == p.uid)
      then write_status (superseded_status p active) h
      else push_to p (resolve_gateway w.world h)

  unfoldable pub reconcile_sync : Policy → PolicyHistory → Outcome × PolicyHistory
  reconcile_sync p h = sync_active p (resolve_active_policy w h)

  unfoldable pub drop_finalizer : Policy → PolicyHistory → Outcome × PolicyHistory
  drop_finalizer p h =
      let finalizers = w.world.remove_finalizer p.finalizers policy_finalizer in
      let answer = w.world.update h finalizers in
      (with_error done answer, updated finalizers answer ∷ h)

  unfoldable pub after_retraction :
      Policy → Option RpcError × PolicyHistory → Outcome × PolicyHistory
  after_retraction p (some e, h) = (after gateway_retry_interval, h)
  after_retraction p (none, h) = drop_finalizer p h

  unfoldable pub retract : Policy → Result String String × PolicyHistory → Outcome × PolicyHistory
  retract p (err e, h) = (after gateway_retry_interval, h)
  retract p (ok token, h) = after_retraction p (rpc w.world token (delete_config policy_setting) h)

  unfoldable pub retract_from :
      Policy → Result String Gateway × PolicyHistory → Outcome × PolicyHistory
  retract_from p (err e, h) = (after gateway_retry_interval, h)
  retract_from p (ok gw, h) = retract p (gateway_client w.world gw h)

  unfoldable pub clean_up : Policy → Result ApiError Bool × PolicyHistory → Outcome × PolicyHistory
  clean_up p (err e, h) = (fail e.message, h)
  clean_up p (ok has_successor, h) =
      if not has_successor then retract_from p (resolve_gateway w.world h) else drop_finalizer p h

  unfoldable pub reconcile_delete : Policy → PolicyHistory → Outcome × PolicyHistory
  reconcile_delete p h =
      if not (w.world.contains_finalizer p.finalizers policy_finalizer)
      then (done, h)
      else if p.status.applied_to_gateway
      then clean_up p (has_successor_policy w p.uid h)
      else drop_finalizer p h

  add_own_finalizer : Policy → PolicyHistory → Outcome × PolicyHistory
  add_own_finalizer p h =
      let finalizers = w.world.add_finalizer p.finalizers policy_finalizer in
      let answer = w.world.update h finalizers in
      (elim answer [ none ↦ requeue_now | some e ↦ fail e.message ], updated finalizers answer ∷ h)

  reconcile_found : Policy → PolicyHistory → Outcome × PolicyHistory
  reconcile_found p h =
      if p.deleting
      then reconcile_delete p h
      else if not (w.world.contains_finalizer p.finalizers policy_finalizer)
      then add_own_finalizer p h
      else reconcile_sync p h

  -- What `Get` of the object answered is the first argument.
  unfoldable pub reconcile : Result ApiError Policy → PolicyHistory → Outcome × PolicyHistory
  unfolding reconcile_found add_own_finalizer
  reconcile (err e) h = if e.not_found then (done, read ∷ h) else (fail e.message, read ∷ h)
  reconcile (ok p) h = reconcile_found p (read ∷ h)
