-- ===== src/Controller/Provider/Sync.antt =====
-- internal/controller/openshellprovider_controller.go: Reconcile, reconcileSync and
-- reconcileDelete.
pub mod Secrets
use Prim.Native.String.{◌++◌}
use ogo.Base.{String, Bool, true, false, Option, none, some, List, [], ◌∷◌, not, if◌then◌else◌}
use ogo.Base.Result.{Result, ok, err}
use ogo.Dict.{Dict, lookup, insert}
use ogo.Controller.{
  Gateway, Secret, ApiError, Condition, Outcome, done, after, requeue_now, fail, with_error,
  requeue_interval, gateway_retry_interval, phase_failed,
}
use ogo.Controller.Cluster.{
  World, read, updated, status_updated, Provider, Code, invalid_argument, already_exists,
  failed_precondition, RpcError, create_provider, update_provider, delete_provider,
}
use ogo.Controller.Grpc.{resolve_gateway, gateway_client, rpc}
use ogo.Controller.Provider.{
  ProviderHistory, ProviderStatus, ProviderObject, SecretKeyRef, provider_finalizer,
  gateway_provider_name, sorted_keys, payload_for, set_not_ready,
}

-- What the loop over the credentials stops at: a reason to report, or an error of the API.
pub data Stop : Type 0 where
  broken : (reason cause : String) → Stop
  unreadable : String → Stop

module _ (w : World ProviderStatus) where
  -- What a credential's value is found to be.
  unfoldable pub credential_value :
      (env_var : String) → SecretKeyRef → Result ApiError Secret → Result Stop String
  credential_value env_var ref (err e) =
      if e.not_found
      then err (
          broken "SecretNotFound" (
            "secret "
            ++ (w.quote ref.name ++ (" for credential " ++ (w.quote env_var ++ " not found")))))
      else err (unreadable e.message)
  credential_value env_var ref (ok secret) = elim (lookup ref.key secret) [
    | none ↦ err (
        broken "KeyNotFound"
          ("key " ++ (w.quote ref.key ++ (" not found in Secret " ++ w.quote ref.name))))
    | some value ↦ ok value
  ]

  -- `m[k]` of a map to structs
  abbrev pub ref_of : Dict SecretKeyRef → String → SecretKeyRef
  ref_of credentials env_var = elim (lookup env_var credentials) [
    | none ↦ record { name = ""; key = "" }
    | some ref ↦ ref
  ]

  unfoldable pub gather_credentials :
      (namespace : String)
      → Dict SecretKeyRef
      → (env_vars : List String) → (found : Dict String) → ProviderHistory
      → Result Stop (Dict String) × ProviderHistory
  gather_credentials namespace credentials [] found h = (ok found, h)
  gather_credentials namespace credentials (env_var ∷ env_vars) found h =
      let ref = ref_of credentials env_var in
      elim (credential_value env_var ref (w.get_secret h namespace ref.name)) [
        | err stop ↦ (err stop, read ∷ h)
        | ok value ↦
            gather_credentials namespace credentials env_vars (insert env_var value found)
              (read ∷ h)
      ]

  unfoldable pub synced_status :
      ProviderObject → (credentials config : Dict String) → ProviderStatus
  synced_status p credentials config =
      let condition : Condition = record {
        kind = "Synced";
        holds = true;
        reason = "Ready";
        message =
            "Provider "
            ++ (w.quote p.name
                ++ (" of type " ++ (w.quote p.spec.provider_type ++ " is synced to the gateway")));
      } in
      record {
        reconciled_credential_keys = sorted_keys credentials;
        reconciled_config_keys = sorted_keys config;
        phase = "Synced";
        observed_generation = p.generation;
        conditions = w.set_status_condition p.status.conditions condition;
      }

  unfoldable pub finish_sync :
      ProviderObject → (credentials : Dict String) → ProviderHistory → Outcome × ProviderHistory
  finish_sync p credentials h =
      let status = synced_status p credentials p.spec.config in
      let answer = w.update_status h status in
      (with_error (after requeue_interval) answer, status_updated status answer ∷ h)

  -- after `UpdateProvider`
  unfoldable pub updated_provider :
      ProviderObject
      → (credentials : Dict String) → Option RpcError × ProviderHistory
      → Outcome × ProviderHistory
  updated_provider p credentials (none, h) = finish_sync p credentials h
  updated_provider p credentials (some e, h) = elim e.code [
    | invalid_argument ↦ set_not_ready w p "InvalidProviderSpec" e.message h
    | _ ↦ set_not_ready w p "GatewayUnreachable" ("UpdateProvider: " ++ e.message) h
  ]

  -- after `CreateProvider`
  unfoldable pub created_provider :
      (token : String)
      → ProviderObject
      → (credentials : Dict String) → Provider
      → Option RpcError × ProviderHistory
      → Outcome × ProviderHistory
  created_provider token p credentials desired (none, h) = finish_sync p credentials h
  created_provider token p credentials desired (some e, h) = elim e.code [
    | already_exists ↦ updated_provider p credentials (rpc w token (update_provider desired) h)
    | invalid_argument ↦ set_not_ready w p "InvalidProviderSpec" e.message h
    | _ ↦ set_not_ready w p "GatewayUnreachable" ("CreateProvider: " ++ e.message) h
  ]

  unfoldable pub desired_provider : ProviderObject → (credentials : Dict String) → Provider
  desired_provider p credentials = record {
    name = gateway_provider_name p;
    provider_type = p.spec.provider_type;
    credentials = payload_for credentials p.status.reconciled_credential_keys;
    config = payload_for p.spec.config p.status.reconciled_config_keys;
  }

  unfoldable pub push :
      ProviderObject
      → (credentials : Dict String) → Result String String × ProviderHistory
      → Outcome × ProviderHistory
  push p credentials (err e, h) =
      set_not_ready w p "GatewayUnreachable" ("connecting to gateway: " ++ e) h
  push p credentials (ok token, h) =
      let desired = desired_provider p credentials in
      created_provider token p credentials desired (rpc w token (create_provider desired) h)

  unfoldable pub sync_gathered :
      Gateway
      → ProviderObject
      → Result Stop (Dict String) × ProviderHistory
      → Outcome × ProviderHistory
  sync_gathered gw p (ok credentials, h) = push p credentials (gateway_client w gw h)
  sync_gathered gw p (err (broken reason cause), h) = set_not_ready w p reason cause h
  sync_gathered gw p (err (unreadable message), h) = (fail message, h)

  unfoldable pub sync_at :
      ProviderObject → Result String Gateway × ProviderHistory → Outcome × ProviderHistory
  sync_at p (err e, h) = set_not_ready w p "GatewayNotFound" e h
  sync_at p (ok gw, h) =
      sync_gathered gw p
        (gather_credentials p.namespace p.spec.credentials (sorted_keys p.spec.credentials) [] h)

  unfoldable pub reconcile_sync : ProviderObject → ProviderHistory → Outcome × ProviderHistory
  reconcile_sync p h = sync_at p (resolve_gateway w h)

  blocked : ProviderObject → ProviderHistory → Outcome × ProviderHistory
  blocked p h =
      let condition : Condition = record {
        kind = "Synced";
        holds = false;
        reason = "DeletionBlocked";
        message =
            "provider cannot be deleted while still attached to one or more sandboxes; see operator logs for details";
      } in
      let status : ProviderStatus = record p.status {
        conditions = w.set_status_condition p.status.conditions condition;
        phase = phase_failed;
      } in
      let answer = w.update_status h status in
      (
        elim answer [ none ↦ after gateway_retry_interval | some e ↦ fail e.message ],
        status_updated status answer ∷ h,
      )

  after_deletion : ProviderObject → Option RpcError × ProviderHistory → Outcome × ProviderHistory
  after_deletion p (some e, h) = elim e.code [
    | failed_precondition ↦ blocked p h
    | _ ↦ (after gateway_retry_interval, h)
  ]
  after_deletion p (none, h) =
      let finalizers = w.remove_finalizer p.finalizers provider_finalizer in
      let answer = w.update h finalizers in (with_error done answer, updated finalizers answer ∷ h)

  delete_over : ProviderObject → Result String String × ProviderHistory → Outcome × ProviderHistory
  delete_over p (err e, h) = (after gateway_retry_interval, h)
  delete_over p (ok token, h) =
      after_deletion p (rpc w token (delete_provider (gateway_provider_name p)) h)

  delete_at : ProviderObject → Result String Gateway × ProviderHistory → Outcome × ProviderHistory
  delete_at p (err e, h) = (after gateway_retry_interval, h)
  delete_at p (ok gw, h) = delete_over p (gateway_client w gw h)

  unfoldable pub reconcile_delete : ProviderObject → ProviderHistory → Outcome × ProviderHistory
  unfolding delete_at delete_over after_deletion blocked
  reconcile_delete p h =
      if not (w.contains_finalizer p.finalizers provider_finalizer)
      then (done, h)
      else delete_at p (resolve_gateway w h)

  add_own_finalizer : ProviderObject → ProviderHistory → Outcome × ProviderHistory
  add_own_finalizer p h =
      let finalizers = w.add_finalizer p.finalizers provider_finalizer in
      let answer = w.update h finalizers in
      (elim answer [ none ↦ requeue_now | some e ↦ fail e.message ], updated finalizers answer ∷ h)

  reconcile_found : ProviderObject → ProviderHistory → Outcome × ProviderHistory
  reconcile_found p h =
      if p.deleting
      then reconcile_delete p h
      else if not (w.contains_finalizer p.finalizers provider_finalizer)
      then add_own_finalizer p h
      else reconcile_sync p h

  -- What `Get` of the object answered is the first argument.
  unfoldable pub reconcile :
      Result ApiError ProviderObject → ProviderHistory → Outcome × ProviderHistory
  unfolding reconcile_found add_own_finalizer
  reconcile (err e) h = if e.not_found then (done, read ∷ h) else (fail e.message, read ∷ h)
  reconcile (ok p) h = reconcile_found p (read ∷ h)
