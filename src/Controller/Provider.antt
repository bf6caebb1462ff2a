-- ===== src/Controller/Provider.antt =====
-- internal/controller/openshellprovider_controller.go: credentials and configuration that are
-- pushed to the gateway. `Provider` is the gateway's message, `ProviderObject` the resource.
pub mod Payload
pub mod Names
pub mod Sync
pub mod Watches
use Prim.Native.String.{◌++◌, compare}
use Prim.Native.Nat.{Ordering}
use ogo.Base.{ℕ, String, Bool, true, false, Option, none, some, List, [], ◌∷◌, ◌==◌, if◌then◌else◌}
use ogo.Dict.{Dict, lookup, insert}
use ogo.Controller.{Condition, Outcome, after, fail, gateway_retry_interval, phase_failed}
use ogo.Controller.Cluster.{World, History, status_updated}

pub record SecretKeyRef : Type 0 where
  pub name : String
  pub key : String

pub record ProviderSpec : Type 0 where
  pub provider_type : String
  pub credentials : Dict SecretKeyRef
  pub config : Dict String

pub record ProviderStatus : Type 0 where
  pub phase : String
  pub observed_generation : ℕ
  pub conditions : List Condition
  pub reconciled_credential_keys : List String
  pub reconciled_config_keys : List String

pub record ProviderObject : Type 0 where
  pub name : String
  pub namespace : String
  pub generation : ℕ
  pub deleting : Bool
  pub finalizers : List String
  pub spec : ProviderSpec
  pub status : ProviderStatus

abbrev pub provider_finalizer : String
provider_finalizer = "ogo.aknochow.io/provider-cleanup"

abbrev pub ProviderHistory : Type 0
ProviderHistory = History ProviderStatus

unfoldable pub gateway_provider_name : ProviderObject → String
gateway_provider_name p = p.namespace ++ ("." ++ p.name)

-- `slices.Sorted(maps.Keys(m))`
abbrev pub comes_first : String → String → Bool
comes_first a b = elim (compare a b) [ Ordering.gt ↦ false | _ ↦ true ]

unfoldable pub insert_sorted : String → List String → List String
insert_sorted a [] = a ∷ []
insert_sorted a (b ∷ bs) =
    let rest = insert_sorted a bs in if comes_first a b then a ∷ b ∷ bs else b ∷ rest

module _ {V : Type 0} where
  unfoldable pub sorted_keys : Dict V → List String
  unfolding insert_sorted
  sorted_keys [] = []
  sorted_keys ((k, _) ∷ m) = insert_sorted k (sorted_keys m)

-- The loops over the keys that were reconciled before: one that is not desired any more gets the
-- empty text.
unfoldable pub retract_missing : Dict String → List String → Dict String → Dict String
unfolding insert
retract_missing desired [] payload = payload
retract_missing desired (key ∷ keys) payload =
    retract_missing desired keys
      (elim (lookup key desired) [ none ↦ insert key "" payload | some _ ↦ payload ])

unfoldable pub payload_for : Dict String → List String → Dict String
payload_for desired keys = retract_missing desired keys desired

abbrev pub failure_message : (reason cause : String) → String
failure_message reason cause =
    if reason == "GatewayUnreachable"
    then "failed to reach the OpenShell gateway; see operator logs for details"
    else if reason == "InvalidProviderSpec"
    then "the gateway rejected this provider's spec; see operator logs for details"
    else cause

module _ (w : World ProviderStatus) where
  unfoldable pub set_not_ready :
      ProviderObject → (reason cause : String) → ProviderHistory → Outcome × ProviderHistory
  set_not_ready p reason cause h =
      let condition : Condition = record {
        kind = "Synced";
        holds = false;
        reason = reason;
        message = failure_message reason cause;
      } in
      let status : ProviderStatus = record p.status {
        conditions = w.set_status_condition p.status.conditions condition;
        phase = phase_failed;
        observed_generation = p.generation;
      } in
      let answer = w.update_status h status in
      (
        elim answer [ none ↦ after gateway_retry_interval | some e ↦ fail e.message ],
        status_updated status answer ∷ h,
      )
