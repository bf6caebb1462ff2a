-- ===== src/Controller/Tests/Others.antt =====
-- Policies and providers at concrete inputs.
use ogo.Base.{
  ℕ, String, ◌≡◌, ◌≢◌, ◌↔◌, Any, refl, true, false, none, some, [], ◌∷◌, ◌==◌, if◌then◌else◌, arith,
  eq_iff, contains,
}
use ogo.Base.Result.{ok}
use ogo.Dict.{Dict, lookup, insert, remove, lookup-insert, lookup-remove}
use ogo.Controller.Singleton.{oldest_by_creation_timestamp}
use ogo.Controller.Cluster.{read}
use ogo.Controller.Policy.{PolicyStatus, Policy, PolicyWorld, policy_finalizer}
use ogo.Controller.Policy.Sync.{reconcile_sync, reconcile_delete}
use ogo.Controller.Policy.Singleton.{Synchronization, reconcile_sync-Synchronization}
use ogo.Controller.Policy.Retraction.{Retraction, reconcile_delete-Retraction}
use ogo.Controller.Policy.Together.{finalizer_dropped, deleted_together}
use ogo.Controller.Provider.{ProviderStatus, ProviderObject, payload_for, provider_finalizer}
use ogo.Controller.Provider.{gateway_provider_name}
use ogo.Controller.Provider.Names.{gateway_provider_name-inj}
use ogo.Controller.Provider.Payload.{Upsert, if_given, upsert-payload_for}
use ogo.Controller.Provider.Sync.Secrets.{KeyIsMissing, PushesNothing, missing_key-PushesNothing}
use ogo.Controller.Provider.Sync.{reconcile as reconcile_provider}
use ogo.Controller.Policy.Watches.{Change, delete, policy_watches, policy_watches-Promotes}
use ogo.Controller.Policy.Watches.{request_for as policy_request}
use ogo.Controller.Provider.Watches.{
  find_providers_for_secret, request_for, Reads, find_providers_for_secret_iff,
}
use ogo.Controller.Tests.Fixtures.{world, secret}

abbrev policy : (uid : String) → ℕ → Policy
policy uid created = record {
  name = uid;
  namespace = "ns";
  uid = uid;
  created_at = created;
  generation = 1;
  deleting = true;
  finalizers = policy_finalizer ∷ [];
  spec = record { policy_name = "p"; filesystem = none; network = []; process = none };
  status = record {
    phase = "";
    observed_generation = 0;
    conditions = [];
    applied_to_gateway = false;
  };
}

abbrev active : Policy
active = record (policy "a" 1) {
  status = record (policy "a" 1).status { applied_to_gateway = true };
}

abbrev waiting : Policy
waiting = policy "b" 2

abbrev policies : PolicyWorld
policies = record { world = world PolicyStatus; list_policies = λ h. ok (active ∷ waiting ∷ []) }

reconcile_sync-Synchronization_example :
    Synchronization policies active [] (reconcile_sync policies active [])
reconcile_sync-Synchronization_example = reconcile_sync-Synchronization policies active []

reconcile_delete-Retraction_example :
    Retraction policies active [] (reconcile_delete policies active [])
reconcile_delete-Retraction_example = reconcile_delete-Retraction policies active []

deleted_together_example :
    (reconcile_delete policies waiting (reconcile_delete policies active []).1).1
    ≡ finalizer_dropped policies waiting (finalizer_dropped policies active (read ∷ []))
unfolding contains
deleted_together_example =
    deleted_together policies active waiting [] refl refl refl refl refl refl
      (λ e. cc ((eq_iff "a" "b").1 e)) refl

-- A gateway's update, entry by entry.
updated : Dict String → Dict String → Dict String
updated [] stored = stored
updated ((k, v) ∷ payload) stored =
    let rest = updated payload stored in if v == "" then remove k rest else insert k v rest

updated-omitted :
    (payload stored : Dict String) (k : String)
    → lookup k payload ≡ none
    → lookup k (updated payload stored) ≡ lookup k stored
unfolding updated lookup
updated-omitted [] stored k h = refl
updated-omitted ((j, v) ∷ payload) stored k h = ground (
  arith,
  h,
  updated-omitted payload stored k,
  lookup-remove j k (updated payload stored),
  lookup-insert j k v (updated payload stored),
  eq_iff j k,
)

updated-sent :
    (payload stored : Dict String) (k v : String)
    → lookup k payload ≡ some v
    → lookup k (updated payload stored) ≡ if_given (some v)
unfolding updated lookup
updated-sent [] stored k v h = cc
updated-sent ((j, u) ∷ payload) stored k v h = ground (
  arith,
  h,
  updated-sent payload stored k v,
  lookup-remove j k (updated payload stored),
  lookup-insert j k u (updated payload stored),
  eq_iff j k,
)

gateway_maps : Upsert
gateway_maps = record { upsert = updated; omitted = updated-omitted; sent = updated-sent }

tracked : (k v : String) → lookup k (("OLD", "x") ∷ []) ≡ some v → contains k ("OLD" ∷ []) ≡ true
unfolding lookup contains
tracked k v h = ground (arith, h)

upsert-payload_for_example :
    lookup "OLD"
      (gateway_maps.upsert (payload_for (("NEW", "y") ∷ []) ("OLD" ∷ [])) (("OLD", "x") ∷ []))
    ≡ if_given (lookup "OLD" (("NEW", "y") ∷ []))
upsert-payload_for_example =
    upsert-payload_for gateway_maps (("NEW", "y") ∷ []) (("OLD", "x") ∷ []) ("OLD" ∷ []) tracked
      "OLD"

abbrev provider : ProviderObject
provider = record {
  name = "p";
  namespace = "ns";
  generation = 1;
  deleting = false;
  finalizers = provider_finalizer ∷ [];
  spec = record {
    provider_type = "github";
    credentials = ("TOKEN", record { name = "s"; key = "api" }) ∷ [];
    config = [];
  };
  status = record {
    phase = "";
    observed_generation = 0;
    conditions = [];
    reconciled_credential_keys = "TOKEN" ∷ [];
    reconciled_config_keys = [];
  };
}

key_is_missing : KeyIsMissing (world ProviderStatus) provider (record { name = "s"; key = "api" })
unfolding lookup
key_is_missing h found answered = let is_secret : secret ≡ found = cc in rw (← is_secret) refl

missing_key-PushesNothing_example :
    PushesNothing
      (world ProviderStatus)
      provider
      []
      (reconcile_provider (world ProviderStatus) (ok provider) []).1
unfolding lookup contains
missing_key-PushesNothing_example =
    missing_key-PushesNothing (world ProviderStatus) provider "TOKEN"
      (record { name = "s"; key = "api" }) [] refl refl refl key_is_missing

-- The same provider after its specification was changed.
abbrev changed : ProviderObject
changed = record provider { generation = 2 }

gateway_provider_name-inj_example :
    (provider.namespace ≡ changed.namespace) × (provider.name ≡ changed.name)
unfolding gateway_provider_name
gateway_provider_name-inj_example =
    gateway_provider_name-inj provider changed (refl, (refl, tt)) (refl, (refl, tt)) refl

policy_watches-Promotes_example :
    (chosen : Policy) × (oldest_by_creation_timestamp
        (λ (q : Policy). q.created_at)
        (waiting ∷ active ∷ [])
      ≡ some chosen)
    × Any
        (λ r. r ≡ policy_request chosen)
        (policy_watches delete (policy "c" 3) (ok (waiting ∷ active ∷ [])))
    × ((change : Change)
        → change ≢ delete
        → policy_watches change (policy "c" 3) (ok (waiting ∷ active ∷ []))
          ≡ policy_request (policy "c" 3) ∷ [])
policy_watches-Promotes_example = policy_watches-Promotes (policy "c" 3) waiting (active ∷ [])

find_providers_for_secret_iff_example :
    Any
      (λ q. q ≡ record { name = "p"; namespace = "ns" })
      (find_providers_for_secret (ok (provider ∷ [])) "s")
    ↔ Any
        (λ p. (request_for p ≡ record { name = "p"; namespace = "ns" }) × Reads "s" p)
        (provider ∷ [])
find_providers_for_secret_iff_example =
    find_providers_for_secret_iff "s" (provider ∷ []) (record { name = "p"; namespace = "ns" })
