-- ===== src/Controller/Policy.antt =====
-- internal/controller/openshellpolicy_controller.go: the one policy of the gateway, that of the
-- oldest OpenShellPolicy of the cluster.
pub mod Sync
pub mod Singleton
pub mod Retraction
pub mod Together
pub mod Watches
use Prim.Native.String.{◌++◌}
use ogo.Base.{ℕ, String, Bool, true, false, Option, none, some, List, [], ◌∷◌, ◌==◌, if◌then◌else◌}
use ogo.Base.Result.{Result, ok, err}
use ogo.Dict.{Dict}
use ogo.Controller.{ApiError, Condition, Outcome, after, fail, gateway_retry_interval, phase_failed}
use ogo.Controller.Singleton.{oldest_by_creation_timestamp}
use ogo.Controller.Cluster.{
  World, History, read, status_updated, SandboxPolicy, FilesystemPolicy, ProcessPolicy,
  NetworkPolicyRule, NetworkEndpoint,
}

-- Of the types of the API that the gateway's messages repeat, the messages serve for both.
pub record NetworkBinary : Type 0 where
  pub path : String

pub record NetworkRuleSpec : Type 0 where
  pub name : String
  pub endpoints : List NetworkEndpoint  -- ports from 1 to 65535, so uint32 keeps them
  pub binaries : List NetworkBinary

pub record PolicySpec : Type 0 where
  pub policy_name : String
  pub filesystem : Option FilesystemPolicy
  pub network : Dict NetworkRuleSpec
  pub process : Option ProcessPolicy

pub record PolicyStatus : Type 0 where
  pub phase : String
  pub observed_generation : ℕ
  pub conditions : List Condition
  pub applied_to_gateway : Bool

pub record Policy : Type 0 where
  pub name : String
  pub namespace : String
  pub uid : String
  pub created_at : ℕ  -- metav1.Time, whole seconds
  pub generation : ℕ
  pub deleting : Bool
  pub finalizers : List String
  pub spec : PolicySpec
  pub status : PolicyStatus

abbrev pub policy_finalizer : String
policy_finalizer = "ogo.aknochow.io/policy-cleanup"

abbrev pub phase_superseded : String
phase_superseded = "Superseded"

abbrev pub PolicyHistory : Type 0
PolicyHistory = History PolicyStatus

pub record PolicyWorld : Type 0 where
  pub world : World PolicyStatus
  pub list_policies : PolicyHistory → Result ApiError (List Policy)

unfoldable pub binary_paths : List NetworkBinary → List String
binary_paths [] = []
binary_paths (b ∷ bs) = b.path ∷ binary_paths bs

unfoldable pub build_rules : Dict NetworkRuleSpec → Dict NetworkPolicyRule
build_rules [] = []
build_rules ((key, rule) ∷ rules) =
    (
      key,
      record {
        name = rule.name;
        endpoints = rule.endpoints;
        binaries = binary_paths rule.binaries;
      },
    )
    ∷ build_rules rules

unfoldable pub build_sandbox_policy : PolicySpec → SandboxPolicy
build_sandbox_policy spec = record {
  filesystem = spec.filesystem;
  process = spec.process;
  network_policies = build_rules spec.network;
}

unfoldable pub pick_policy : Result ApiError (List Policy) → Result String Policy
pick_policy (err e) = err e.message
pick_policy (ok items) = elim (oldest_by_creation_timestamp (λ p. p.created_at) items) [
  | none ↦ err "no OpenShellPolicy found in the cluster"
  | some p ↦ ok p
]

abbrev pub failure_message : (reason cause : String) → String
failure_message reason cause =
    if reason == "GatewayUnreachable"
    then "failed to reach the OpenShell gateway; see operator logs for details"
    else if reason == "InvalidPolicySpec"
    then "the gateway rejected this policy's spec; see operator logs for details"
    else cause

-- whether a policy other than this one exists
unfoldable pub has_other : (uid : String) → List Policy → Bool
has_other uid [] = false
has_other uid (p ∷ ps) = if p.uid == uid then has_other uid ps else true

module _ (w : PolicyWorld) where
  unfoldable pub resolve_active_policy : PolicyHistory → Result String Policy × PolicyHistory
  unfolding pick_policy
  resolve_active_policy h = (pick_policy (w.list_policies h), read ∷ h)

  unfoldable pub successor : (uid : String) → Result ApiError (List Policy) → Result ApiError Bool
  successor uid (err e) = err e
  successor uid (ok items) = ok (has_other uid items)

  unfoldable pub has_successor_policy :
      (uid : String) → PolicyHistory → Result ApiError Bool × PolicyHistory
  unfolding successor
  has_successor_policy uid h = (successor uid (w.list_policies h), read ∷ h)

  unfoldable pub set_not_ready :
      Policy → (reason cause : String) → PolicyHistory → Outcome × PolicyHistory
  set_not_ready p reason cause h =
      let condition : Condition = record {
        kind = "Synced";
        holds = false;
        reason = reason;
        message = failure_message reason cause;
      } in
      let status : PolicyStatus = record p.status {
        conditions = w.world.set_status_condition p.status.conditions condition;
        phase = phase_failed;
        observed_generation = p.generation;
      } in
      let answer = w.world.update_status h status in
      (
        elim answer [ none ↦ after gateway_retry_interval | some e ↦ fail e.message ],
        status_updated status answer ∷ h,
      )
