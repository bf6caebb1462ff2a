-- ===== src/Controller/Member.antt =====
-- internal/controller/openshellworkspacemember_controller.go: a ServiceAccount's membership of a
-- workspace of the gateway. The gateway knows a ServiceAccount by its uid, the subject.
pub mod Calls
pub mod Sync
pub mod Cleanup
pub mod Faithful
pub mod Synced
use Prim.Native.String.{◌++◌}
use ogo.Base.{
  ℕ, ◌*◌, String, Bool, true, false, Option, none, some, List, [], ◌∷◌, not, ◌==◌, ◌&&◌,
  if◌then◌else◌,
}
use ogo.Base.Result.{Result, ok, err}
use ogo.AuthBridge.{second}
use ogo.Dict.{lookup}
use ogo.Controller.{
  Gateway, ApiError, Condition, Outcome, done, after, fail, with_error, requeue_interval,
  gateway_retry_interval, phase_failed,
}
use ogo.Controller.Cluster.{
  World, History, Event, read, updated, status_updated, called, Role, role_user, role_admin,
  role_unspecified, Rpc, add_workspace_member, remove_workspace_member, list_workspace_members,
  Code, already_exists, RpcError,
}
use ogo.Controller.Grpc.{resolve_gateway, gateway_client, rpc}

pub record MemberSpec : Type 0 where
  pub workspace : String
  pub service_account : String
  pub role : String

pub record MemberStatus : Type 0 where
  pub phase : String
  pub observed_generation : ℕ
  pub conditions : List Condition
  pub reconciled_subject : String

pub record Member : Type 0 where
  pub namespace : String
  pub generation : ℕ
  pub deleting : Bool
  pub finalizers : List String
  pub spec : MemberSpec
  pub status : MemberStatus

abbrev pub workspace_member_finalizer : String
workspace_member_finalizer = "ogo.aknochow.io/workspace-member-cleanup"

-- `errMembershipRemoved` and a cause, or any other error
pub data AddError : Type 0 where
  membership_removed add_failed : String → AddError

abbrev pub add_error_text : AddError → String
add_error_text (membership_removed cause) =
    "workspace membership removed but re-add failed: AddWorkspaceMember (role change): " ++ cause
add_error_text (add_failed message) = message

unfoldable pub workspace_role_from_spec : String → Role
workspace_role_from_spec role = if role == "admin" then role_admin else role_user

abbrev pub same_role : Role → Role → Bool
same_role role_unspecified role_unspecified = true
same_role role_user role_user = true
same_role role_admin role_admin = true
same_role _ _ = false

abbrev pub is_already_exists : Code → Bool
is_already_exists already_exists = true
is_already_exists _ = false

-- The role of the first member with this subject.
unfoldable pub find_role : String → List (String × Role) → Option Role
find_role subject members = lookup subject members

abbrev pub with_subject : String → Member → Member
with_subject subject m = record m { status = record m.status { reconciled_subject = subject } }

abbrev pub gateway_unreachable_message : String
gateway_unreachable_message = "failed to reach the OpenShell gateway; see operator logs for details"

-- What the reconciler reads besides: a ServiceAccount's uid, and the members of a workspace.
pub record MemberWorld : Type 0 where
  pub world : World MemberStatus
  pub get_service_account :
      History MemberStatus → (namespace name : String) → Result ApiError String
  pub list_members :
      History MemberStatus → (token workspace : String) → Result RpcError (List (String × Role))

abbrev pub MemberHistory : Type 0
MemberHistory = History MemberStatus

module _ (w : MemberWorld) where
  unfoldable pub set_not_ready :
      Member → (reason cause : String) → History MemberStatus → Outcome × History MemberStatus
  set_not_ready m reason cause h =
      let message = if reason == "GatewayUnreachable" then gateway_unreachable_message else cause in
      let condition : Condition = record {
        kind = "Ready";
        holds = false;
        reason = reason;
        message = message;
      } in
      let status : MemberStatus = record m.status {
        conditions = w.world.set_status_condition m.status.conditions condition;
        phase = phase_failed;
        observed_generation = m.generation;
      } in
      let answer = w.world.update_status h status in
      (
        elim answer [ none ↦ after gateway_retry_interval | some e ↦ fail e.message ],
        status_updated status answer ∷ h,
      )
