-- ===== src/Controller/Member/Calls.antt =====
-- internal/controller/openshellworkspacemember_controller.go: the calls of the gateway that give a
-- subject exactly one role in a workspace, and that take its membership away.
use Prim.Native.String.{◌++◌}
use ogo.Base.{String, Option, none, some, List, ◌∷◌, not, if◌then◌else◌}
use ogo.Base.Result.{Result, ok, err}
use ogo.Controller.{Gateway}
use ogo.Controller.Cluster.{
  called, Role, add_workspace_member, remove_workspace_member, list_workspace_members, RpcError,
}
use ogo.Controller.Grpc.{gateway_client, rpc}
use ogo.Controller.Member.{
  MemberHistory, MemberWorld, AddError, membership_removed, add_failed, same_role,
  is_already_exists, find_role,
}

module _ (w : MemberWorld) where
  unfoldable pub role_of_listed :
      String → String → Result RpcError (List (String × Role)) → Result String Role
  role_of_listed workspace subject (err e) = err ("ListWorkspaceMembers: " ++ e.message)
  role_of_listed workspace subject (ok members) = elim (find_role subject members) [
    | none ↦ err (
        "member "
        ++ (w.world.quote subject
            ++ (" not found in workspace "
                ++ (w.world.quote workspace ++ " despite AlreadyExists"))))
    | some role ↦ ok role
  ]

  -- the error of a call, if it is one
  abbrev pub error_of : {A : Type 0} → Result RpcError A → Option RpcError
  error_of (err e) = some e
  error_of (ok _) = none

  unfoldable pub find_member_role :
      (token workspace subject : String) → MemberHistory → Result String Role × MemberHistory
  unfolding role_of_listed
  find_member_role token workspace subject h =
      let answer = w.list_members h token workspace in
      (
        role_of_listed workspace subject answer,
        called token (list_workspace_members workspace) (error_of answer) ∷ h,
      )

  -- the second `AddWorkspaceMember` of a change of role
  unfoldable pub re_added : Option RpcError × MemberHistory → Option AddError × MemberHistory
  re_added (none, h) = (none, h)
  re_added (some e, h) = (some (membership_removed e.message), h)

  unfoldable pub re_add :
      (token workspace subject : String)
      → Role
      → Option RpcError × MemberHistory
      → Option AddError × MemberHistory
  re_add token workspace subject role (some e, h) =
      (some (add_failed ("RemoveWorkspaceMember (role change): " ++ e.message)), h)
  re_add token workspace subject role (none, h) =
      re_added (rpc w.world token (add_workspace_member workspace subject role) h)

  unfoldable pub change_role :
      (token workspace subject : String)
      → Role
      → Result String Role × MemberHistory
      → Option AddError × MemberHistory
  change_role token workspace subject role (err e, h) =
      (some (add_failed ("looking up existing member after AlreadyExists: " ++ e)), h)
  change_role token workspace subject role (ok existing, h) =
      if same_role existing role
      then (none, h)
      else re_add token workspace subject role
          (rpc w.world token (remove_workspace_member workspace subject) h)

  unfoldable pub added :
      (token workspace subject : String)
      → Role
      → Option RpcError × MemberHistory
      → Option AddError × MemberHistory
  added token workspace subject role (none, h) = (none, h)
  added token workspace subject role (some e, h) =
      if not (is_already_exists e.code)
      then (some (add_failed ("AddWorkspaceMember: " ++ e.message)), h)
      else change_role token workspace subject role (find_member_role token workspace subject h)

  unfoldable pub add_member_with_client :
      (token workspace subject : String) → Role → MemberHistory → Option AddError × MemberHistory
  unfolding added change_role re_add re_added find_member_role
  add_member_with_client token workspace subject role h =
      added token workspace subject role
        (rpc w.world token (add_workspace_member workspace subject role) h)

  unfoldable pub removed : Option RpcError × MemberHistory → Option String × MemberHistory
  removed (none, h) = (none, h)
  removed (some e, h) = (some ("RemoveWorkspaceMember: " ++ e.message), h)

  unfoldable pub remove_member_with_client :
      (token workspace subject : String) → MemberHistory → Option String × MemberHistory
  unfolding removed
  remove_member_with_client token workspace subject h =
      removed (rpc w.world token (remove_workspace_member workspace subject) h)

  unfoldable pub remove_over :
      (workspace subject : String)
      → Result String String × MemberHistory
      → Option String × MemberHistory
  remove_over workspace subject (err e, h) = (some e, h)
  remove_over workspace subject (ok token, h) = remove_member_with_client token workspace subject h

  unfoldable pub remove_member :
      Gateway → (workspace subject : String) → MemberHistory → Option String × MemberHistory
  unfolding remove_over remove_member_with_client
  remove_member gw workspace subject h = remove_over workspace subject (gateway_client w.world gw h)
