-- ===== src/Controller/Tests/Members.antt =====
-- A gateway that keeps the members of its workspaces, and the reconciler of a membership with it.
use ogo.Base.{
  String, ◌≡◌, ◌≢◌, refl, false, Option, none, some, [], ◌∷◌, ◌==◌, if◌then◌else◌, arith, eq_iff,
}
use ogo.Base.Result.{ok}
use ogo.Dict.{Dict, lookup, insert, remove, lookup-insert, lookup-remove}
use ogo.Controller.Cluster.{
  called, Role, role_user, role_admin, Rpc, add_workspace_member, remove_workspace_member,
  list_workspace_members, already_exists, RpcError,
}
use ogo.Controller.Grpc.{rpc}
use ogo.Controller.Member.{
  MemberHistory, MemberStatus, Member, MemberWorld, find_role, workspace_member_finalizer,
}
use ogo.Controller.Member.Calls.{add_member_with_client, find_member_role, added}
use ogo.Controller.Member.Sync.{reconcile_sync, reconcile_delete}
use ogo.Controller.Member.Faithful.{Faithful}
use ogo.Controller.Member.Synced.{SyncedIsEstablished, reconcile_sync-SyncedIsEstablished}
use ogo.Controller.Member.Cleanup.{Deletion, reconcile_delete-Deletion}
use ogo.Controller.Tests.Fixtures.{world}

applied : String → Rpc → Dict Role → Dict Role
applied workspace (add_workspace_member to subject role) members =
    if to == workspace then insert subject role members else members
applied workspace (remove_workspace_member from subject) members =
    if from == workspace then remove subject members else members
applied workspace _ members = members

-- The members that the successful calls leave.
members_of : String → MemberHistory → Dict Role
unfolding applied
members_of workspace [] = []
members_of workspace (called token c none ∷ h) = applied workspace c (members_of workspace h)
members_of workspace (_ ∷ h) = members_of workspace h

answer_add : Option Role → Option RpcError
answer_add none = none
answer_add (some _) = some (record { code = already_exists; message = "exists" })

call : MemberHistory → String → Rpc → Option RpcError
unfolding answer_add members_of find_role lookup insert remove
call h token (add_workspace_member workspace subject role) =
    answer_add (find_role subject (members_of workspace h))
call h token _ = none

abbrev members : MemberWorld
members = record {
  world = record (world MemberStatus) { call = call };
  get_service_account = λ h namespace name. ok "uid-new";
  list_members = λ h token workspace. ok (members_of workspace h);
}

list_kept :
    (h : MemberHistory) (token workspace subject : String) (e : Option RpcError)
    → find_role subject
        (members_of workspace (called token (list_workspace_members workspace) e ∷ h))
      ≡ find_role subject (members_of workspace h)
unfolding members_of applied find_role
list_kept h token workspace subject none = refl
list_kept h token workspace subject (some _) = refl

add_kept :
    (h : MemberHistory) (token workspace subject other : String) (role : Role) (e : Option RpcError)
    → subject ≢ other
    → find_role other
        (members_of workspace (called token (add_workspace_member workspace subject role) e ∷ h))
      ≡ find_role other (members_of workspace h)
unfolding members_of applied find_role
add_kept h token workspace subject other role (some e) n = refl
add_kept h token workspace subject other role none n = ground (
  arith,
  eq_iff workspace workspace,
  eq_iff subject other,
  lookup-insert subject other role (members_of workspace h),
)

remove_kept :
    (h : MemberHistory) (token workspace subject other : String) (e : Option RpcError)
    → subject ≢ other
    → find_role other
        (members_of workspace (called token (remove_workspace_member workspace subject) e ∷ h))
      ≡ find_role other (members_of workspace h)
unfolding members_of applied find_role
remove_kept h token workspace subject other (some e) n = refl
remove_kept h token workspace subject other none n = ground (
  arith,
  eq_iff workspace workspace,
  eq_iff subject other,
  lookup-remove subject other (members_of workspace h),
)

faithful : Faithful members
unfolding members_of applied call find_role
faithful = record {
  role_of = λ h workspace subject. find_role subject (members_of workspace h);
  adds = λ h token workspace subject role _. ground (
    arith,
    eq_iff workspace workspace,
    eq_iff subject subject,
    lookup-insert subject subject role (members_of workspace h),
  );
  removes = λ h token workspace subject _. ground (
    arith,
    eq_iff workspace workspace,
    eq_iff subject subject,
    lookup-remove subject subject (members_of workspace h),
  );
  lists = λ h token workspace subject ms e. cc;
  list_keeps = list_kept;
  add_keeps = add_kept;
  remove_keeps = remove_kept;
}

-- The old account and the new one are members already, the new one with another role.
abbrev start : MemberHistory
start =
    called "t" (add_workspace_member "ws" "uid-new" role_user) none
    ∷ called "t" (add_workspace_member "ws" "uid-old" role_admin) none
    ∷ []

abbrev member : Member
member = record {
  namespace = "ns";
  generation = 3;
  deleting = false;
  finalizers = workspace_member_finalizer ∷ [];
  spec = record { workspace = "ws"; service_account = "bot"; role = "admin" };
  status = record {
    phase = "Synced";
    observed_generation = 2;
    conditions = [];
    reconciled_subject = "uid-old";
  };
}

role_change_succeeds : (add_member_with_client members "t" "ws" "uid-new" role_admin start).0 ≡ none
unfolding add_member_with_client find_member_role added call members_of applied find_role lookup
    insert remove rpc
role_change_succeeds = refl

reconcile_sync-SyncedIsEstablished_example :
    SyncedIsEstablished members faithful member start (reconcile_sync members member start).1
reconcile_sync-SyncedIsEstablished_example =
    reconcile_sync-SyncedIsEstablished members faithful member start

reconcile_delete-Deletion_example :
    Deletion members member start (reconcile_delete members member start)
reconcile_delete-Deletion_example =
    reconcile_delete-Deletion members member start (λ e. cc ((eq_iff "uid-old" "").1 e))
