-- ===== src/Controller/Member/Faithful.antt =====
-- What a gateway promises about the members of a workspace, and what adding a member at
-- internal/controller/openshellworkspacemember_controller.go makes of it.
use ogo.Base.{
  String, ◌≡◌, ◌≢◌, refl, ◌∙◌, ap, true, Option, none, some, List, ◌∷◌, inl, inr, Bool-cases,
  Option-cases, if◌then◌else◌, arith,
}
use ogo.Base.Result.{Result, Result-cases, ok, err}
use ogo.Controller.Cluster.{
  called, Role, RpcError, add_workspace_member, remove_workspace_member, list_workspace_members,
  role_unspecified, role_user, role_admin,
}
use ogo.Controller.Grpc.{rpc}
use ogo.Controller.Member.{
  MemberHistory, MemberWorld, AddError, find_role, same_role, is_already_exists,
}
use ogo.Controller.Member.Calls.{
  add_member_with_client, added, change_role, re_add, re_added, find_member_role, role_of_listed,
  error_of,
}

-- The gateway keeps a role for each member, which only its own calls change: a call that succeeds
-- does what it says, and no call touches another subject. `RoleOf h workspace subject` is the role
-- after the history `h`.
pub record Faithful (w : MemberWorld) : Type 0 where
  pub role_of : MemberHistory → (workspace subject : String) → Option Role
  pub adds :
      (h : MemberHistory) (token workspace subject : String) (role : Role)
      → w.world.call h token (add_workspace_member workspace subject role) ≡ none
      → role_of
          (called token (add_workspace_member workspace subject role) none ∷ h)
          workspace
          subject
        ≡ some role
  pub removes :
      (h : MemberHistory) (token workspace subject : String)
      → w.world.call h token (remove_workspace_member workspace subject) ≡ none
      → role_of
          (called token (remove_workspace_member workspace subject) none ∷ h)
          workspace
          subject
        ≡ none
  pub lists :
      (h : MemberHistory) (token workspace subject : String) (members : List (String × Role))
      → w.list_members h token workspace ≡ ok members
      → find_role subject members ≡ role_of h workspace subject
  pub list_keeps :
      (h : MemberHistory) (token workspace subject : String) (e : Option RpcError)
      → role_of (called token (list_workspace_members workspace) e ∷ h) workspace subject
        ≡ role_of h workspace subject
  pub add_keeps :
      (h : MemberHistory) (token workspace subject other : String) (role : Role)
      (e : Option RpcError)
      → subject ≢ other
      → role_of (called token (add_workspace_member workspace subject role) e ∷ h) workspace other
        ≡ role_of h workspace other
  pub remove_keeps :
      (h : MemberHistory) (token workspace subject other : String) (e : Option RpcError)
      → subject ≢ other
      → role_of (called token (remove_workspace_member workspace subject) e ∷ h) workspace other
        ≡ role_of h workspace other

same_role_sound : (a b : Role) → same_role a b ≡ true → a ≡ b
same_role_sound role_unspecified role_unspecified h = refl
same_role_sound role_user role_user h = refl
same_role_sound role_admin role_admin h = refl
same_role_sound role_unspecified role_user h = cc
same_role_sound role_unspecified role_admin h = cc
same_role_sound role_user role_unspecified h = cc
same_role_sound role_user role_admin h = cc
same_role_sound role_admin role_unspecified h = cc
same_role_sound role_admin role_user h = cc

module _ (w : MemberWorld) (g : Faithful w) (token workspace subject : String) where
  -- After the calls the subject has the role, if they did not fail.
  abbrev pub Has : Role → Option AddError × MemberHistory → Type 0
  Has role r = r.0 ≡ none → g.role_of r.1 workspace subject ≡ some role

  re_add-Has :
      (role : Role) (r : Option RpcError × MemberHistory)
      → Has role (re_add w token workspace subject role r)
  unfolding re_add re_added rpc
  re_add-Has role (some e, h) = λ impossible. cc
  re_add-Has role (none, h) =
      let call = add_workspace_member workspace subject role in
      elim (Option-cases (w.world.call h token call)) [
        | inl went ↦ rw (went, re_added) (λ _. g.adds h token workspace subject role went)
        | inr (e, failed) ↦ rw (failed, re_added) (λ impossible. cc)
      ]

  -- the role of a subject that was found is the gateway's
  abbrev Found : Result String Role × MemberHistory → Type 0
  Found r = (existing : Role) → r.0 ≡ ok existing → g.role_of r.1 workspace subject ≡ some existing

  find_member_role-Found :
      (h : MemberHistory) → Found (find_member_role w token workspace subject h)
  unfolding find_member_role role_of_listed
  find_member_role-Found h existing found = elim (Result-cases (w.list_members h token workspace)) [
    | inl (members, answered) ↦ elim (Option-cases (find_role subject members)) [
      | inl missing ↦ absurd (ground (arith, answered, missing))
      | inr (role, listed) ↦ ground (
        arith,
        answered,
        listed,
        g.list_keeps h token workspace subject (error_of w (w.list_members h token workspace)),
        g.lists h token workspace subject members answered,
      )
    ]
    | inr (e, failed) ↦ absurd (ground (arith, failed))
  ]

  change_role-Has :
      (role : Role) (r : Result String Role × MemberHistory)
      → Found r
      → Has role (change_role w token workspace subject role r)
  unfolding change_role rpc
  change_role-Has role (err e, h) found = λ impossible. cc
  change_role-Has role (ok existing, h) found = elim (Bool-cases (same_role existing role)) [
    | inl equal ↦
        rw (equal, change_role)
          (λ _. found existing refl ∙ ap some (same_role_sound existing role equal))
    | inr other ↦
        rw (other, change_role)
          (re_add-Has role (rpc w.world token (remove_workspace_member workspace subject) h))
  ]

  -- If no one else changes the members of the workspace, then where adding a member succeeds the
  -- gateway has the subject with exactly the role asked for, whether or not it was a member
  -- before.
  pub add_member-Has :
      (role : Role) (h : MemberHistory)
      → Has role (add_member_with_client w token workspace subject role h)
  unfolding add_member_with_client added rpc
  add_member-Has role h =
      let call = add_workspace_member workspace subject role in
      elim (Option-cases (w.world.call h token call)) [
        | inl went ↦ rw (went, added) (λ _. g.adds h token workspace subject role went)
        | inr (e, failed) ↦
            let k : MemberHistory = called token call (some e) ∷ h in
            rw (failed, added)
              (elim (Bool-cases (is_already_exists e.code)) [
                | inl exists ↦
                    rw (exists, if◌then◌else◌)
                      (change_role-Has role (find_member_role w token workspace subject k)
                        (find_member_role-Found k))
                | inr other ↦ rw (other, if◌then◌else◌) (λ impossible. cc)
              ])
      ]

  -- The role of another subject in the same workspace stays.
  module _ (other : String) (different : subject ≢ other) where
    abbrev Kept : MemberHistory → MemberHistory → Type 0
    Kept h k = g.role_of k workspace other ≡ g.role_of h workspace other

    re_add-Kept :
        (role : Role) (h : MemberHistory) (r : Option RpcError × MemberHistory)
        → Kept h r.1
        → Kept h (re_add w token workspace subject role r).1
    unfolding re_add re_added rpc
    re_add-Kept role h (some e, k) kept = kept
    re_add-Kept role h (none, k) kept =
        let call = add_workspace_member workspace subject role in
        elim (Option-cases (w.world.call k token call)) [
          | inl went ↦
              rw (went, re_added)
                (g.add_keeps k token workspace subject other role none different ∙ kept)
          | inr (e, failed) ↦
              rw (failed, re_added)
                (g.add_keeps k token workspace subject other role (some e) different ∙ kept)
        ]

    change_role-Kept :
        (role : Role) (h : MemberHistory) (r : Result String Role × MemberHistory)
        → Kept h r.1
        → Kept h (change_role w token workspace subject role r).1
    unfolding change_role rpc
    change_role-Kept role h (err e, k) kept = kept
    change_role-Kept role h (ok existing, k) kept =
        let call = remove_workspace_member workspace subject in
        elim (Bool-cases (same_role existing role)) [
          | inl equal ↦ rw (equal, change_role) kept
          | inr changed ↦
              rw (changed, change_role)
                (re_add-Kept role h (rpc w.world token call k) (
                  g.remove_keeps k token workspace subject other (w.world.call k token call)
                    different
                  ∙ kept))
        ]

    pub add_member-keeps :
        (role : Role) (h : MemberHistory)
        → Kept h (add_member_with_client w token workspace subject role h).1
    unfolding add_member_with_client added rpc find_member_role
    add_member-keeps role h =
        let call = add_workspace_member workspace subject role in
        elim (Option-cases (w.world.call h token call)) [
          | inl went ↦
              rw (went, added) (g.add_keeps h token workspace subject other role none different)
          | inr (e, failed) ↦
              let k : MemberHistory = called token call (some e) ∷ h in
              let added_keeps : Kept h k =
                g.add_keeps h token workspace subject other role (some e) different in
              rw (failed, added)
                (elim (Bool-cases (is_already_exists e.code)) [
                  | inl exists ↦
                      rw (exists, if◌then◌else◌)
                        (change_role-Kept role h (find_member_role w token workspace subject k) (
                          g.list_keeps k token workspace other
                            (error_of w (w.list_members k token workspace))
                          ∙ added_keeps))
                  | inr refused ↦ rw (refused, if◌then◌else◌) added_keeps
                ])
        ]
