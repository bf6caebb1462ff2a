-- ===== src/Controller/Member/Synced.antt =====
-- What a status says that internal/controller/openshellworkspacemember_controller.go writes with
-- the phase "Synced".
use Prim.Native.String.{◌++◌}
use ogo.Base.{
  String, ◌≡◌, ◌≢◌, refl, sym, ◌∙◌, Option, none, some, ◌∷◌, not, inl, inr, Bool-cases,
  Option-cases, if◌then◌else◌, arith, eq_iff, ◌==◌, ◌&&◌,
}
use ogo.Base.Result.{Result, ok, err}
use ogo.Controller.{Gateway, ApiError, phase_failed}
use ogo.Controller.Cluster.{read, called, status_updated, remove_workspace_member}
use ogo.Controller.Grpc.{rpc, resolve_gateway, gateway_client}
use ogo.Controller.Member.{
  MemberHistory, MemberStatus, Member, MemberWorld, AddError, workspace_role_from_spec,
  with_subject, set_not_ready, add_error_text,
}
use ogo.Controller.Member.Calls.{
  add_member_with_client, remove_member_with_client, removed, remove_member,
}
use ogo.Controller.Member.Sync.{
  synced_status, keep_subject, finish_sync, grant_role, after_stale, replace_identity,
  over_connection, sync_identity, sync_at, reconcile_sync, lose_identity, account_text, after_lost,
}
use ogo.Controller.Member.Faithful.{Faithful, add_member-Has, add_member-keeps}

module _ (w : MemberWorld) (g : Faithful w) (m : Member) (h : MemberHistory) where
  -- The subject of the status is the ServiceAccount's uid and has the role of the spec, and one
  -- that the status named before and that is not this one has no role any more.
  pub record Established (status : MemberStatus) (k : MemberHistory) : Type 0 where
    pub is_uid :
        w.get_service_account (read ∷ h) m.namespace m.spec.service_account
        ≡ ok status.reconciled_subject
    pub not_empty : status.reconciled_subject ≢ ""
    pub granted :
        g.role_of k m.spec.workspace status.reconciled_subject
        ≡ some (workspace_role_from_spec m.spec.role)
    pub revoked :
        m.status.reconciled_subject ≢ ""
        → m.status.reconciled_subject ≢ status.reconciled_subject
        → g.role_of k m.spec.workspace m.status.reconciled_subject ≡ none

  -- What holds if the last thing that happened is a write of the status with the phase "Synced".
  abbrev pub SyncedIsEstablished : MemberHistory → Type 0
  SyncedIsEstablished (status_updated status answer ∷ k) =
      status.phase ≡ "Synced" → Established status k
  SyncedIsEstablished _ = Unit

  set_not_ready-fine :
      (n : Member) (reason cause : String) (k : MemberHistory)
      → SyncedIsEstablished (set_not_ready w n reason cause k).1
  unfolding set_not_ready
  set_not_ready-fine n reason cause k =
      λ impossible. absurd (ground (arith, eq_iff phase_failed "Synced"))

  -- The subject that is synchronized, and what is known when its role is granted.
  module _ (subject : String)
      (is_uid : w.get_service_account (read ∷ h) m.namespace m.spec.service_account ≡ ok subject)
      (not_empty : subject ≢ "") where
    abbrev OldIsGone : MemberHistory → Type 0
    OldIsGone k =
        m.status.reconciled_subject ≢ ""
        → m.status.reconciled_subject ≢ subject
        → g.role_of k m.spec.workspace m.status.reconciled_subject ≡ none

    finish_sync-fine :
        (kept : String) (r : Option AddError × MemberHistory)
        → (r.0 ≡ none
            → g.role_of r.1 m.spec.workspace subject ≡ some (workspace_role_from_spec m.spec.role))
        → OldIsGone r.1
        → SyncedIsEstablished (finish_sync w (with_subject kept m) subject r).1
    unfolding finish_sync synced_status
    finish_sync-fine kept (some e, k) has gone =
        set_not_ready-fine (keep_subject w e (with_subject kept m)) "GatewayUnreachable"
          (add_error_text e) k
    finish_sync-fine kept (none, k) has gone =
        λ _. record { is_uid = is_uid; not_empty = not_empty; granted = has refl; revoked = gone }

    grant_role-fine :
        (token : String) (kept : String) (k : MemberHistory)
        → OldIsGone k
        → SyncedIsEstablished (grant_role w token (with_subject kept m) subject k).1
    unfolding grant_role
    grant_role-fine token kept k gone =
        let role = workspace_role_from_spec m.spec.role in
        let old = m.status.reconciled_subject in
        finish_sync-fine kept (add_member_with_client w token m.spec.workspace subject role k)
          (add_member-Has w g token m.spec.workspace subject role k)
          (λ some_old other.
            add_member-keeps w g token m.spec.workspace subject old (λ e. other (sym e)) role k
            ∙ gone some_old other)

    replace_identity-fine :
        (token : String) (k : MemberHistory)
        → SyncedIsEstablished (replace_identity w token m subject k).1
    unfolding replace_identity remove_member_with_client removed after_stale rpc
    replace_identity-fine token k =
        let old = m.status.reconciled_subject in
        elim (Bool-cases (not (old == "") && not (old == subject))) [
          | inl stale ↦
              rw (stale, if◌then◌else◌)
                (let call = remove_workspace_member m.spec.workspace old in
                  elim (Option-cases (w.world.call k token call)) [
                    | inl went ↦
                        rw (went, removed, after_stale)
                          (grant_role-fine token "" (called token call none ∷ k)
                            (λ _ _. g.removes k token m.spec.workspace old went))
                    | inr (e, failed) ↦
                        rw (failed, removed, after_stale)
                          (set_not_ready-fine m "GatewayUnreachable"
                            ("removing stale membership for recreated identity: "
                              ++ ("RemoveWorkspaceMember: " ++ e.message))
                            (called token call (some e) ∷ k))
                  ])
          | inr fresh ↦
              rw (fresh, if◌then◌else◌)
                (grant_role-fine token old k
                  (λ some_old other. absurd (ground (arith, eq_iff old "", eq_iff old subject))))
        ]

    over_connection-fine :
        (r : Result String String × MemberHistory)
        → SyncedIsEstablished (over_connection w m subject r).1
    unfolding over_connection
    over_connection-fine (err e, k) =
        set_not_ready-fine m "GatewayUnreachable" ("connecting to gateway: " ++ e) k
    over_connection-fine (ok token, k) = replace_identity-fine token k

  after_lost-fine : (r : Option String × MemberHistory) → SyncedIsEstablished (after_lost w m r).1
  unfolding after_lost
  after_lost-fine (some e, k) =
      set_not_ready-fine m "GatewayUnreachable"
        ("removing stale membership for a deleted identity: " ++ e) k
  after_lost-fine (none, k) =
      set_not_ready-fine (with_subject "" m) "IdentityNotFound" (account_text w m ++ " not found") k

  lose_identity-fine :
      (gw : Gateway) (k : MemberHistory) → SyncedIsEstablished (lose_identity w gw m k).1
  unfolding lose_identity
  lose_identity-fine gw k =
      let old = m.status.reconciled_subject in
      elim (Bool-cases (not (old == ""))) [
        | inl some_old ↦
            rw (some_old, if◌then◌else◌)
              (after_lost-fine (remove_member w gw m.spec.workspace old k))
        | inr none_left ↦
            rw (none_left, if◌then◌else◌)
              (set_not_ready-fine m "IdentityNotFound" (account_text w m ++ " not found") k)
      ]

  sync_identity-fine :
      (gw : Gateway) (k : MemberHistory) (r : Result ApiError String)
      → w.get_service_account (read ∷ h) m.namespace m.spec.service_account ≡ r
      → SyncedIsEstablished (sync_identity w gw m r (read ∷ k)).1
  unfolding sync_identity
  sync_identity-fine gw k (err e) answered = elim (Bool-cases (not e.not_found)) [
    | inl broken ↦ rw (broken, if◌then◌else◌) tt
    | inr gone ↦ rw (gone, if◌then◌else◌) (lose_identity-fine gw (read ∷ k))
  ]
  sync_identity-fine gw k (ok uid) answered = elim (Bool-cases (uid == "")) [
    | inl empty ↦
        rw (empty, if◌then◌else◌)
          (set_not_ready-fine m "IdentityNotFound" (account_text w m ++ " has no uid") (read ∷ k))
    | inr given ↦
        rw (given, if◌then◌else◌)
          (over_connection-fine uid answered (λ e. absurd (ground (arith, eq_iff uid "")))
            (gateway_client w.world gw (read ∷ k)))
  ]

  sync_at-fine : (r : Result String Gateway) → SyncedIsEstablished (sync_at w m (r, read ∷ h)).1
  unfolding sync_at
  sync_at-fine (err e) = set_not_ready-fine m "GatewayNotFound" e (read ∷ h)
  sync_at-fine (ok gw) =
      sync_identity-fine gw (read ∷ h)
        (w.get_service_account (read ∷ h) m.namespace m.spec.service_account) refl

  -- If no one else changes the members of the workspace, then when a reconcile of a membership
  -- ends with a write of the status whose phase is "Synced", the status names the uid of the
  -- ServiceAccount, the gateway has that subject with the role of the spec, and a subject that the
  -- status named before and that is another has no role any more.
  pub reconcile_sync-SyncedIsEstablished : SyncedIsEstablished (reconcile_sync w m h).1
  unfolding reconcile_sync resolve_gateway
  reconcile_sync-SyncedIsEstablished = sync_at-fine (resolve_gateway w.world h).0
