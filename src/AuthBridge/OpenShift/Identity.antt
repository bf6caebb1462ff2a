-- ===== src/AuthBridge/OpenShift/Identity.antt =====
-- What `GetUserInfo` of internal/authbridge/openshift.go promises about the identity it returns.
use ogo.Base.{
  String, ◌≡◌, ◌≢◌, ◌↔◌, ◌⊎◌, inl, inr, refl, true, false, some, List, [], ◌∷◌, arith, ◌==◌, eq_iff,
  starts_with, if◌then◌else◌, Bool-cases, Option-cases, subst, nat_eq, ◌||◌,
}
use ogo.Base.Result.{Result, ok, >>=-eq-ok, or_err}
use ogo.AuthBridge.{UserInfo}
use ogo.AuthBridge.Access.{IsAmong}
use ogo.AuthBridge.OpenShift.{
  Platform, TokenReview, OpenShiftClient, ApiError, HttpReply, invalid_request, failed, response,
  user_request, sa_token, check_group_memberships, append_unseen, accept_review, answered, expect,
  bad_request, bad_body, bad_status, review_request, token_review_uid, complete_service_account,
  get_user_info,
}
use ogo.AuthBridge.OpenShift.Groups.{HoldsUser, check_group_memberships_iff, append_unseen_iff}

abbrev pub sa_prefix : String
sa_prefix = "system:serviceaccount:"

accept_review-ne-nil :
    (review : TokenReview) (uid : String) → accept_review review ≡ ok uid → uid ≢ ""
unfolding accept_review
accept_review-ne-nil review uid h = ground (arith, eq_iff review.uid "", eq_iff uid "")

token_review_uid-ne-nil :
    (p : Platform) (c : OpenShiftClient) (token uid : String)
    → token_review_uid p c token ≡ ok uid
    → uid ≢ ""
unfolding token_review_uid
token_review_uid-ne-nil p c token uid h =
    let (own_token, _, h₁) = >>=-eq-ok (sa_token p c) _ h in
    let (req_body, _, h₂) = >>=-eq-ok (or_err bad_request (p.marshal_review token)) _ h₁ in
    let ((status, body), _, h₃) =
      >>=-eq-ok (answered (p.do_sa (review_request p own_token req_body))) _ h₂ in
    let (_, _, h₄) =
      >>=-eq-ok (expect (nat_eq status 201 || nat_eq status 200) (bad_status status)) _ h₃ in
    let (review, _, h₅) = >>=-eq-ok (or_err bad_body (p.decode_review body)) accept_review h₄ in
    accept_review-ne-nil review uid h₅

module _ (p : Platform) (c : OpenShiftClient) (access_token : String) (names : List String) where
  -- What the users API answered for the token.
  pub record Answered (raw : UserInfo) : Type 0 where
    pub body : String
    pub answer : p.do_http (user_request p access_token) ≡ response 200 body
    pub decoded : p.decode_user body ≡ some raw

  abbrev finish : UserInfo → Result ApiError UserInfo
  finish raw =
      if starts_with raw.name sa_prefix
      then complete_service_account p c access_token names raw
      else ok raw

  inversion :
      (r : HttpReply) (info : UserInfo)
      → p.do_http (user_request p access_token) ≡ r
      → get_user_info p c access_token names ≡ ok info
      → (raw : UserInfo) × Answered raw × (finish raw ≡ ok info)
  unfolding get_user_info
  inversion invalid_request info e h = absurd (ground arith)
  inversion failed info e h = absurd (ground arith)
  inversion (response status body) info e h = elim (Option-cases (p.decode_user body)) [
    | inl undecoded ↦ absurd (ground arith)
    | inr (raw, decoded) ↦
        (raw, record { body = body; answer = ground arith; decoded = decoded }, ground arith)
  ]

  -- What a service account's identity is made of.
  pub record Completed (raw info : UserInfo) : Type 0 where
    pub same_name : info.name ≡ raw.name
    pub has_uid : info.uid ≢ ""
    pub kept_uid : raw.uid ≢ "" → info.uid ≡ raw.uid
    pub own_token : String
    pub read : (names ≡ []) ⊎ (sa_token p c ≡ ok own_token)
    pub groups :
        (a : String)
        → IsAmong a info.groups
          ↔ (IsAmong a raw.groups ⊎ (IsAmong a names × (a ≢ "") × HoldsUser p own_token raw.name a))

  uid_part : UserInfo → Result ApiError String
  uid_part raw = if raw.uid == "" then token_review_uid p c access_token else ok raw.uid

  uid_part_sound :
      (raw : UserInfo) (uid : String)
      → uid_part raw ≡ ok uid
      → (uid ≢ "") × (raw.uid ≢ "" → uid ≡ raw.uid)
  unfolding uid_part
  uid_part_sound raw uid h = elim (Bool-cases (raw.uid == "")) [
    | inl missing ↦ (
      token_review_uid-ne-nil p c access_token uid (ground arith),
      λ n. absurd (n ((eq_iff raw.uid "").0 missing)),
    )
    | inr present ↦ (ground (arith, eq_iff raw.uid ""), λ n. ground arith)
  ]

module _ (p : Platform) (c : OpenShiftClient) (access_token : String) where
  with_groups :
      (names : List String) (raw info : UserInfo)
      → complete_service_account p c access_token names raw ≡ ok info
      → (groups : List String) × (uid : String) × (uid_part p c access_token names raw ≡ ok uid)
        × (info ≡ record raw { groups = groups; uid = uid })
        × (((names ≡ []) × (groups ≡ raw.groups))
            ⊎ ((extra : List String) × (check_group_memberships p c raw.name names ≡ ok extra)
                × (groups ≡ append_unseen raw.groups extra raw.groups)))
  unfolding complete_service_account uid_part
  with_groups [] raw info h =
      let (uid, got, last) = >>=-eq-ok _ _ h in
      (raw.groups, uid, got, ground arith, inl (refl, refl))
  with_groups (n ∷ ns) raw info h =
      let (groups, joined, h₁) = >>=-eq-ok {A = List String} _ _ h in
      let (extra, checked, h₂) = >>=-eq-ok {A = List String} _ _ joined in
      let (uid, got, last) = >>=-eq-ok {A = String} _ _ h₁ in
      (groups, uid, got, ground arith, inr (extra, checked, ground arith))

  -- The groups of `Completed`, from the two ways in which they are made.
  groups_sound :
      (names : List String) (raw : UserInfo) (groups : List String)
      → ((names ≡ []) × (groups ≡ raw.groups))
        ⊎ ((extra : List String) × (check_group_memberships p c raw.name names ≡ ok extra)
            × (groups ≡ append_unseen raw.groups extra raw.groups))
      → (own_token : String) × ((names ≡ []) ⊎ (sa_token p c ≡ ok own_token))
        × ((a : String)
            → IsAmong a groups ↔ (
                IsAmong a raw.groups
                ⊎ (IsAmong a names × (a ≢ "") × HoldsUser p own_token raw.name a)))
  groups_sound names raw groups (inl (none_asked, same)) = (
    "",
    inl none_asked,
    λ a. rw (none_asked, same) (λ k. inl k, elim [ inl k ↦ k | inr n ↦ absurd n.0 ]),
  )
  groups_sound names raw groups (inr (extra, checked, joined)) =
      let (own_token, read, exact) = check_group_memberships_iff p c raw.name names extra checked in
      (
        own_token,
        inr read,
        λ a.
            rw joined
              (ground (arith, exact a, append_unseen_iff a raw.groups extra raw.groups (λ g k. k))),
      )

  complete_sound :
      (names : List String) (raw info : UserInfo)
      → complete_service_account p c access_token names raw ≡ ok info
      → Completed p c access_token names raw info
  complete_sound names raw info h =
      let (groups, uid, got, built, how) = with_groups names raw info h in
      let (has, kept) = uid_part_sound p c access_token names raw uid got in
      let (own_token, read, exact) = groups_sound names raw groups how in
      rw built (record {
        same_name = refl;
        has_uid = has;
        kept_uid = kept;
        own_token = own_token;
        read = read;
        groups = exact;
      })

  -- For a service account the result of GetUserInfo has the name that the users API answered, a
  -- uid that is not empty and is the answered one if that is not empty, and exactly the answered
  -- groups and those asked for that are not empty and whose group the API server says lists the
  -- name.
  pub get_user_info_service_account :
      (names : List String) (info : UserInfo)
      → get_user_info p c access_token names ≡ ok info
      → starts_with info.name sa_prefix ≡ true
      → (raw : UserInfo) × Answered p c access_token names raw
        × Completed p c access_token names raw info
  get_user_info_service_account names info h sa =
      let (raw, answered, finished) = inversion p c access_token names _ info refl h in
      elim (Bool-cases (starts_with raw.name sa_prefix)) [
        | inl yes_sa ↦ (raw, answered, complete_sound names raw info (ground arith))
        | inr other ↦ absurd (ground arith)
      ]

  -- For any identity but a service account the result of GetUserInfo is what the users API
  -- answered, unchanged.
  pub get_user_info_plain :
      (names : List String) (info : UserInfo)
      → get_user_info p c access_token names ≡ ok info
      → starts_with info.name sa_prefix ≡ false
      → Answered p c access_token names info
  get_user_info_plain names info h plain =
      let (raw, answered, finished) = inversion p c access_token names _ info refl h in
      elim (Bool-cases (starts_with raw.name sa_prefix)) [
        | inl sa ↦
            let completed = complete_sound names raw info (ground arith) in
            absurd (ground (arith, completed.same_name))
        | inr other ↦
            let same : raw ≡ info = ground arith in
            subst (Answered p c access_token names) same answered
      ]
