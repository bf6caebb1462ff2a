-- ===== src/AuthBridge/OpenShift/Groups.antt =====
-- What `GetUserInfo` of internal/authbridge/openshift.go promises about the groups and the uid.
use ogo.Base.{
  String, subst, ◌≡◌, ◌≢◌, ◌↔◌, ◌⊎◌, inl, inr, Bool, true, false, List, [], ◌∷◌, ◌++◌, arith, ◌==◌,
  eq_iff, if◌then◌else◌, contains, Bool-cases, refl, some, Option-cases,
}
use ogo.Base.Result.{ok, >>=-eq-ok}
use ogo.AuthBridge.Access.{IsAmong, contains_iff}
use ogo.AuthBridge.OpenShift.{
  Platform, OpenShiftClient, HttpReply, invalid_request, failed, response, candidate, lists_user,
  group_request, group_has, check_groups, check_group_memberships, sa_token, append_unseen,
}

IsAmong-append :
    (a : String) (xs ys : List String) → IsAmong a (xs ++ ys) ↔ (IsAmong a xs ⊎ IsAmong a ys)
IsAmong-append a [] ys = (λ h. inr h, λ h. elim h [ inl n ↦ absurd n | inr k ↦ k ])
IsAmong-append a (x ∷ xs) ys = ground (arith, IsAmong-append a xs ys)

unseen_step :
    (a g : String) (seen groups : List String)
    → (IsAmong g seen → IsAmong g groups)
    → IsAmong a (if contains g seen then groups else groups ++ g ∷ [])
      ↔ (IsAmong a groups ⊎ (g ≡ a))
unseen_step a g seen groups h = elim (Bool-cases (contains g seen)) [
  | inl old ↦ rw old (
    λ k. inl k,
    elim [ inl k ↦ k | inr e ↦ subst (λ x. IsAmong x groups) e (h ((contains_iff g seen).0 old)) ],
  )
  | inr new ↦ rw new (ground (arith, IsAmong-append a groups (g ∷ [])))
]

-- The merged groups are the user's own and the extra ones.
pub append_unseen_iff :
    (a : String) (seen extra groups : List String)
    → ((g : String) → IsAmong g seen → IsAmong g groups)
    → IsAmong a (append_unseen seen extra groups) ↔ (IsAmong a groups ⊎ IsAmong a extra)
unfolding append_unseen
append_unseen_iff a seen [] groups h = ground arith
append_unseen_iff a seen (g ∷ gs) groups h = ground (
  arith,
  unseen_step a g seen groups (h g),
  append_unseen_iff a seen gs (if contains g seen then groups else groups ++ g ∷ [])
      (λ x k. (unseen_step x g seen groups (h g)).1 (inl (h x k))),
)

module _ (p : Platform) where
  -- Some entry of a group's users stands for the user.
  abbrev pub IsListed : String → List String → Type 0
  IsListed username [] = ⊥
  IsListed username (u ∷ users) = (candidate p u ≡ some username) ⊎ IsListed username users

  lists_user_iff :
      (username : String) (users : List String)
      → (lists_user p username users ≡ true) ↔ IsListed username users
  unfolding lists_user
  lists_user_iff username [] = ground arith
  lists_user_iff username (u ∷ users) = elim (Option-cases (candidate p u)) [
    | inl undecoded ↦ rw undecoded (ground (arith, lists_user_iff username users))
    | inr (name, decoded) ↦
        rw decoded (ground (arith, lists_user_iff username users, eq_iff name username))
  ]

  -- The API server says that the group exists and lists the user.
  pub record HoldsUser (own_token username g : String) : Type 0 where
    pub body : String
    pub users : List String
    pub answer : p.do_sa (group_request p own_token g) ≡ response 200 body
    pub decoded : p.decode_group_users body ≡ some users
    pub listed : IsListed username users

  module _ (c : OpenShiftClient) (own_token username : String) where
    reply_sound :
        (g : String) (r : HttpReply)
        → p.do_sa (group_request p own_token g) ≡ r
        → group_has p c own_token username g ≡ ok true
        → HoldsUser own_token username g
    unfolding group_has
    reply_sound g invalid_request e h = absurd (ground arith)
    reply_sound g failed e h = absurd (ground arith)
    reply_sound g (response status body) e h = elim (Option-cases (p.decode_group_users body)) [
      | inl undecoded ↦ absurd (ground arith)
      | inr (users, decoded) ↦ record {
        body = body;
        users = users;
        answer = ground arith;
        decoded = decoded;
        listed = (lists_user_iff username users).0 (ground arith);
      }
    ]

    group_has_iff :
        (g : String)
        → (group_has p c own_token username g ≡ ok true) ↔ HoldsUser own_token username g
    group_has_iff g = (
      reply_sound g _ refl,
      λ h.
          unfold group_has in
          ground (arith, h.answer, h.decoded, (lists_user_iff username h.users).1 h.listed),
    )

    -- A name that the loop keeps.
    abbrev IsMatched : String → Type 0
    IsMatched g = (g ≢ "") × (group_has p c own_token username g ≡ ok true)

    member_test :
        (g : String) (b : Bool)
        → (if g == "" then ok false else group_has p c own_token username g) ≡ ok b
        → (b ≡ true) ↔ IsMatched g
    member_test g b e = ground (arith, eq_iff g "")

    check_groups_iff :
        (a : String) (gs matched found : List String)
        → check_groups p c own_token username gs matched ≡ ok found
        → IsAmong a found ↔ (IsAmong a matched ⊎ (IsAmong a gs × IsMatched a))
    unfolding check_groups
    check_groups_iff a [] matched found e = ground arith
    check_groups_iff a (g ∷ gs) matched found e =
        let (b, tested, rest) = >>=-eq-ok _ _ e in
        let ih = check_groups_iff a gs (if b then matched ++ g ∷ [] else matched) found rest in
        let test = member_test g b tested in
        ground (arith, ih, test, IsAmong-append a matched (g ∷ []))

  module _ (c : OpenShiftClient) (username : String) (names : List String) where
    -- The names that a successful check returns are exactly the names asked for that are not empty
    -- and whose group the API server says lists the user, under the token that the bridge read.
    pub check_group_memberships_iff :
        (found : List String)
        → check_group_memberships p c username names ≡ ok found
        → (own_token : String) × (sa_token p c ≡ ok own_token)
          × ((a : String)
              → IsAmong a found ↔ (IsAmong a names × (a ≢ "") × HoldsUser own_token username a))
    unfolding check_group_memberships
    check_group_memberships_iff found e =
        let (own_token, read, rest) = >>=-eq-ok _ _ e in
        (
          own_token,
          read,
          λ a.
              let (to, from) = check_groups_iff c own_token username a names [] found rest in
              let (sound, complete) = group_has_iff c own_token username a in
              (
                λ k. elim (to k) [
                  | inl none_yet ↦ absurd none_yet
                  | inr (among, (named, held)) ↦ (among, named, sound held)
                ],
                λ (among, named, held). from (inr (among, (named, complete held))),
              ),
        )
