-- ===== src/AuthBridge/Access.antt =====
-- `isAuthorized` and `mapRoles` of internal/authbridge/server.go: who may have a token, with which
-- roles.
use ogo.Base.{
  String, ◌≡◌, ◌≢◌, ◌↔◌, ◌⊎◌, inl, inr, Bool, true, false, List, [], ◌∷◌, ◌++◌, arith, ◌==◌, eq_iff,
  if◌then◌else◌, contains, Bool-cases, refl,
}
use ogo.AuthBridge.{Config}

abbrev pub role_user : String
role_user = "openshell-user"

abbrev pub role_admin : String
role_admin = "openshell-admin"

unfoldable pub is_authorized : Config → String → List String → Bool
unfolding contains
is_authorized c username groups =
    if username == "kube:admin"
    then true
    else if c.user_group == ""
    then false
    else contains c.user_group groups

-- the loop of `mapRoles`, with its `break` at the first group that is the admin group
append_admin : String → List String → List String → List String
append_admin admin_group [] roles = roles
append_admin admin_group (g ∷ groups) roles =
    if g == admin_group then roles ++ role_admin ∷ [] else append_admin admin_group groups roles

unfoldable pub map_roles : Config → List String → List String
unfolding append_admin
map_roles c groups =
    let roles = role_user ∷ [] in
    if c.admin_group == "" then roles else append_admin c.admin_group groups roles

-- Membership in a list of texts, as a type.
abbrev pub IsAmong : String → List String → Type 0
IsAmong a [] = ⊥
IsAmong a (x ∷ xs) = (x ≡ a) ⊎ IsAmong a xs

pub contains_iff : (a : String) (xs : List String) → (contains a xs ≡ true) ↔ IsAmong a xs
unfolding contains
contains_iff a [] = (λ e. cc, λ h. absurd h)
contains_iff a (x ∷ xs) = ground (arith, eq_iff x a, contains_iff a xs)

-- A user is authorized exactly when it is the cluster administrator, or a user group is configured
-- and is one of the user's groups.
pub is_authorized_iff :
    (c : Config) (username : String) (groups : List String)
    → (is_authorized c username groups ≡ true)
      ↔ ((username ≡ "kube:admin") ⊎ ((c.user_group ≢ "") × IsAmong c.user_group groups))
unfolding is_authorized
is_authorized_iff c username groups =
    ground (
      arith,
      eq_iff username "kube:admin",
      eq_iff c.user_group "",
      contains_iff c.user_group groups,
    )

append_admin_cases :
    (a : String) (gs roles : List String)
    → append_admin a gs roles ≡ (if contains a gs then roles ++ role_admin ∷ [] else roles)
unfolding append_admin contains
append_admin_cases a [] roles = refl
append_admin_cases a (g ∷ gs) roles = ground (arith, append_admin_cases a gs roles)

-- The groups make a user an administrator of the gateway.
abbrev pub IsAdmin : Config → List String → Type 0
IsAdmin c groups = (c.admin_group ≢ "") × IsAmong c.admin_group groups

-- The roles are the user role and the admin role if an admin group is configured and is one of the
-- user's groups, and the user role alone if not.
pub map_roles_cases :
    (c : Config) (groups : List String)
    → ((map_roles c groups ≡ role_user ∷ role_admin ∷ []) × IsAdmin c groups)
      ⊎ ((map_roles c groups ≡ role_user ∷ []) × (¬ IsAdmin c groups))
unfolding map_roles
map_roles_cases c groups = elim (Bool-cases (c.admin_group == "")) [
  | inl unset ↦ inr (rw unset, λ h. h.0 ((eq_iff _ _).0 unset))
  | inr set ↦ elim (Bool-cases (contains c.admin_group groups)) [
    | inl among ↦ inl (
      rw (set, append_admin_cases, among),
      ground (arith, eq_iff c.admin_group "", contains_iff c.admin_group groups),
    )
    | inr not_among ↦
        inr (
          rw (set, append_admin_cases, not_among),
          ground (arith, contains_iff c.admin_group groups),
        )
  ]
]
