-- ===== src/Operator/Dependencies/Groups.antt =====
-- internal/controller/dep_groups.go: the OpenShift groups that the bridge asks for.
use Prim.Native.String.{◌++◌}
use ogo.Base.{append_one, String, Bool, true, false, some, List, [], ◌∷◌, ◌==◌, not, if◌then◌else◌}
use ogo.Base.Result.{Result, ok, err}
use ogo.Controller.{Gateway, ApiError, is_disabled}
use ogo.Operator.Value.{entry, end}
use ogo.Operator.Kube.{
  Key, key_of, Object, fresh, Api, K, ◌>>=◌, ◌>>◌, give, done, attempt, get, create, is_served,
}
use ogo.Operator.Dependencies.{ownership_labels, Report, report, ready, clean_up_object}

abbrev pub component_groups : String
component_groups = "openshift-groups"

abbrev pub condition_groups : String
condition_groups = "OpenShiftGroupsReady"

abbrev pub group_key : String → Key
group_key name = key_of "Group" "" name

abbrev pub group_names : Gateway → List String
group_names gw = gw.user_group ∷ gw.admin_group ∷ []

-- the object that is created: a group without users
unfoldable pub new_group : Gateway → String → Object
new_group gw name = record (fresh (group_key name)) {
  labels = ownership_labels component_groups gw;
  body = entry "users" end end;
}

module _ (api : Api) where
  unfoldable pub enabled : Gateway → K Bool
  enabled gw = do
    has_groups ← is_served api "user.openshift.io/v1"
    if not has_groups
        then give false
        else if is_disabled gw.auto_create_groups
        then give false
        else give (not (gw.user_group == ""))

  -- What is known of a group after its round of the loop: an end of the loop, or whether it was
  -- created.
  unfoldable pub created_group :
      (name : String) → Result ApiError (Unit {0}) → K (Result Report Bool)
  created_group name (err e) = give (
      err (
        report condition_groups false "CreateFailed"
            ("Failed to create group " ++ (name ++ (": " ++ e.message))),
        some e,
      ))
  created_group name (ok _) = give (ok true)

  unfoldable pub checked_group :
      Gateway → (name : String) → Result ApiError Object → K (Result Report Bool)
  checked_group gw name (ok _) = give (ok false)
  checked_group gw name (err e) =
      if not e.not_found
      then give (
          err (
            report condition_groups false "CheckFailed"
                ("Failed to check group " ++ (name ++ (": " ++ e.message))),
            some e,
          ))
      else do outcome ← attempt (create api (new_group gw name)); created_group name outcome

  unfoldable pub ensure_group : Gateway → (name : String) → K (Result Report Bool)
  ensure_group gw name =
      if name == ""
      then give (ok false)
      else do existing ← attempt (get api (group_key name)); checked_group gw name existing

  abbrev pub with_created : Bool → String → List String → List String
  with_created is_new name made = if is_new then append_one made name else made

  unfoldable pub ensure_groups :
      Gateway → (names : List String) → (made : List String) → K (Result Report (List String))
  ensure_groups gw [] made = give (ok made)
  ensure_groups gw (name ∷ names) made = do
    outcome ← ensure_group gw name
    elim outcome [
      | err stop ↦ give (err stop)
      | ok is_new ↦ ensure_groups gw names (with_created is_new name made)
    ]

  abbrev pub success : List String → K Report
  success [] = ready condition_groups "PreExisting" "Groups exist"
  success (name ∷ names) =
      ready condition_groups "Created" ("Created groups: " ++ api.show_list (name ∷ names))

  unfoldable pub reconcile : Gateway → K Report
  reconcile gw = do
    outcome ← ensure_groups gw (group_names gw) []
    elim outcome [ err stop ↦ give stop | ok made ↦ success made ]

  unfoldable pub clean_up_groups : List String → K (Unit {0})
  clean_up_groups [] = done
  clean_up_groups (name ∷ names) = do
    (if name == "" then done else clean_up_object api (group_key name))
    clean_up_groups names

  unfoldable pub cleanup : Gateway → K (Unit {0})
  cleanup gw = clean_up_groups (group_names gw)
