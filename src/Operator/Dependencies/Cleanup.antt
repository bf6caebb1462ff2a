-- ===== src/Operator/Dependencies/Cleanup.antt =====
-- internal/controller/dep_groups.go and dep_postgres.go: what the clean-up deletes.
use ogo.Base.{String, List, [], ◌∷◌, refl, ◌==◌, Bool-cases, inl, inr, if◌then◌else◌}
use ogo.Base.Result.{Result, ok, err}
use ogo.Controller.{Gateway, ApiError}
use ogo.Operator.Kube.{Key, Object, Api, K, got, saw, get, delete, done}
use ogo.Operator.Legal.{AllLegal, IsCareful, IsCareful-bind}
use ogo.Operator.Dependencies.{is_owned_by_ogo, clean_up_object, delete_read, delete_owned}
use ogo.Operator.Dependencies.Groups
use ogo.Operator.Dependencies.Groups.{clean_up_groups, group_key, group_names}
use ogo.Operator.Dependencies.Postgres
use ogo.Operator.Dependencies.Postgres.{clean_up_all, provisioned}

module _ (api : Api) where
  clean_up_object-IsCareful : (key : Key) → IsCareful is_owned_by_ogo (clean_up_object api key)
  unfolding clean_up_object get delete_read delete_owned delete
  clean_up_object-IsCareful key r h = next (api.get r.trace key)
    where
      next :
          (x : Result ApiError Object)
          → AllLegal is_owned_by_ogo (delete_read api x (saw (got key x) r)).1.trace
      next (err e) = (tt, h)
      next (ok o) = elim (Bool-cases (is_owned_by_ogo o.labels)) [
        | inl own ↦ rw (own, delete_owned) ((refl, own), (tt, h))
        | inr foreign ↦ rw (foreign, delete_owned) (tt, h)
      ]

  clean_up_all-IsCareful : (keys : List Key) → IsCareful is_owned_by_ogo (clean_up_all api keys)
  unfolding clean_up_all
  clean_up_all-IsCareful [] r h = h
  clean_up_all-IsCareful (key ∷ keys) r h =
      IsCareful-bind is_owned_by_ogo {A = Unit {0}} {B = Unit {0}} (clean_up_object api key)
        (λ _. clean_up_all api keys) (clean_up_object-IsCareful key)
        (λ _. clean_up_all-IsCareful keys) r h

  abbrev clean_up_named : String → K (Unit {0})
  clean_up_named name = if name == "" then done else clean_up_object api (group_key name)

  clean_up_named-IsCareful : (name : String) → IsCareful is_owned_by_ogo (clean_up_named name)
  clean_up_named-IsCareful name = elim (Bool-cases (name == "")) [
    | inl empty ↦ rw (empty, if◌then◌else◌) (λ r h. h)
    | inr named ↦ rw (named, if◌then◌else◌) (clean_up_object-IsCareful (group_key name))
  ]

  clean_up_groups-IsCareful :
      (names : List String) → IsCareful is_owned_by_ogo (clean_up_groups api names)
  unfolding clean_up_groups
  clean_up_groups-IsCareful [] r h = h
  clean_up_groups-IsCareful (name ∷ names) r h =
      IsCareful-bind is_owned_by_ogo {A = Unit {0}} {B = Unit {0}} (clean_up_named name)
        (λ _. clean_up_groups api names) (clean_up_named-IsCareful name)
        (λ _. clean_up_groups-IsCareful names) r h

  -- If all deletes and writes so far were legal, then they are after the clean-up of the groups,
  -- and after that of the database: an object is only deleted right after it was read with the
  -- label that says that OGO provisioned it.
  pub cleanup-IsCareful :
      (gw : Gateway)
      → IsCareful is_owned_by_ogo (Groups.cleanup api gw)
        × IsCareful is_owned_by_ogo (Postgres.cleanup api gw)
  unfolding Groups.cleanup Postgres.cleanup
  cleanup-IsCareful gw =
      (clean_up_groups-IsCareful (group_names gw), clean_up_all-IsCareful (provisioned api gw))
