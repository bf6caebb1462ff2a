-- ===== src/Operator/Dependencies/Postgres.antt =====
-- internal/controller/dep_postgres.go: the embedded database.
pub mod Objects
use Prim.Native.String.{◌++◌}
use ogo.Base.{
  String, Bool, true, false, Option, none, some, List, [], ◌∷◌, ◌==◌, ◌&&◌, if◌then◌else◌,
}
use ogo.Base.Result.{Result, ok, err}
use ogo.Dict.{Dict}
use ogo.Controller.{Gateway, ApiError, gateway_namespace, secret_data}
use ogo.Operator.Value.{
  Value, text, number, flag, map_of, list_of, texts_of, text_list, set_field, change_spec, entry,
  end,
}
use ogo.Operator.Kube.{
  Key, key_of, Object, fresh, or_fresh, Api, K, ◌>>=◌, ◌>>◌, give, done, raise, prefixed, attempt,
  get, create, create_or_update, drawn,
}
use ogo.Operator.Dependencies.{ownership_labels, Report, ready, broken, clean_up_object}
use ogo.Operator.Dependencies.Postgres.Objects.{
  password_key, uri_key, pg_labels, pg_name, password_secret, uri_secret, storage_size,
  pg_deployment, pg_service, new_claim, database_uri, component_postgres,
}

abbrev pub condition_database : String
condition_database = "DatabaseReady"

unfoldable pub enabled : Gateway → Bool
enabled gw = gw.database_embedded && gw.database_secret == ""

module _ (api : Api) where
  unfoldable pub make_password : Gateway → Result ApiError Object → K String
  make_password gw (ok o) = give (secret_data "password" o.contents)
  make_password gw (err e) =
      if not_missing e then raise (prefixed "checking password secret: " e) else do
        password ← drawn api (λ t. ok (api.random_hex t))
        create api (password_secret gw password)
        give password
    where
      not_missing : ApiError → Bool
      not_missing e = if e.not_found then false else true

  unfoldable pub ensure_password_secret : Gateway → K String
  ensure_password_secret gw = do
    existing ← attempt (get api (password_key gw))
    make_password gw existing

  unfoldable pub ensure_pvc : Gateway → K (Unit {0})
  ensure_pvc gw =
      let key = key_of "PersistentVolumeClaim" (gateway_namespace gw) (gw.name ++ "-pg-data") in
      create_or_update api key
        (λ before. give (new_claim (pg_labels gw) (storage_size gw) key before))

  unfoldable pub ensure_deployment : Gateway → K (Unit {0})
  ensure_deployment gw =
      let key = key_of "Deployment" (gateway_namespace gw) (pg_name gw) in
      create_or_update api key (λ before. give (pg_deployment gw (or_fresh key before)))

  unfoldable pub ensure_service : Gateway → K (Unit {0})
  ensure_service gw =
      let key = key_of "Service" (gateway_namespace gw) (pg_name gw) in
      create_or_update api key (λ before. give (pg_service gw (or_fresh key before)))

  unfoldable pub make_uri : Gateway → (password : String) → Result ApiError Object → K (Unit {0})
  make_uri gw password (ok _) = done
  make_uri gw password (err e) =
      if e.not_found
      then create api (uri_secret gw password)
      else raise (prefixed "checking URI secret: " e)

  unfoldable pub ensure_uri_secret : Gateway → (password : String) → K (Unit {0})
  ensure_uri_secret gw password = do
    existing ← attempt (get api (uri_key gw))
    make_uri gw password existing

  -- The rest of `Reconcile` after a call that may fail.
  unfoldable pub or_report :
      {A : Type 0} → (message : String) → (A → K Report) → Result ApiError A → K Report
  or_report message rest (err e) =
      broken condition_database "ProvisionFailed" (message ++ e.message) e
  or_report message rest (ok a) = rest a

  unfoldable pub then_report : {A : Type 0} → K A → (message : String) → (A → K Report) → K Report
  then_report m message rest = do outcome ← attempt m; or_report message rest outcome

  unfoldable pub reconcile : Gateway → K Report
  reconcile gw =
      then_report (ensure_password_secret gw) "Failed to create password secret: " (λ password.
        then_report (ensure_pvc gw) "Failed to create PVC: " (λ _.
          then_report (ensure_deployment gw) "Failed to create deployment: " (λ _.
            then_report (ensure_service gw) "Failed to create service: " (λ _.
              then_report (ensure_uri_secret gw password) "Failed to create URI secret: " (λ _.
                ready condition_database "EmbeddedProvisioned"
                  "Dev-only embedded PostgreSQL is running (not for production)")))))

  -- the objects that `Cleanup` goes through
  abbrev pub provisioned : Gateway → List Key
  provisioned gw =
      let ns = gateway_namespace gw in
      key_of "Deployment" ns (pg_name gw)
      ∷ key_of "Service" ns (pg_name gw)
      ∷ password_key gw
      ∷ uri_key gw
      ∷ key_of "PersistentVolumeClaim" ns (gw.name ++ "-pg-data")
      ∷ []

  unfoldable pub clean_up_all : List Key → K (Unit {0})
  clean_up_all [] = done
  clean_up_all (key ∷ keys) = do clean_up_object api key; clean_up_all keys

  unfoldable pub cleanup : Gateway → K (Unit {0})
  cleanup gw = clean_up_all (provisioned gw)
