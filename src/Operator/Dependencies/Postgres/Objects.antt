-- ===== src/Operator/Dependencies/Postgres/Objects.antt =====
-- internal/controller/dep_postgres.go: the objects of the embedded database.
use Prim.Native.String.{◌++◌}
use ogo.Base.{String, true, false, Option, none, some, [], ◌∷◌, ◌==◌, if◌then◌else◌}
use ogo.Dict.{Dict}
use ogo.Controller.{Gateway, gateway_namespace}
use ogo.Operator.Value.{
  Value, text, number, flag, map_of, list_of, texts_of, text_list, set_field, change_spec, entry,
  end,
}
use ogo.Operator.Kube.{Key, key_of, Object, fresh}
use ogo.Operator.Dependencies.{ownership_labels}

abbrev pub component_postgres : String
component_postgres = "embedded-postgresql"

abbrev pub pg_user : String
pg_user = "openshell"

abbrev pub pg_database : String
pg_database = "openshell"

abbrev pub pg_name : Gateway → String
pg_name gw = gw.name ++ "-pg"

abbrev pub password_key : Gateway → Key
password_key gw = key_of "Secret" (gateway_namespace gw) (gw.name ++ "-pg-password")

abbrev pub uri_key : Gateway → Key
uri_key gw = key_of "Secret" (gateway_namespace gw) (gw.name ++ "-pg-uri")

abbrev pub pg_labels : Gateway → Dict String
pg_labels gw = ownership_labels component_postgres gw

unfoldable pub password_secret : Gateway → (password : String) → Object
password_secret gw password = record (fresh (password_key gw)) {
  labels = pg_labels gw;
  contents = ("password", password) ∷ [];
}

unfoldable pub database_uri : Gateway → (password : String) → String
database_uri gw password =
    "postgresql://"
    ++ (pg_user
        ++ (":"
            ++ (password
                ++ ("@"
                    ++ (pg_name gw
                        ++ ("."
                            ++ (gateway_namespace gw
                                ++ (".svc:5432/" ++ (pg_database ++ "?sslmode=disable")))))))))

unfoldable pub uri_secret : Gateway → (password : String) → Object
uri_secret gw password = record (fresh (uri_key gw)) {
  labels = pg_labels gw;
  contents = ("uri", database_uri gw password) ∷ [];
}

abbrev pub storage_size : Gateway → String
storage_size gw = elim gw.embedded_config [
  | none ↦ "1Gi"
  | some c ↦ if c.storage_size == "" then "1Gi" else c.storage_size
]

abbrev pub pg_image : Gateway → String
pg_image gw = elim gw.embedded_config [
  | none ↦ "registry.redhat.io/rhel9/postgresql-16:latest"
  | some c ↦ if c.image == "" then "registry.redhat.io/rhel9/postgresql-16:latest" else c.image
]

-- the spec of a claim of this size
unfoldable pub claim_spec : (size : String) → Value
claim_spec size = map_of (
    ("accessModes", text_list ("ReadWriteOnce" ∷ []))
    ∷ ("resources", map_of (("requests", texts_of (("storage", size) ∷ [])) ∷ []))
    ∷ [])

-- a probe of the database's port
abbrev pub pg_probe : Value → Value → Value
pg_probe delay period = map_of (
    ("tcpSocket", map_of (("port", number 5432) ∷ []))
    ∷ ("initialDelaySeconds", delay)
    ∷ ("periodSeconds", period)
    ∷ [])

unfoldable pub pg_container : Gateway → Value
pg_container gw = map_of (
    ("name", text "postgresql")
    ∷ ("image", text (pg_image gw))
    ∷ (
      "env",
      list_of (
          texts_of (("name", "POSTGRESQL_USER") ∷ ("value", pg_user) ∷ [])
          ∷ map_of (
              ("name", text "POSTGRESQL_PASSWORD")
              ∷ (
                "valueFrom",
                map_of (
                    (
                      "secretKeyRef",
                      texts_of (("name", gw.name ++ "-pg-password") ∷ ("key", "password") ∷ []),
                    )
                    ∷ []),
              )
              ∷ [])
          ∷ texts_of (("name", "POSTGRESQL_DATABASE") ∷ ("value", pg_database) ∷ [])
          ∷ []),
    )
    ∷ (
      "ports",
      list_of (map_of (("containerPort", number 5432) ∷ ("protocol", text "TCP") ∷ []) ∷ []),
    )
    ∷ (
      "volumeMounts",
      list_of (texts_of (("name", "pgdata") ∷ ("mountPath", "/var/lib/pgsql/data") ∷ []) ∷ []),
    )
    ∷ ("readinessProbe", pg_probe (number 5) (number 10))
    ∷ ("livenessProbe", pg_probe (number 30) (number 30))
    ∷ (
      "resources",
      map_of (
          ("requests", texts_of (("memory", "128Mi") ∷ []))
          ∷ ("limits", texts_of (("memory", "256Mi") ∷ []))
          ∷ []),
    )
    ∷ (
      "securityContext",
      map_of (
          ("allowPrivilegeEscalation", flag false)
          ∷ ("runAsNonRoot", flag true)
          ∷ ("capabilities", map_of (("drop", text_list ("ALL" ∷ [])) ∷ []))
          ∷ []),
    )
    ∷ [])

-- the callback that fills the Deployment in
unfoldable pub pg_deployment : Gateway → Object → Object
pg_deployment gw o =
    let app = texts_of (("app", pg_name gw) ∷ []) in
    let volume = map_of (
      ("name", text "pgdata")
      ∷ ("persistentVolumeClaim", texts_of (("claimName", gw.name ++ "-pg-data") ∷ []))
      ∷ []) in
    let pod = map_of (
      ("metadata", map_of (("labels", app) ∷ []))
      ∷ (
        "spec",
        map_of (
            ("containers", list_of (pg_container gw ∷ []))
            ∷ ("volumes", list_of (volume ∷ []))
            ∷ []),
      )
      ∷ []) in
    record o {
      labels = pg_labels gw;
      annotations =
          ("ogo.aknochow.io/dev-only", "true")
          ∷ ("ogo.aknochow.io/warning", "Not for production use")
          ∷ [];
      body =
          change_spec
            (λ spec. set_field "replicas" (number 1) (
              set_field "strategy" (texts_of (("type", "Recreate") ∷ [])) (
                set_field "selector" (map_of (("matchLabels", app) ∷ []))
                  (set_field "template" pod spec))))
            o.body;
    }

unfoldable pub pg_service : Gateway → Object → Object
pg_service gw o = record o {
  labels = pg_labels gw;
  body =
      set_field "spec"
        (map_of (
          ("selector", texts_of (("app", pg_name gw) ∷ []))
          ∷ (
            "ports",
            list_of (
                map_of (
                  ("port", number 5432)
                  ∷ ("targetPort", number 5432)
                  ∷ ("protocol", text "TCP")
                  ∷ [])
                ∷ []),
          )
          ∷ []))
        o.body;
}

-- a claim is filled in only while it does not exist
unfoldable pub new_claim : (labels : Dict String) (size : String) → Key → Option Object → Object
new_claim labels size key none = record (fresh key) {
  labels = labels;
  body = entry "spec" (claim_spec size) end;
}
new_claim labels size key (some o) = o
