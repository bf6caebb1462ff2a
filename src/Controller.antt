-- ===== src/Controller.antt =====
-- internal/controller: the reconcilers. This file has what they share: the objects of the cluster
-- that they read, the messages of the gateway's gRPC API, and what a reconcile returns.
pub mod Singleton
pub mod Cluster
pub mod Grpc
pub mod Member
pub mod Policy
pub mod Provider
pub mod Tests
use ogo.Base.{not, ℕ, ◌*◌, String, Bool, true, false, Option, none, some, List, ◌==◌, if◌then◌else◌}
use ogo.Dict.{Dict, lookup}
use ogo.AuthBridge.{second}
use ogo.Operator.Value.{Value}

pub record EmbeddedDatabaseConfig : Type 0 where
  pub storage_size : String
  pub image : String

-- `metav1.Condition`, as far as the reconcilers set it
pub record Condition : Type 0 where
  pub kind : String
  pub holds : Bool
  pub reason : String
  pub message : String

pub record GatewayStatus : Type 0 where
  pub phase : String
  pub gateway_url : String
  pub client_cert_secret_name : String
  pub observed_generation : ℕ
  pub conditions : List Condition

-- `OpenShellGateway`: its metadata, the fields of its spec, each with the name of the struct that
-- it stands in where that is needed, and its status. A `*bool` is an option.
pub record Gateway : Type 0 where
  pub name : String
  pub created_at : ℕ  -- metav1.Time, whole seconds
  pub generation : ℕ
  pub deleting : Bool
  pub finalizers : List String
  pub spec_namespace : String
  pub image : String
  pub image_tag : String
  pub supervisor_image : String
  pub auth_bridge_image : String
  pub replicas : Option ℕ
  pub resources : Value
  pub log_level : String
  pub database_embedded : Bool
  pub embedded_config : Option EmbeddedDatabaseConfig
  pub database_secret : String
  pub sandbox_spec_namespace : String
  pub sandbox_default_image : String
  pub image_pull_policy : String
  pub workspace_storage_size : String
  pub runtime_class_name : String
  pub app_armor_profile : String
  pub tls_enabled : Option Bool
  pub cert_manager_enabled : Bool
  pub issuer_name : String
  pub issuer_kind : String
  pub server_cert_secret_name : String
  pub route_enabled : Option Bool
  pub hostname : String
  pub gateway_api_enabled : Option Bool
  pub gateway_class : String
  pub install_envoy_gateway : Option Bool
  pub grant_sccs : Option Bool
  pub allow_unauthenticated : Bool
  pub auth_enabled : Option Bool
  pub user_group : String
  pub admin_group : String
  pub spec_token_ttl : String
  pub auto_create_groups : Option Bool
  pub network_policy_enabled : Option Bool
  pub status : GatewayStatus

abbrev pub default_namespace : String
default_namespace = "ogo"

unfoldable pub gateway_namespace : Gateway → String
gateway_namespace gw = if gw.spec_namespace == "" then default_namespace else gw.spec_namespace

abbrev pub Secret : Type 0
Secret = Dict String

-- `secret.Data[key]`, nil where the key is missing
unfoldable pub secret_data : String → Secret → String
unfolding lookup
secret_data key s = elim (lookup key s) [ none ↦ "" | some v ↦ v ]

-- `types.NamespacedName`, what a reconcile is asked for
pub record NamespacedName : Type 0 where
  pub name : String
  pub namespace : String

-- An error of the Kubernetes API.
pub record ApiError : Type 0 where
  pub not_found : Bool
  pub already_exists : Bool
  pub no_match : Bool  -- the kind is not known to the cluster
  pub message : String

-- `*b == nil || *b`
abbrev pub unless_disabled : Option Bool → Bool
unless_disabled none = true
unless_disabled (some enabled) = enabled

-- `*b != nil && !*b`
abbrev pub is_disabled : Option Bool → Bool
is_disabled none = false
is_disabled (some enabled) = not enabled

-- `ctrl.Result` and the error
pub record Outcome : Type 0 where
  pub requeue : Bool
  pub requeue_after : ℕ
  pub error : Option String

abbrev pub done : Outcome
done = record { requeue = false; requeue_after = 0; error = none }

abbrev pub after : ℕ → Outcome
after t = record { requeue = false; requeue_after = t; error = none }

abbrev pub requeue_now : Outcome
requeue_now = record { requeue = true; requeue_after = 0; error = none }

abbrev pub fail : String → Outcome
fail message = record { requeue = false; requeue_after = 0; error = some message }

-- `return result, err` for an `err` that may be nil
abbrev pub with_error : Outcome → Option ApiError → Outcome
with_error o none = o
with_error o (some e) = record o { error = some e.message }

abbrev pub requeue_interval : ℕ
requeue_interval = 60 * second

abbrev pub gateway_retry_interval : ℕ
gateway_retry_interval = 30 * second

abbrev pub phase_failed : String
phase_failed = "Failed"
