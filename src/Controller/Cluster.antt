-- ===== src/Controller/Cluster.antt =====
-- The surroundings of the reconcilers of internal/controller: the Kubernetes API and the gateway.
-- Each call is answered by an arbitrary function of all that happened before, newest first, so
-- other clients may act between any two calls.
use ogo.Base.{ℕ, String, Bool, Option, List}
use ogo.Base.Result.{Result}
use ogo.Dict.{Dict}
use ogo.AuthBridge.Jwt.{Crypto, JwtError}
use ogo.Controller.{Gateway, Secret, ApiError, Condition}

pub data Role : Type 0 where
  role_unspecified role_user role_admin : Role

pub record Provider : Type 0 where
  pub name : String
  pub provider_type : String
  pub credentials : Dict String
  pub config : Dict String

pub record FilesystemPolicy : Type 0 where
  pub include_workdir : Bool
  pub read_only : List String
  pub read_write : List String

pub record ProcessPolicy : Type 0 where
  pub run_as_user : String
  pub run_as_group : String

pub record NetworkEndpoint : Type 0 where
  pub host : String
  pub port : ℕ
  pub protocol : String
  pub enforcement : String
  pub access : String

pub record NetworkPolicyRule : Type 0 where
  pub name : String
  pub endpoints : List NetworkEndpoint
  pub binaries : List String

pub record SandboxPolicy : Type 0 where
  pub filesystem : Option FilesystemPolicy
  pub process : Option ProcessPolicy
  pub network_policies : Dict NetworkPolicyRule

-- The calls of the gateway's gRPC API that the reconcilers make.
pub data Rpc : Type 0 where
  add_workspace_member : String → String → Role → Rpc
  remove_workspace_member : String → String → Rpc
  list_workspace_members : String → Rpc
  create_provider update_provider : Provider → Rpc
  delete_provider : String → Rpc
  update_config : SandboxPolicy → Rpc
  delete_config : String → Rpc

pub data Code : Type 0 where
  already_exists invalid_argument failed_precondition other_code : Code

pub record RpcError : Type 0 where
  pub code : Code
  pub message : String

pub data Credentials : Type 0 where
  insecure : Credentials
  mutual_tls : (cert key ca server_name : String) → Credentials

-- `S` is the status of the kind of object that is reconciled.
pub data Event (S : Type 0) : Type 0 where
  read : Event S  -- a read of the API
  updated : List String → Option ApiError → Event S  -- `Update`, with these finalizers
  status_updated : S → Option ApiError → Event S  -- `Status().Update`
  dialed : Event S
  called : String → Rpc → Option RpcError → Event S  -- with this bearer token

abbrev pub History : Type 0 → Type 0
History S = List (Event S)

pub record World (S : Type 0) : Type 0 where
  pub crypto : Crypto
  pub quote : String → String  -- fmt's %q
  pub set_status_condition : List Condition → Condition → List Condition
  pub contains_finalizer : List String → String → Bool
  pub add_finalizer : List String → String → List String
  pub remove_finalizer : List String → String → List String
  pub key_pair_error : String → String → Option String  -- tls.X509KeyPair's error
  pub jwt_error_text : JwtError → String
  pub usable_ca : String → Bool  -- AppendCertsFromPEM
  pub clock : History S → ℕ
  pub list_gateways : History S → Result ApiError (List Gateway)
  pub get_secret : History S → (namespace name : String) → Result ApiError Secret
  pub new_client : History S → String → Credentials → Option String  -- grpc.NewClient's error
  pub update : History S → List String → Option ApiError
  pub update_status : History S → S → Option ApiError
  pub call : History S → String → Rpc → Option RpcError
