-- ===== src/SmokeTest.antt =====
-- hack/smoke-test-config/main.go: the command that writes a gateway.toml and its JWT keys for a run of
-- the gateway without a cluster. Files and directories are written by calls that may fail.
pub mod Complete
mod Tests
use Prim.Native.String.{◌++◌}
use ogo.Base.{ℕ, String, Bool, true, false, Option, none, some, List, [], ◌∷◌}
use ogo.Base.Result.{Result, ok, err}
use ogo.Controller.{Gateway}
use ogo.Operator.Config.{render_gateway_toml}
use ogo.Operator.Kube.{Api}
use ogo.Operator.Value
use ogo.Pki.{JwtKeys, generate_jwt_keys}

-- the gateway, with every optional field of its configuration set
abbrev pub smoke_test : Gateway
smoke_test = record {
  name = "smoke-test";
  created_at = 0;
  generation = 0;
  deleting = false;
  finalizers = [];
  spec_namespace = "ogo";
  image = "";
  image_tag = "";
  supervisor_image = "";
  auth_bridge_image = "";
  replicas = none;
  resources = Value.end;
  log_level = "";
  database_embedded = false;
  embedded_config = none;
  database_secret = "";
  sandbox_spec_namespace = "";
  sandbox_default_image = "";
  image_pull_policy = "IfNotPresent";
  workspace_storage_size = "2Gi";
  runtime_class_name = "kata";
  app_armor_profile = "Unconfined";
  tls_enabled = some false;
  cert_manager_enabled = false;
  issuer_name = "";
  issuer_kind = "";
  server_cert_secret_name = "";
  route_enabled = none;
  hostname = "";
  gateway_api_enabled = none;
  gateway_class = "";
  install_envoy_gateway = none;
  grant_sccs = none;
  allow_unauthenticated = true;
  auth_enabled = none;
  user_group = "";
  admin_group = "";
  spec_token_ttl = "";
  auto_create_groups = none;
  network_policy_enabled = none;
  status = record {
    phase = "";
    gateway_url = "";
    client_cert_secret_name = "";
    observed_generation = 0;
    conditions = [];
  };
}

pub data Call : Type 0 where
  mkdir_all : String → Call
  write_file : (path content : String) → Call

-- What a run does: the calls that succeeded, in their order, and the message of the one that failed.
pub record Ran : Type 0 where
  pub made : List Call
  pub failure : Option String

abbrev pub finished : Ran
finished = record { made = []; failure = none }

abbrev pub stopped : String → Ran
stopped message = record { made = []; failure = some message }

module _ (api : Api) (moment : ℕ) (join : String → String → String)
    (fails : Call → Option String) where
  -- a call, with what is printed where it fails, and what follows it
  unfoldable pub attempted : (context : String) → Call → Option String → Ran → Ran
  attempted context call (some e) rest = stopped (context ++ (" " ++ e))
  attempted context call none rest = record rest { made = call ∷ rest.made }

  unfoldable pub and_then : (context : String) → Call → Ran → Ran
  unfolding attempted
  and_then context call rest = attempted context call (fails call) rest

  -- the loop over the key files
  unfoldable pub write_keys : (dir : String) → List (String × String) → Ran
  unfolding and_then
  write_keys dir [] = finished
  write_keys dir ((name, content) ∷ writes) =
      and_then ("write " ++ (name ++ ":")) (write_file (join dir name) content)
        (write_keys dir writes)

  abbrev pub key_files : JwtKeys → List (String × String)
  key_files keys =
      ("signing.pem", keys.signing_key) ∷ ("public.pem", keys.public_key) ∷ ("kid", keys.kid) ∷ []

  unfoldable pub with_keys : (out_dir : String) → Result String JwtKeys → Ran
  unfolding write_keys
  with_keys out_dir (err e) = stopped ("generate JWT keys: " ++ e)
  with_keys out_dir (ok keys) =
      let jwt_dir = join out_dir "jwt" in
      and_then "mkdir jwt dir:" (mkdir_all jwt_dir) (write_keys jwt_dir (key_files keys))

  abbrev pub toml : String
  toml = render_gateway_toml api smoke_test "ogo" ""

  -- `args` are those after the name of the command
  unfoldable pub main : (args : List String) → Ran
  unfolding with_keys
  main [] = stopped "usage: smoke-test-config <output-dir>"
  main (out_dir ∷ []) = and_then "mkdir output dir:" (mkdir_all out_dir) (
      and_then "write gateway.toml:" (write_file (join out_dir "gateway.toml") toml)
        (with_keys out_dir (generate_jwt_keys api.go moment)))
  main (_ ∷ _ ∷ _) = stopped "usage: smoke-test-config <output-dir>"
