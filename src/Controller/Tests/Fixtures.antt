-- ===== src/Controller/Tests/Fixtures.antt =====
-- A cluster with one gateway, whose API answers every request.
use ogo.Operator.Value.{end}
use ogo.Base.{true, false, none, some, [], ◌∷◌, contains}
use ogo.Base.Result.{ok}
use ogo.AuthBridge.Jwt.{Crypto, rsa}
use ogo.Controller.{Gateway, Secret}
use ogo.Controller.Cluster.{World}

abbrev pub crypto : Crypto
crypto = record {
  marshal_header = λ h. some h.kid;
  marshal_claims = λ c. some c.subject;
  base64_url = λ s. s;
  pem_decode = λ s. some s;
  parse_pkcs8 = λ s. some (rsa s);
  generate_rsa = some "drawn";
  modulus = λ k. k;
  exponent = λ k. "AQAB";
  public_key_hash = λ k. "hash";
  sign = λ k s. some "signature";
}

abbrev pub gateway : Gateway
gateway = record {
  name = "gw";
  created_at = 1;
  generation = 1;
  deleting = false;
  finalizers = [];
  spec_namespace = "";
  image = "";
  image_tag = "v1";
  supervisor_image = "";
  auth_bridge_image = "";
  replicas = none;
  resources = end;
  log_level = "";
  database_embedded = true;
  embedded_config = none;
  database_secret = "";
  sandbox_spec_namespace = "";
  sandbox_default_image = "";
  image_pull_policy = "";
  workspace_storage_size = "";
  runtime_class_name = "";
  app_armor_profile = "";
  tls_enabled = some false;
  cert_manager_enabled = false;
  issuer_name = "";
  issuer_kind = "";
  server_cert_secret_name = "";
  route_enabled = none;
  hostname = "gw.apps.test";
  gateway_api_enabled = none;
  gateway_class = "";
  install_envoy_gateway = none;
  grant_sccs = none;
  allow_unauthenticated = false;
  auth_enabled = none;
  user_group = "users";
  admin_group = "admins";
  spec_token_ttl = "";
  auto_create_groups = none;
  network_policy_enabled = none;
  status = record {
    phase = "";
    gateway_url = "";
    client_cert_secret_name = "";
    observed_generation = 0;
    conditions = [];
  };
}

abbrev pub secret : Secret
secret = ("signing.pem", "pem") ∷ ("kid", "k1") ∷ []

abbrev pub world : (S : Type 0) → World S
world S = record {
  crypto = crypto;
  quote = λ s. s;
  set_status_condition = λ cs c. c ∷ cs;
  contains_finalizer = λ fs f. contains f fs;
  add_finalizer = λ fs f. f ∷ fs;
  remove_finalizer = λ fs f. [];
  key_pair_error = λ cert key. none;
  jwt_error_text = λ e. "jwt";
  usable_ca = λ ca. true;
  clock = λ h. 5;
  list_gateways = λ h. ok (gateway ∷ []);
  get_secret = λ h namespace name. ok secret;
  new_client = λ h target creds. none;
  update = λ h finalizers. none;
  update_status = λ h status. none;
  call = λ h token c. none;
}
