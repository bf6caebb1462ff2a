-- ===== src/AuthBridge/Tests/Fixtures.antt =====
-- A bridge, an OpenShift and requests for the tests of internal/authbridge.
use ogo.Base.{◌*◌, String, true, none, some, [], ◌∷◌, ◌==◌, if◌then◌else◌}
use ogo.AuthBridge.{Config, UserInfo, minute}
use ogo.AuthBridge.Jwt.{Crypto, rsa}
use ogo.AuthBridge.OpenShift.{Platform, OpenShiftClient, response}
use ogo.AuthBridge.Server.{Bridge, Urls}

abbrev pub config : Config
config = record {
  issuer = "http://localhost:8085";
  external_issuer = "https://bridge";
  audience = "openshell-cli";
  listen_addr = ":8085";
  openshift_oauth = "https://oauth";
  client_id = "openshell";
  client_secret = "secret";
  user_group = "users";
  admin_group = "admins";
  token_ttl = 480 * minute;
}

abbrev pub crypto : Crypto
crypto = record {
  marshal_header = λ h. some h.kid;
  marshal_claims = λ c. some c.subject;
  base64_url = λ s. s;
  pem_decode = λ s. some s;
  parse_pkcs8 = λ s. some (rsa s);
  generate_rsa = some "drawn";
  modulus = λ k. k;
  exponent = λ k. "AQAB";
  public_key_hash = λ k. "hash";
  sign = λ k s. some "signature";
}

abbrev pub client_uri : String
client_uri = "http://localhost:9000/cb"

abbrev pub urls : Urls
urls = record {
  parse = λ s.
      if s == client_uri
      then some (record { scheme = "http"; host = "localhost:9000"; path = "/cb" })
      else if s == "https://bridge"
      then some (record { scheme = "https"; host = "bridge"; path = "" })
      else none;
  with_query = λ s q. s;
  encode = λ q. "q";
}

abbrev pub client : OpenShiftClient
client = record {
  oauth_server_url = "https://oauth";
  client_id = "openshell";
  client_secret = "secret";
  sa_token_path = "/token";
}

abbrev pub bridge : Bridge
bridge = record {
  config = config;
  signer = record { private_key = "key"; kid = "kid" };
  osc = client;
  crypto = crypto;
  urls = urls;
}

abbrev pub alice : UserInfo
alice = record { name = "alice"; uid = "u1"; groups = "users" ∷ [] }

abbrev pub bot : UserInfo
bot = record { name = "system:serviceaccount:ns:bot"; uid = ""; groups = [] }

-- An OpenShift that vouches for the given user, and whose groups all list the bot.
abbrev pub platform : UserInfo → Platform
platform user = record {
  do_http = λ r. response 200 "answer";
  do_sa = λ r. response 200 "answer";
  read_file = λ path. some " sa-token ";
  getenv = λ name. "";
  encode_form = λ fields. "form";
  path_escape = λ s. s;
  decode_token = λ s.
      some
        (record { access_token = "t"; token_type = "Bearer"; expires_in = 60; refresh_token = "" });
  decode_user = λ s. some user;
  decode_review = λ s. some (record { authenticated = true; uid = "u9" });
  decode_group_users = λ s. some ("other" ∷ "b64:Ym90" ∷ []);
  marshal_review = λ s. some s;
  base64_std = λ s. none;
  base64_raw = λ s. some "system:serviceaccount:ns:bot";
}

abbrev pub form : String → String
form field = if field == "code" then "bc" else "authorization_code"
