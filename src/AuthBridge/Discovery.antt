-- ===== src/AuthBridge/Discovery.antt =====
-- internal/authbridge/server.go: the routes of the bridge, its discovery document and its keys.
pub mod Issuer
use Prim.Native.String.{◌++◌}
use ogo.Base.{ℕ, String, Option, none, some, List, [], ◌∷◌, ◌||◌, starts_with, if◌then◌else◌}
use ogo.Base.Result.{Result, ok, err, ◌>>=◌}
use ogo.Dict.{Dict, lookup}
use ogo.AuthBridge.{Config}
use ogo.AuthBridge.Jwt.{Crypto, JwtError, Jwk, jwks, new_jwt_signer}
use ogo.AuthBridge.OpenShift.{Platform, new_openshift_client}
use ogo.AuthBridge.Codes.{Codes}
use ogo.AuthBridge.Server.{
  Bridge, Urls, Response, handle_authorize, handle_callback, handle_token, handle_token_exchange,
}

-- the OpenID configuration
pub record Document : Type 0 where
  pub issuer : String
  pub authorization_endpoint : String
  pub token_endpoint : String
  pub jwks_uri : String
  pub response_types_supported : List String
  pub grant_types_supported : List String
  pub subject_types_supported : List String
  pub token_endpoint_auth_methods_supported : List String
  pub scopes_supported : List String

-- `host` is the Host header of the request
unfoldable pub handle_discovery : Config → (host : String) → Document
handle_discovery c host =
    let base =
      if starts_with host "localhost" || starts_with host "127.0.0.1"
      then c.issuer
      else c.external_issuer in
    record {
      issuer = base;
      authorization_endpoint = c.external_issuer ++ "/authorize";
      token_endpoint = c.external_issuer ++ "/token";
      jwks_uri = base ++ "/jwks";
      response_types_supported = "code" ∷ [];
      grant_types_supported = "authorization_code" ∷ [];
      subject_types_supported = "public" ∷ [];
      token_endpoint_auth_methods_supported = "client_secret_basic" ∷ [];
      scopes_supported = "openid" ∷ "profile" ∷ "email" ∷ [];
    }

unfoldable pub handle_jwks : Bridge → List Jwk
unfolding jwks
handle_jwks b = jwks b.crypto b.signer

-- `NewServer`, without the codes, which are empty at first; the URLs are Go's net/url
unfoldable pub new_server :
    Crypto
    → Urls
    → (files : String → Option String) → (env : Dict String) → Config
    → Result JwtError Bridge
unfolding new_jwt_signer new_openshift_client
new_server crypto urls files env c = do
  signer ← new_jwt_signer crypto files env
  ok (record {
    config = c;
    signer = signer;
    osc = new_openshift_client c.openshift_oauth c.client_id c.client_secret;
    crypto = crypto;
    urls = urls;
  })

pub data Endpoint : Type 0 where
  discovery keys authorize callback token token_exchange healthz : Endpoint

-- what `Handler` registers
abbrev pub routes : Dict Endpoint
routes =
    ("/.well-known/openid-configuration", discovery)
    ∷ ("/jwks", keys)
    ∷ ("/authorize", authorize)
    ∷ ("/callback", callback)
    ∷ ("/token", token)
    ∷ ("/token/exchange", token_exchange)
    ∷ ("/healthz", healthz)
    ∷ []

pub record Request : Type 0 where
  pub method : String
  pub host : String
  pub path : String
  pub query : String → String
  pub form : Option (String → String)
  pub authorization : String

-- what a request meets: OpenShift, a fresh code, and the readings of the clock
pub record Moment : Type 0 where
  pub platform : Platform
  pub code : String
  pub now : ℕ
  pub now_minted : ℕ
  pub now_stored : ℕ

pub data Content : Type 0 where
  document : Document → Content
  key_set : List Jwk → Content
  answer : Response → Content
  alive : Content
  no_page : Content  -- the 404 of `ServeMux`

-- The headers are those of `securityHeaders`; the ones that a handler adds are not in the model.
pub record Reply : Type 0 where
  pub headers : Dict String
  pub content : Content

abbrev pub security_headers : Dict String
security_headers =
    ("X-Content-Type-Options", "nosniff")
    ∷ ("X-Frame-Options", "DENY")
    ∷ ("Cache-Control", "no-store")
    ∷ []

abbrev answered : Response × Codes → Content × Codes
answered (r, codes) = (answer r, codes)

unfoldable pub dispatch : Bridge → Request → Moment → Codes → Option Endpoint → Content × Codes
dispatch b q m codes none = (no_page, codes)
dispatch b q m codes (some discovery) = (document (handle_discovery b.config q.host), codes)
dispatch b q m codes (some keys) = (key_set (handle_jwks b), codes)
dispatch b q m codes (some authorize) =
    answered (handle_authorize b (q.query "redirect_uri") (q.query "state") m.code m.now codes)
dispatch b q m codes (some callback) = answered (
    handle_callback b m.platform (q.query "code") (q.query "state") m.code m.now m.now_minted
      m.now_stored codes)
dispatch b q m codes (some token) = answered (handle_token b q.method q.form m.now codes)
dispatch b q m codes (some token_exchange) = (
  answer (handle_token_exchange b m.platform q.method q.authorization m.now_minted m.now_stored),
  codes,
)
dispatch b q m codes (some healthz) = (alive, codes)

-- the whole bridge, where no other request comes between
unfoldable pub serve : Bridge → Request → Moment → Codes → Reply × Codes
unfolding dispatch lookup
serve b q m codes =
    let (content, codes') = dispatch b q m codes (lookup q.path routes) in
    (record { headers = security_headers; content = content }, codes')
