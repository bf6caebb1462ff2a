-- ===== src/AuthBridge/Jwt.antt =====
-- internal/authbridge/jwt.go: the signer and the tokens that it mints. JSON, base64, PEM, PKCS 8,
-- SHA-256 and RSA are Go's packages, the record `Crypto`; a key is known by a text.
use Prim.Native.String.{◌++◌}
use ogo.Base.{
  ℕ, ◌+◌, ◌/◌, String, Option, none, some, List, [], ◌∷◌, ◌==◌, ◌&&◌, not, if◌then◌else◌,
}
use ogo.Base.Result.{Result, ok, err, ◌>>=◌, or_err}
use ogo.Text.{trim_space}
use ogo.Dict.{Dict}
use ogo.AuthBridge.{second}
use ogo.AuthBridge.Startup.{getenv}

-- what `x509.ParsePKCS8PrivateKey` may find
pub data PrivateKey : Type 0 where
  rsa : String → PrivateKey
  other : PrivateKey

pub record Claims : Type 0 where
  pub issuer : String
  pub subject : String
  pub audience : String
  pub expires_at : ℕ
  pub issued_at : ℕ
  pub preferred_username : String
  pub email : String
  pub roles : List String

pub record Header : Type 0 where
  pub alg : String
  pub typ : String
  pub kid : String

pub record Crypto : Type 0 where
  pub marshal_header : Header → Option String
  pub marshal_claims : Claims → Option String
  pub base64_url : String → String
  pub pem_decode : String → Option String
  pub parse_pkcs8 : String → Option PrivateKey
  pub generate_rsa : Option String  -- a private key of 2048 bits
  pub modulus : String → String  -- of the public key, as bytes
  pub exponent : String → String
  pub public_key_hash : String → String  -- hex of the first 16 bytes of SHA-256
  pub sign : String → String → Option String  -- SHA-256 and RSA PKCS 1 v1.5, by key and input

pub record JwtSigner : Type 0 where
  pub private_key : String
  pub kid : String

pub data JwtError : Type 0 where
  no_key unreadable_key no_pem_block bad_key not_rsa bad_header bad_claims signing_failed : JwtError

abbrev pub alg_rs256 : String
alg_rs256 = "RS256"

rsa_key : PrivateKey → Result JwtError String
rsa_key (rsa k) = ok k
rsa_key other = err not_rsa

-- `NewJWTSignerFromPEM`
unfoldable pub new_jwt_signer_from_pem : Crypto → String → String → Result JwtError JwtSigner
unfolding rsa_key
new_jwt_signer_from_pem crypto signing_pem kid = do
  let trimmed = trim_space kid
  block ← or_err no_pem_block (crypto.pem_decode signing_pem)
  key ← or_err bad_key (crypto.parse_pkcs8 block)
  rsa_private ← rsa_key key
  ok (record {
    private_key = rsa_private;
    kid = if trimmed == "" then crypto.public_key_hash rsa_private else trimmed;
  })

unfoldable pub generate_jwt_signer : Crypto → Result JwtError JwtSigner
generate_jwt_signer crypto = do
  key ← or_err no_key crypto.generate_rsa
  ok (record { private_key = key; kid = crypto.public_key_hash key })

-- `files` is `os.ReadFile`; a key ID that cannot be read is no error
unfoldable pub load_jwt_signer :
    Crypto
    → (files : String → Option String) → (signing_key_path kid_path : String)
    → Result JwtError JwtSigner
unfolding new_jwt_signer_from_pem
load_jwt_signer crypto files signing_key_path kid_path = do
  signing_pem ← or_err unreadable_key (files signing_key_path)
  let kid =
      if kid_path == ""
      then ""
      else elim (files kid_path) [ none ↦ "" | some bytes ↦ trim_space bytes ]
  new_jwt_signer_from_pem crypto signing_pem kid

unfoldable pub new_jwt_signer :
    Crypto → (files : String → Option String) → (env : Dict String) → Result JwtError JwtSigner
unfolding generate_jwt_signer load_jwt_signer getenv
new_jwt_signer crypto files env =
    let signing_key_path = getenv "AUTH_BRIDGE_SIGNING_KEY" env in
    if not (signing_key_path == "") && not (getenv "AUTH_BRIDGE_PUBLIC_KEY" env == "")
    then load_jwt_signer crypto files signing_key_path (getenv "AUTH_BRIDGE_KID" env)
    else generate_jwt_signer crypto

-- a key of a JSON Web Key Set
pub record Jwk : Type 0 where
  pub kty : String
  pub n : String
  pub e : String
  pub kid : String
  pub key_use : String
  pub alg : String

unfoldable pub jwks : Crypto → JwtSigner → List Jwk
jwks crypto s =
    record {
      kty = "RSA";
      n = crypto.base64_url (crypto.modulus s.private_key);
      e = crypto.base64_url (crypto.exponent s.private_key);
      kid = s.kid;
      key_use = "sig";
      alg = alg_rs256;
    }
    ∷ []

-- `time.Time.Unix`
abbrev pub unix : ℕ → ℕ
unix t = t / second

-- the claims that `MintToken` builds; its TTL is not negative
unfoldable pub token_claims :
    (now : ℕ) (issuer audience subject username email : String) (roles : List String) (ttl : ℕ)
    → Claims
token_claims now issuer audience subject username email roles ttl = record {
  issuer = issuer;
  subject = subject;
  audience = audience;
  expires_at = unix (now + ttl);
  issued_at = unix now;
  preferred_username = username;
  email = email;
  roles = roles;
}

-- the rest of `MintToken`: encoding and signing
unfoldable pub sign_claims : Crypto → JwtSigner → Claims → Result JwtError String
sign_claims crypto s claims = do
  header_json ←
      or_err bad_header
        (crypto.marshal_header (record { alg = alg_rs256; typ = "JWT"; kid = s.kid }))
  claims_json ← or_err bad_claims (crypto.marshal_claims claims)
  let signing_input = crypto.base64_url header_json ++ ("." ++ crypto.base64_url claims_json)
  signature ← or_err signing_failed (crypto.sign s.private_key signing_input)
  ok (signing_input ++ ("." ++ crypto.base64_url signature))

unfoldable pub mint_token :
    Crypto
    → JwtSigner
    → (now : ℕ) (issuer audience subject username email : String) (roles : List String) (ttl : ℕ)
    → Result JwtError String
unfolding token_claims sign_claims
mint_token crypto s now issuer audience subject username email roles ttl =
    sign_claims crypto s (token_claims now issuer audience subject username email roles ttl)
