-- ===== src/AuthBridge/Server/Types.antt =====
-- internal/authbridge/server.go: what the server holds, and its answers.
use ogo.Base.{ℕ, String, Option, List}
use ogo.AuthBridge.{Config, Url}
use ogo.AuthBridge.Jwt.{Crypto, JwtSigner}
use ogo.AuthBridge.OpenShift.{OpenShiftClient}

pub record Urls : Type 0 where
  pub parse : String → Option Url
  -- a URL with query parameters set, as text
  pub with_query : String → List (String × String) → String
  pub encode : List (String × String) → String

-- what a `Server` holds for its whole life
pub record Bridge : Type 0 where
  pub config : Config
  pub signer : JwtSigner
  pub osc : OpenShiftClient
  pub crypto : Crypto
  pub urls : Urls

pub data Message : Type 0 where
  text : String → Message
  access_denied : String → String → Message  -- the user and the required group

pub record TokenGrant : Type 0 where
  pub access_token : String
  pub token_type : String
  pub expires_in : ℕ

pub record ExchangeGrant : Type 0 where
  pub access_token : String
  pub token_type : String
  pub expires_in : ℕ
  pub expires_at : ℕ
  pub issuer : String
  pub client_id : String

pub data Response : Type 0 where
  http_error : ℕ → Message → Response
  redirect : String → Response  -- 302
  token : TokenGrant → Response
  exchanged : ExchangeGrant → Response
