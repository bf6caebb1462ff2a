-- ===== src/AuthBridge.antt =====
-- internal/authbridge: the OAuth bridge between the OpenShell CLI, the gateway and OpenShift.
-- This file has the types of server.go and openshift.go that the parts share. Times and durations
-- are nanoseconds, as Go's `time.Time` and `time.Duration` count them.
pub mod Access
pub mod Redirect
pub mod ClientState
pub mod Jwt
pub mod OpenShift
pub mod Codes
pub mod Server
pub mod Startup
pub mod Discovery
mod Tests
use ogo.Base.{ℕ, ◌*◌, String, Option, List}
use ogo.Dict.{Dict}

abbrev pub second : ℕ
second = 1000000000

abbrev pub minute : ℕ
minute = 60 * second

pub record Config : Type 0 where
  pub issuer : String
  pub external_issuer : String
  pub audience : String
  pub listen_addr : String
  pub openshift_oauth : String
  pub client_id : String
  pub client_secret : String
  pub user_group : String
  pub admin_group : String
  pub token_ttl : ℕ

-- A code of either kind: one with a redirect URI waits for the login to come back, one with a JWT
-- waits to be redeemed.
pub record PendingCode : Type 0 where
  pub jwt : String
  pub expires_at : ℕ
  pub redirect_uri : String

pub record UserInfo : Type 0 where
  pub name : String
  pub uid : String
  pub groups : List String

-- What net/url finds in a URL, as far as the bridge reads it.
pub record Url : Type 0 where
  pub scheme : String
  pub host : String
  pub path : String
