-- ===== src/AuthBridge/Server.antt =====
-- The handlers of internal/authbridge/server.go. What is random (codes), the clock and the answers
-- of OpenShift are arguments of each request. net/url is the record `Urls`.
mod Types
pub mod Steps
pub mod Invariant
pub mod Safety
pub mod Replies
pub mod Exchange
pub mod Redeem
pub mod Sweep
pub mod Flow
pub use Types.*
use Prim.Native.String.{◌++◌}
use ogo.Base.{
  ℕ, ◌+◌, ◌*◌, ◌/◌, String, Option, none, some, List, [], ◌∷◌, not, ◌==◌, ◌||◌, starts_with,
  if◌then◌else◌,
}
use ogo.Base.Result.{Result, ok, err}
use ogo.Text.{trim_prefix}
use ogo.AuthBridge.{Config, PendingCode, UserInfo, Url, second, minute}
use ogo.AuthBridge.Access.{is_authorized, map_roles}
use ogo.AuthBridge.Redirect.{is_allowed_redirect_uri}
use ogo.AuthBridge.ClientState.{split_state, combined_state}
use ogo.AuthBridge.Jwt.{Crypto, JwtSigner, JwtError, mint_token, unix}
use ogo.AuthBridge.OpenShift.{
  Platform, OpenShiftClient, TokenResponse, ApiError, authorization_url, exchange_code,
  get_user_info,
}
use ogo.AuthBridge.Codes.{Codes, reserve, take_code, has_expired}

abbrev pub token_type_bearer : String
token_type_bearer = "Bearer"

-- the query that `handleAuthorize` sends to OpenShift
abbrev pub authorize_query : Bridge → String → String → List (String × String)
authorize_query b code state =
    ("response_type", "code")
    ∷ ("client_id", b.config.client_id)
    ∷ ("redirect_uri", b.config.external_issuer ++ "/callback")
    ∷ ("state", combined_state code state)
    ∷ ("scope", "user:info")
    ∷ []

-- the entry that waits for the login to come back
abbrev pub login_entry : ℕ → String → PendingCode
login_entry now redirect_uri = record {
  jwt = "";
  expires_at = now + 5 * minute;
  redirect_uri = redirect_uri;
}

-- the entry that waits to be redeemed
abbrev pub token_entry : ℕ → String → PendingCode
token_entry now jwt = record { jwt = jwt; expires_at = now + 60 * second; redirect_uri = "" }

unfoldable pub handle_authorize :
    Bridge → (redirect_uri state bridge_state : String) (now : ℕ) → Codes → Response × Codes
handle_authorize b redirect_uri state bridge_state now codes =
    if not (is_allowed_redirect_uri b.urls.parse b.config redirect_uri)
    then (http_error 400 (text "invalid redirect_uri"), codes)
    else elim (reserve bridge_state (login_entry now redirect_uri) codes) [
      | none ↦ (http_error 503 (text "too many pending requests"), codes)
      | some codes' ↦ (
        redirect (
            authorization_url b.osc
            ++ ("?" ++ b.urls.encode (authorize_query b bridge_state state))),
        codes',
      )
    ]

-- a callback between its two critical sections
pub record Login : Type 0 where
  pub pending : PendingCode
  pub client_state : String

-- what `handleCallback` makes of the entry that it took
accept_pending : String → ℕ → Option PendingCode → Result Response Login
accept_pending client_state now none = err (http_error 400 (text "invalid or expired state"))
accept_pending client_state now (some p) =
    if has_expired now p
    then err (http_error 400 (text "invalid or expired state"))
    else ok (record { pending = p; client_state = client_state })

-- `handleCallback` up to its first critical section
unfoldable pub begin_callback : (state : String) (now : ℕ) → Codes → Result Response Login × Codes
unfolding accept_pending
begin_callback state now codes =
    let parts = split_state state in
    let (found, codes') = take_code parts.bridge codes in
    (accept_pending parts.client now found, codes')

unfoldable pub group_names : Bridge → List String
group_names b = b.config.user_group ∷ b.config.admin_group ∷ []

-- the token for an authorized user; both handlers make it with these arguments
unfoldable pub mint_for : Bridge → ℕ → UserInfo → Result JwtError String
mint_for b now user =
    mint_token b.crypto b.signer now b.config.issuer b.config.audience user.uid user.name ""
      (map_roles b.config user.groups) b.config.token_ttl

-- the part of `handleCallback` from the user info to the token
unfoldable pub admit : Bridge → ℕ → Result ApiError UserInfo → Result Response String
admit b now (err _) = err (http_error 500 (text "failed to get user info"))
admit b now (ok user) =
    if not (is_authorized b.config user.name user.groups)
    then err (http_error 403 (access_denied user.name b.config.user_group))
    else elim (mint_for b now user) [
      | err _ ↦ err (http_error 500 (text "token generation failed"))
      | ok jwt ↦ ok jwt
    ]

log_in : Bridge → Platform → ℕ → Result ApiError TokenResponse → Result Response String
log_in b p now (err _) = err (http_error 500 (text "authentication failed"))
log_in b p now (ok resp) = admit b now (get_user_info p b.osc resp.access_token (group_names b))

-- the part of `handleCallback` that calls OpenShift and mints the token, outside the lock
unfoldable pub authenticate : Bridge → Platform → (code : String) (now : ℕ) → Result Response String
unfolding log_in
authenticate b p code now =
    log_in b p now (exchange_code p b.osc code (b.config.external_issuer ++ "/callback"))

-- the redirect at the end of `handleCallback`
unfoldable pub redirect_back : Bridge → Login → String → Response
redirect_back b l bridge_code =
    if l.pending.redirect_uri == ""
    then http_error 400 (text "missing redirect_uri")
    else elim (b.urls.parse l.pending.redirect_uri) [
      | none ↦ http_error 400 (text "invalid redirect URI")
      | some _ ↦ redirect (
          b.urls.with_query l.pending.redirect_uri
            (("code", bridge_code) ∷ ("state", l.client_state) ∷ []))
    ]

-- The second critical section, and the redirect.
store_token :
    Bridge
    → Login
    → (bridge_code : String) (now : ℕ) → Result Response String
    → Codes
    → Response × Codes
store_token b l bridge_code now (err r) codes = (r, codes)
store_token b l bridge_code now (ok jwt) codes =
    elim (reserve bridge_code (token_entry now jwt) codes) [
      | none ↦ (http_error 503 (text "too many pending requests"), codes)
      | some codes' ↦ (redirect_back b l bridge_code, codes')
    ]

-- `handleCallback` after its first critical section; the token is minted at `now_minted`, and its
-- code is stored at `now_stored`
unfoldable pub finish_callback :
    Bridge
    → Platform
    → Login
    → (code bridge_code : String) (now_minted now_stored : ℕ) → Codes
    → Response × Codes
unfolding store_token
finish_callback b p l code bridge_code now_minted now_stored codes =
    store_token b l bridge_code now_stored (authenticate b p code now_minted) codes

-- the whole handler, where no other request comes between
continue_callback :
    Bridge
    → Platform
    → (code bridge_code : String) (now_minted now_stored : ℕ) → Result Response Login × Codes
    → Response × Codes
continue_callback b p code bridge_code now_minted now_stored (err r, codes) = (r, codes)
continue_callback b p code bridge_code now_minted now_stored (ok l, codes) =
    finish_callback b p l code bridge_code now_minted now_stored codes

unfoldable pub handle_callback :
    Bridge
    → Platform
    → (code state bridge_code : String) (now now_minted now_stored : ℕ) → Codes
    → Response × Codes
unfolding continue_callback
handle_callback b p code state bridge_code now now_minted now_stored codes =
    continue_callback b p code bridge_code now_minted now_stored (begin_callback state now codes)

-- the answer to a redeemed code
grant : Bridge → ℕ → Option PendingCode → Response
grant b now none = http_error 400 (text "{\"error\":\"invalid_grant\"}")
grant b now (some p) =
    if has_expired now p || p.jwt == ""
    then http_error 400 (text "{\"error\":\"invalid_grant\"}")
    else token (record {
      access_token = p.jwt;
      token_type = token_type_bearer;
      expires_in = b.config.token_ttl / second;
    })

-- `form` is what `ParseForm` made of the body, as a function of the field's name
unfoldable pub handle_token :
    Bridge
    → (method : String) (form : Option (String → String)) (now : ℕ) → Codes
    → Response × Codes
unfolding grant
handle_token b method form now codes =
    if not (method == "POST")
    then (http_error 405 (text "method not allowed"), codes)
    else elim form [
      | none ↦ (http_error 400 (text "bad request"), codes)
      | some value ↦
          if not (value "grant_type" == "authorization_code")
          then (http_error 400 (text "{\"error\":\"unsupported_grant_type\"}"), codes)
          else let (found, codes') = take_code (value "code") codes in (grant b now found, codes')
    ]

exchange_user : Bridge → (now_minted now_answered : ℕ) → Result ApiError UserInfo → Response
exchange_user b now_minted now_answered (err _) =
    http_error 401 (text "{\"error\":\"invalid OpenShift token\"}")
exchange_user b now_minted now_answered (ok user) =
    if not (is_authorized b.config user.name user.groups)
    then http_error 403 (text "{\"error\":\"user is not a member of the required group\"}")
    else elim (mint_for b now_minted user) [
      | err _ ↦ http_error 500 (text "{\"error\":\"token generation failed\"}")
      | ok jwt ↦ exchanged (record {
        access_token = jwt;
        token_type = token_type_bearer;
        expires_in = b.config.token_ttl / second;
        expires_at = unix (now_answered + b.config.token_ttl);
        issuer = b.config.external_issuer;
        client_id = b.config.audience;
      })
    ]

-- `handleTokenExchange`; it does not touch the codes
unfoldable pub handle_token_exchange :
    Bridge → Platform → (method authorization : String) (now_minted now_answered : ℕ) → Response
unfolding exchange_user
handle_token_exchange b p method authorization now_minted now_answered =
    if not (method == "POST")
    then http_error 405 (text "method not allowed")
    else if not (starts_with authorization "Bearer ")
    then http_error 401 (text "{\"error\":\"missing Bearer token\"}")
    else exchange_user b now_minted now_answered
        (get_user_info p b.osc (trim_prefix authorization "Bearer ") (group_names b))
