-- ===== src/AuthBridge/Server/Flow.antt =====
-- A whole login over internal/authbridge/server.go: authorize, callback, token.
use ogo.Base.{
  ℕ, ◌≤◌, ◌<◌, ◌+◌, ◌*◌, ◌/◌, String, ◌≡◌, ◌≢◌, true, some, [], ◌∷◌, arith, eq_iff, length,
}
use ogo.Base.Result.{ok}
use ogo.Dict.{insert, remove, lookup-insert, length-remove-insert}
use ogo.AuthBridge.{PendingCode, second, minute}
use ogo.AuthBridge.Redirect.{is_allowed_redirect_uri, is_allowed_redirect_uri_iff}
use ogo.AuthBridge.ClientState.{combined_state, NoColon, split_state-combined_state}
use ogo.AuthBridge.OpenShift.{Platform}
use ogo.AuthBridge.Codes.{Codes, max_pending_codes, take_code, reserve}
use ogo.AuthBridge.Server.{
  Bridge, Login, Response, redirect, token, token_type_bearer, handle_authorize, begin_callback,
  handle_callback, finish_callback, handle_token, grant, login_entry, token_entry, authenticate,
  redirect_back, store_token, accept_pending, continue_callback,
}

reserve_room :
    (code : String) (p : PendingCode) (codes : Codes)
    → length codes < max_pending_codes
    → reserve code p codes ≡ some (insert code p codes)
unfolding reserve
reserve_room code p codes h = ground arith

module _ (b : Bridge) where
  authorize_stores :
      (uri state code : String) (now : ℕ) (codes : Codes)
      → is_allowed_redirect_uri b.urls.parse b.config uri ≡ true
      → length codes < max_pending_codes
      → (handle_authorize b uri state code now codes).1 ≡ insert code (login_entry now uri) codes
  unfolding handle_authorize
  authorize_stores uri state code now codes allowed room =
      rw (allowed, reserve_room code (login_entry now uri) codes room)

  take_inserted :
      (code : String) (p : PendingCode) (codes : Codes)
      → take_code code (insert code p codes) ≡ (some p, remove code (insert code p codes))
  unfolding take_code
  take_inserted code p codes = ground (arith, lookup-insert code code p codes, eq_iff code code)

  begin_accepts :
      (code client uri : String) (now later : ℕ) (codes : Codes)
      → NoColon code
      → later ≤ now + 5 * minute
      → begin_callback (combined_state code client) later (insert code (login_entry now uri) codes)
        ≡ (
          ok (record { pending = login_entry now uri; client_state = client }),
          remove code (insert code (login_entry now uri) codes),
        )
  unfolding begin_callback accept_pending
  begin_accepts code client uri now later codes plain in_time =
      rw
        (
          split_state-combined_state code client plain,
          take_inserted code (login_entry now uri) codes,
        )
        (ground arith)

  redirects_to : String → String → String → Response
  redirects_to uri code client =
      redirect (b.urls.with_query uri (("code", code) ∷ ("state", client) ∷ []))

  redirect_back_allowed :
      (uri client code : String) (now : ℕ)
      → is_allowed_redirect_uri b.urls.parse b.config uri ≡ true
      → redirect_back b (record { pending = login_entry now uri; client_state = client }) code
        ≡ redirects_to uri code client
  unfolding redirect_back redirects_to
  redirect_back_allowed uri client code now allowed =
      let a = (is_allowed_redirect_uri_iff b.urls.parse b.config uri).0 allowed in
      ground (arith, a.parsed, eq_iff uri "", a.not_empty)

  finish_stores :
      (p : Platform) (l : Login) (code bridge_code jwt : String) (m n : ℕ) (codes : Codes)
      → authenticate b p code m ≡ ok jwt
      → length codes < max_pending_codes
      → finish_callback b p l code bridge_code m n codes
        ≡ (redirect_back b l bridge_code, insert bridge_code (token_entry n jwt) codes)
  unfolding finish_callback
  finish_stores p l code bridge_code jwt m n codes logged_in room =
      rw (logged_in, store_token, reserve_room bridge_code (token_entry n jwt) codes room)

  token_redeems :
      (form : String → String) (jwt : String) (n later : ℕ) (codes : Codes)
      → form "grant_type" ≡ "authorization_code"
      → later ≤ n + 60 * second
      → jwt ≢ ""
      → (handle_token b "POST" (some form) later (insert (form "code") (token_entry n jwt) codes)).0
        ≡ token (record {
          access_token = jwt;
          token_type = token_type_bearer;
          expires_in = b.config.token_ttl / second;
        })
  unfolding handle_token grant
  token_redeems form jwt n later codes code_grant in_time real =
      rw (code_grant, take_inserted (form "code") (token_entry n jwt) codes)
        (ground (arith, eq_iff jwt ""))

  -- If the redirect URI passes the test, the code that is drawn has no colon, fewer than 10000
  -- codes are pending, OpenShift vouches for an authorized user so that a token that is not empty
  -- is minted, and the callback and the redemption come in time and one after the other, then the
  -- browser is sent back with the bridge's code and the client's own state, and the code is
  -- answered with that token.
  pub login_flow :
      (p : Platform) (uri client bridge_state code jwt : String) (form : String → String)
      (t₀ t₁ t₂ t₃ t₄ : ℕ) (codes : Codes)
      → is_allowed_redirect_uri b.urls.parse b.config uri ≡ true
      → NoColon bridge_state
      → length codes < max_pending_codes
      → t₁ ≤ t₀ + 5 * minute
      → authenticate b p code t₂ ≡ ok jwt
      → jwt ≢ ""
      → form "grant_type" ≡ "authorization_code"
      → t₄ ≤ t₃ + 60 * second
      → let begun = (handle_authorize b uri client bridge_state t₀ codes).1 in
        let back =
          handle_callback b p code
            (combined_state bridge_state client)
            (form "code")
            t₁
            t₂
            t₃
            begun in
        (back.0 ≡ redirect (b.urls.with_query uri (("code", form "code") ∷ ("state", client) ∷ [])))
        × ((handle_token b "POST" (some form) t₄ back.1).0
            ≡ token (record {
              access_token = jwt;
              token_type = token_type_bearer;
              expires_in = b.config.token_ttl / second;
            }))
  unfolding handle_callback redirects_to
  login_flow p uri client bridge_state code jwt form t₀ t₁ t₂ t₃ t₄ codes allowed plain room h₁
        logged_in real grant_type h₄ =
      let stored = authorize_stores uri client bridge_state t₀ codes allowed room in
      let began = begin_accepts bridge_state client uri t₀ t₁ codes plain h₁ in
      let left = remove bridge_state (insert bridge_state (login_entry t₀ uri) codes) in
      let l : Login = record { pending = login_entry t₀ uri; client_state = client } in
      let finished =
        finish_stores p l code (form "code") jwt t₂ t₃ left logged_in
          (omega (arith, length-remove-insert {0} bridge_state (login_entry t₀ uri) codes)) in
      rw (stored, began, continue_callback, finished)
        (
          redirect_back_allowed uri client (form "code") t₀ allowed,
          token_redeems form jwt t₃ t₄ left grant_type h₄ real,
        )
