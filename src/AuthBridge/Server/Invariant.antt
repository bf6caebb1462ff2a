-- ===== src/AuthBridge/Server/Invariant.antt =====
-- The invariant of the pending codes of internal/authbridge/server.go, and that each critical
-- section keeps it.
use Prim.Native.String.{◌++◌}
use ogo.Base.{
  ℕ, ◌≤◌, String, ◌≡◌, ◌⊎◌, inl, inr, refl, true, Option, none, some, List, arith, ◌==◌, length,
  All, Bool-cases, Option-cases, leb,
}
use ogo.Base.Result.{Result, ok, err}
use ogo.Dict.{
  AllValues, AllValues-insert, AllValues-remove, AllValues-keep, AllValues-lookup, IsMap,
  IsMap-insert, IsMap-remove, IsMap-keep, length-insert-le, length-remove-le, length-keep-le,
  insert, lookup,
}
use ogo.AuthBridge.{PendingCode, UserInfo}
use ogo.AuthBridge.Access.{is_authorized}
use ogo.AuthBridge.Redirect.{is_allowed_redirect_uri, IsAllowed, is_allowed_redirect_uri_iff}
use ogo.AuthBridge.OpenShift.{Platform, get_user_info, exchange_code, ApiError, TokenResponse}
use ogo.AuthBridge.ClientState.{split_state}
use ogo.AuthBridge.Codes.{
  Codes, max_pending_codes, reserve, take_code, has_expired, sweep_expired_codes,
}
use ogo.AuthBridge.Server.{
  Bridge, Login, Response, handle_authorize, begin_callback, finish_callback, handle_token,
  mint_for, group_names, authenticate, admit, login_entry, token_entry, log_in, store_token,
}
use ogo.AuthBridge.Server.Steps.{started}

-- `happened` says of which callbacks it is known that they came back: with which answers of
-- OpenShift, with which code, and when.
module _ (b : Bridge) (happened : Platform → (code : String) (now : ℕ) → Type 0) where
  -- The token was minted in one of the callbacks: OpenShift exchanged its code for an access token,
  -- vouched for the user of that token, and the user is authorized.
  pub record IsIssued (jwt : String) : Type 0 where
    pub platform : Platform
    pub code : String
    pub now : ℕ
    pub came_back : happened platform code now
    pub response : TokenResponse
    pub code_was_good :
        exchange_code platform b.osc code (b.config.external_issuer ++ "/callback") ≡ ok response
    pub user : UserInfo
    pub vouched : get_user_info platform b.osc response.access_token (group_names b) ≡ ok user
    pub authorized : is_authorized b.config user.name user.groups ≡ true
    pub minted : mint_for b now user ≡ ok jwt

  -- A pending code holds nothing but a redirect URI that was accepted, or an issued token.
  abbrev pub IsSound : PendingCode → Type 0
  IsSound p =
      ((p.redirect_uri ≡ "") ⊎ IsAllowed b.urls.parse b.config p.redirect_uri)
      × ((p.jwt ≡ "") ⊎ IsIssued p.jwt)

  -- The invariant of the map of codes.
  pub record IsGood (codes : Codes) : Type 0 where
    pub is_map : IsMap codes
    pub bounded : length codes ≤ max_pending_codes
    pub sound : AllValues IsSound codes

  reserve-IsGood :
      (code : String) (p : PendingCode) (codes codes' : Codes)
      → IsSound p
      → IsGood codes
      → reserve code p codes ≡ some codes'
      → IsGood codes'
  unfolding reserve
  reserve-IsGood code p codes codes' sp g e =
      elim (Bool-cases (leb max_pending_codes (length codes))) [
        | inl full ↦ absurd (ground arith)
        | inr room ↦
            let stored : insert code p codes ≡ codes' = ground arith in
            rw (← stored) (record {
              is_map = IsMap-insert code p codes g.is_map;
              bounded = ground (arith, length-insert-le code p codes);
              sound = AllValues-insert IsSound code p codes sp g.sound;
            })
      ]

  take-IsGood : (code : String) (codes : Codes) → IsGood codes → IsGood (take_code code codes).1
  unfolding take_code
  take-IsGood code codes g = elim (Option-cases (lookup code codes)) [
    | inl missing ↦ rw (missing, take_code) g
    | inr (p, found) ↦
        rw (found, take_code)
          (record {
            is_map = IsMap-remove code codes g.is_map;
            bounded = omega (arith, length-remove-le {0} code codes, g.bounded);
            sound = AllValues-remove IsSound code codes g.sound;
          })
  ]

  pub take-IsSound :
      (code : String) (codes : Codes) (p : PendingCode)
      → IsGood codes
      → (take_code code codes).0 ≡ some p
      → IsSound p
  unfolding take_code
  take-IsSound code codes p g e = AllValues-lookup IsSound code codes {v = p} g.sound (ground arith)

  pub sweep-IsGood :
      (now : ℕ) (codes : Codes) → IsGood codes → IsGood (sweep_expired_codes now codes)
  unfolding sweep_expired_codes
  sweep-IsGood now codes g = record {
    is_map = IsMap-keep _ codes g.is_map;
    bounded = omega (arith, length-keep-le {0} _ codes);
    sound = AllValues-keep IsSound _ codes g.sound;
  }

  pub authorize-IsGood :
      (redirect_uri state code : String) (now : ℕ) (codes : Codes)
      → IsGood codes
      → IsGood (handle_authorize b redirect_uri state code now codes).1
  unfolding handle_authorize
  authorize-IsGood redirect_uri state code now codes g =
      elim (Bool-cases (is_allowed_redirect_uri b.urls.parse b.config redirect_uri)) [
        | inl allowed ↦
            let p = login_entry now redirect_uri in
            elim (Option-cases (reserve code p codes)) [
              | inl full ↦ rw (allowed, full) g
              | inr (codes', stored) ↦
                  rw (allowed, stored)
                    (reserve-IsGood code p codes codes'
                      (
                        inr (
                            (is_allowed_redirect_uri_iff b.urls.parse b.config redirect_uri).0
                              allowed),
                        inl refl,
                      )
                      g stored)
            ]
        | inr refused ↦ rw refused g
      ]

  -- A token that OpenShift's answers lead to was issued.
  pub admit-IsIssued :
      (p : Platform) (code : String) (now : ℕ) (t : TokenResponse) (r : Result ApiError UserInfo)
      (jwt : String)
      → happened p code now
      → exchange_code p b.osc code (b.config.external_issuer ++ "/callback") ≡ ok t
      → get_user_info p b.osc t.access_token (group_names b) ≡ r
      → admit b now r ≡ ok jwt
      → IsIssued jwt
  unfolding admit
  admit-IsIssued p code now t (err _) jwt v x e h = cc
  admit-IsIssued p code now t (ok user) jwt v x e h =
      elim (Bool-cases (is_authorized b.config user.name user.groups)) [
        | inl authorized ↦ record {
          platform = p;
          code = code;
          now = now;
          came_back = v;
          response = t;
          code_was_good = x;
          user = user;
          vouched = e;
          authorized = authorized;
          minted = ground arith;
        }
        | inr refused ↦ absurd (ground arith)
      ]

  login_token-IsIssued :
      (p : Platform) (code : String) (now : ℕ) (r : Result ApiError TokenResponse) (jwt : String)
      → happened p code now
      → exchange_code p b.osc code (b.config.external_issuer ++ "/callback") ≡ r
      → log_in b p now r ≡ ok jwt
      → IsIssued jwt
  unfolding log_in
  login_token-IsIssued p code now (err _) jwt v x h = cc
  login_token-IsIssued p code now (ok t) jwt v x h = admit-IsIssued p code now t _ jwt v x refl h

  pub authenticate-IsIssued :
      (p : Platform) (code : String) (now : ℕ) (jwt : String)
      → happened p code now
      → authenticate b p code now ≡ ok jwt
      → IsIssued jwt
  unfolding authenticate
  authenticate-IsIssued p code now jwt v h = login_token-IsIssued p code now _ jwt v refl h

  store_token-IsGood :
      (l : Login) (code : String) (now : ℕ) (r : Result Response String) (codes : Codes)
      → ((jwt : String) → r ≡ ok jwt → IsIssued jwt)
      → IsGood codes
      → IsGood (store_token b l code now r codes).1
  unfolding store_token
  store_token-IsGood l code now (err _) codes issued g = g
  store_token-IsGood l code now (ok jwt) codes issued g =
      let p = token_entry now jwt in
      elim (Option-cases (reserve code p codes)) [
        | inl full ↦ rw (full, store_token) g
        | inr (codes', stored) ↦
            rw (stored, store_token)
              (reserve-IsGood code p codes codes' (inl refl, inr (issued jwt refl)) g stored)
      ]

  pub finish-IsGood :
      (p : Platform) (l : Login) (code bridge_code : String) (now_minted now_stored : ℕ)
      (codes : Codes)
      → happened p code now_minted
      → IsGood codes
      → IsGood (finish_callback b p l code bridge_code now_minted now_stored codes).1
  unfolding finish_callback
  finish-IsGood p l code bridge_code now_minted now_stored codes v g =
      store_token-IsGood l bridge_code now_stored _ codes
        (λ jwt. authenticate-IsIssued p code now_minted jwt v) g

  pub token-IsGood :
      (method : String) (form : Option (String → String)) (now : ℕ) (codes : Codes)
      → IsGood codes
      → IsGood (handle_token b method form now codes).1
  unfolding handle_token
  token-IsGood method none now codes g = elim (Bool-cases (method == "POST")) [
    | inl post ↦ rw post g
    | inr other ↦ rw other g
  ]
  token-IsGood method (some value) now codes g = elim (Bool-cases (method == "POST")) [
    | inl post ↦ elim (Bool-cases (value "grant_type" == "authorization_code")) [
      | inl code ↦ rw (post, code) (take-IsGood (value "code") codes g)
      | inr other ↦ rw (post, other) g
    ]
    | inr other ↦ rw other g
  ]

  pub begin-IsGood :
      (state : String) (now : ℕ) (codes : Codes)
      → IsGood codes
      → IsGood (begin_callback state now codes).1
  unfolding begin_callback
  begin-IsGood state now codes g = take-IsGood _ codes g

  pub started-IsSound :
      (state : String) (now : ℕ) (codes : Codes) (ls : List Login)
      → IsGood codes
      → All (λ l. IsSound l.pending) ls
      → All (λ l. IsSound l.pending) (started (begin_callback state now codes).0 ls)
  unfolding begin_callback
  started-IsSound state now codes ls g h =
      let taken = take_code (split_state state).bridge codes in
      elim (Option-cases taken.0) [
        | inl missing ↦ rw missing h
        | inr (p, found) ↦ elim (Bool-cases (has_expired now p)) [
          | inl late ↦ rw (found, late) h
          | inr fresh ↦
              rw (found, fresh) (take-IsSound (split_state state).bridge codes p g found, h)
        ]
      ]
