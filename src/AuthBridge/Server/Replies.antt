-- ===== src/AuthBridge/Server/Replies.antt =====
-- What the bridge answers after any requests, in any order: internal/authbridge/server.go.
use Prim.Native.String
use ogo.Base.{
  ℕ, String, ◌≡◌, ◌⊎◌, inl, inr, refl, false, Option, none, some, List, arith, ◌==◌, ◌||◌, eq_iff,
  Bool-cases, Option-cases, starts_with,
}
use ogo.Base.Result.{Result, ok, err, Result-cases}
use ogo.AuthBridge.{PendingCode, UserInfo}
use ogo.AuthBridge.Access.{is_authorized}
use ogo.AuthBridge.Redirect.{IsAllowed, is_allowed_redirect_uri}
use ogo.AuthBridge.OpenShift.{Platform, authorization_url, ApiError, TokenResponse}
use ogo.AuthBridge.Codes.{Codes, has_expired, reserve}
use ogo.AuthBridge.Server.{
  Bridge, Login, Response, http_error, redirect, token, exchanged, TokenGrant, handle_authorize,
  begin_callback, finish_callback, handle_token, handle_token_exchange, grant, exchange_user,
  store_token, redirect_back, authenticate, admit, log_in, mint_for, accept_pending, login_entry,
  token_entry,
}
use ogo.AuthBridge.Server.Steps.{
  State, Step, Reach, authorize, begin, finish, redeem, exchange, sweep, early_reply, CameBack,
}
use ogo.AuthBridge.Server.Invariant.{IsIssued, IsSound, IsGood, take-IsSound}
use ogo.AuthBridge.Server.Safety.{IsSafe, All-without, Reach-IsSafe}

module _ (b : Bridge) where
  -- The two places that the bridge sends a browser to: OpenShift's login page, and a redirect URI
  -- that passed the test, with query parameters added.
  abbrev pub IsLoginPage : String → Type 0
  IsLoginPage location =
      (query : String) × (location ≡ String.◌++◌ (authorization_url b.osc) (String.◌++◌ "?" query))

  abbrev pub IsClientPage : String → Type 0
  IsClientPage location =
      (uri : String) × IsAllowed b.urls.parse b.config uri
      × ((query : List (String × String)) × (location ≡ b.urls.with_query uri query))

-- `happened` says of which callbacks it is known that they came back.
module _ (b : Bridge) (happened : Platform → (code : String) (now : ℕ) → Type 0) where
  abbrev pub IsProper : Response → Type 0
  IsProper (http_error _ _) = Unit
  IsProper (redirect location) = IsLoginPage b location ⊎ IsClientPage b location
  IsProper (token g) = IsIssued b happened g.access_token
  IsProper (exchanged _) = Unit

  abbrev pub OnReply : Option Response → Type 0
  OnReply none = Unit
  OnReply (some r) = IsProper r

  authorize-IsProper :
      (uri state code : String) (now : ℕ) (codes : Codes)
      → IsProper (handle_authorize b uri state code now codes).0
  unfolding handle_authorize
  authorize-IsProper uri state code now codes =
      elim (Bool-cases (is_allowed_redirect_uri b.urls.parse b.config uri)) [
        | inl allowed ↦ elim (Option-cases (reserve code (login_entry now uri) codes)) [
          | inl full ↦ rw (allowed, full) tt
          | inr (codes', stored) ↦ rw (allowed, stored) (inl (_, refl))
        ]
        | inr refused ↦ rw refused tt
      ]

  redirect_back-IsProper :
      (l : Login) (code : String) → IsSound b happened l.pending → IsProper (redirect_back b l code)
  unfolding redirect_back
  redirect_back-IsProper l code (target, _) = elim (Bool-cases (l.pending.redirect_uri == "")) [
    | inl missing ↦ rw missing tt
    | inr given ↦ elim (Option-cases (b.urls.parse l.pending.redirect_uri)) [
      | inl unparsed ↦ rw (given, unparsed) tt
      | inr (u, parsed) ↦
          rw (given, parsed) (inr (l.pending.redirect_uri, allowed given target, (_, refl)))
    ]
  ]
    where
      allowed :
          (l.pending.redirect_uri == "" ≡ false)
          → (l.pending.redirect_uri ≡ "") ⊎ IsAllowed b.urls.parse b.config l.pending.redirect_uri
          → IsAllowed b.urls.parse b.config l.pending.redirect_uri
      allowed given (inl empty) = absurd (ground (arith, eq_iff l.pending.redirect_uri ""))
      allowed given (inr a) = a

  store_token-IsProper :
      (l : Login) (code : String) (now : ℕ) (r : Result Response String) (codes : Codes)
      → IsSound b happened l.pending
      → ((resp : Response) → r ≡ err resp → IsProper resp)
      → IsProper (store_token b l code now r codes).0
  unfolding store_token
  store_token-IsProper l code now (err resp) codes h k = k resp refl
  store_token-IsProper l code now (ok jwt) codes h k =
      elim (Option-cases (reserve code (token_entry now jwt) codes)) [
        | inl full ↦ rw (full, store_token) tt
        | inr (codes', stored) ↦ rw (stored, store_token) (redirect_back-IsProper l code h)
      ]

  grant-IsProper :
      (now : ℕ) (o : Option PendingCode)
      → ((p : PendingCode) → o ≡ some p → IsSound b happened p)
      → IsProper (grant b now o)
  unfolding grant
  grant-IsProper now none h = tt
  grant-IsProper now (some p) h = elim (Bool-cases (has_expired now p || p.jwt == "")) [
    | inl refused ↦ rw refused tt
    | inr fine ↦ rw fine (issued fine (h p refl).1)
  ]
    where
      issued :
          (has_expired now p || p.jwt == "" ≡ false)
          → (p.jwt ≡ "") ⊎ IsIssued b happened p.jwt
          → IsIssued b happened p.jwt
      issued fine (inl empty) = absurd (ground (arith, eq_iff p.jwt ""))
      issued fine (inr i) = i

  token-IsProper :
      (method : String) (form : Option (String → String)) (now : ℕ) (codes : Codes)
      → IsGood b happened codes
      → IsProper (handle_token b method form now codes).0
  unfolding handle_token
  token-IsProper method none now codes g = ground arith
  token-IsProper method (some value) now codes g = elim (Bool-cases (method == "POST")) [
    | inl post ↦ elim (Bool-cases (value "grant_type" == "authorization_code")) [
      | inl code ↦
          rw (post, code)
            (grant-IsProper now _ (λ p e. take-IsSound b happened (value "code") codes p g e))
      | inr other ↦ rw (post, other) tt
    ]
    | inr other ↦ rw other tt
  ]

  admit_err-IsProper :
      (now : ℕ) (r : Result ApiError UserInfo) (resp : Response)
      → admit b now r ≡ err resp
      → IsProper resp
  unfolding admit
  admit_err-IsProper now (err _) resp h = ground arith
  admit_err-IsProper now (ok user) resp h = ground arith

  log_in_err-IsProper :
      (p : Platform) (now : ℕ) (r : Result ApiError TokenResponse) (resp : Response)
      → log_in b p now r ≡ err resp
      → IsProper resp
  unfolding log_in
  log_in_err-IsProper p now (err _) resp h = ground arith
  log_in_err-IsProper p now (ok t) resp h = admit_err-IsProper now _ resp h

  finish-IsProper :
      (p : Platform) (l : Login) (code bridge_code : String) (now_minted now_stored : ℕ)
      (codes : Codes)
      → IsSound b happened l.pending
      → IsProper (finish_callback b p l code bridge_code now_minted now_stored codes).0
  unfolding finish_callback authenticate
  finish-IsProper p l code bridge_code now_minted now_stored codes h =
      store_token-IsProper l bridge_code now_stored _ codes h (log_in_err-IsProper p now_minted _)

  begin-OnReply :
      (now : ℕ) (client_state : String) (o : Option PendingCode)
      → OnReply (early_reply (accept_pending client_state now o))
  unfolding accept_pending
  begin-OnReply now client_state none = tt
  begin-OnReply now client_state (some p) = elim (Bool-cases (has_expired now p)) [
    | inl late ↦ rw late tt
    | inr fresh ↦ rw fresh tt
  ]

  exchange_user-IsProper :
      (m n : ℕ) (r : Result ApiError UserInfo) → IsProper (exchange_user b m n r)
  unfolding exchange_user
  exchange_user-IsProper m n (err _) = tt
  exchange_user-IsProper m n (ok user) =
      elim (Bool-cases (is_authorized b.config user.name user.groups)) [
        | inr refused ↦ rw refused tt
        | inl authorized ↦ elim (Result-cases (mint_for b m user)) [
          | inl (jwt, minted) ↦ rw (authorized, minted) tt
          | inr (x, failed) ↦ rw (authorized, failed) tt
        ]
      ]

  exchange-IsProper :
      (p : Platform) (method authorization : String) (m n : ℕ)
      → IsProper (handle_token_exchange b p method authorization m n)
  unfolding handle_token_exchange
  exchange-IsProper p method authorization m n = elim (Bool-cases (method == "POST")) [
    | inr other ↦ rw other tt
    | inl post ↦ elim (Bool-cases (starts_with authorization "Bearer ")) [
      | inr other ↦ rw (post, other) tt
      | inl bears ↦ rw (post, bears) (exchange_user-IsProper m n _)
    ]
  ]

  Step-OnReply :
      {s t : State} {r : Option Response} → Step b s r t → IsSafe b happened s → OnReply r
  Step-OnReply (authorize s uri state code now) h = authorize-IsProper uri state code now s.codes
  Step-OnReply (begin s state now) h = unfold begin_callback in begin-OnReply now _ _
  Step-OnReply (finish s before after l p code bridge_code m n here) h =
      finish-IsProper p l code bridge_code m n s.codes
        (All-without b (λ x. IsSound b happened x.pending) before after l (rw here at h.logins)).0
  Step-OnReply (redeem s method form now) h = token-IsProper method form now s.codes h.good
  Step-OnReply (exchange s p method authorization m n) h =
      exchange-IsProper p method authorization m n
  Step-OnReply (sweep s now) h = tt

module _ (b : Bridge) where
  -- After any requests, in any interleaving of their critical sections, a token answered for a
  -- redeemed code was minted at the end of a callback on the way there, at the time of that
  -- callback: OpenShift, as it answers in that callback, exchanged the code that the callback came
  -- back with for an access token, and vouched for the user of that access token; the user is
  -- authorized, and the token is the one minted for this user.
  pub replied_token-IsIssued :
      {s t : State} {g : TokenGrant} (r : Reach b s)
      → Step b s (some (token g)) t
      → IsIssued b (CameBack r) g.access_token
  replied_token-IsIssued r st = Step-OnReply b (CameBack r) st (Reach-IsSafe b r)

  -- After any requests, in any interleaving of their critical sections, every redirect goes to
  -- OpenShift's login page or to a redirect URI that passed the test, with query parameters added.
  pub replied_redirect_is_allowed :
      {s t : State} {location : String}
      → Reach b s
      → Step b s (some (redirect location)) t
      → IsLoginPage b location ⊎ IsClientPage b location
  replied_redirect_is_allowed r st = Step-OnReply b (CameBack r) st (Reach-IsSafe b r)
