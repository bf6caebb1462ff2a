-- ===== src/AuthBridge/Server/Redeem.antt =====
-- Redeeming a code at internal/authbridge/server.go: once, in time, and unaffected by the sweep.
use ogo.Base.{ℕ, ◌≤◌, String, ◌≡◌, ◌≢◌, Option, none, some, arith, eq_iff, Option-cases, inl, inr}
use ogo.Base.Result.{Result, ok, err}
use ogo.Dict.{lookup, lookup-remove, lookup-insert, lookup-keep-none}
use ogo.AuthBridge.{PendingCode}
use ogo.AuthBridge.ClientState.{split_state}
use ogo.AuthBridge.Codes.{Codes, take_code, reserve, sweep_expired_codes}
use ogo.AuthBridge.Server.{
  Bridge, Login, Response, token, TokenGrant, handle_authorize, begin_callback, finish_callback,
  handle_token, grant, store_token, login_entry, token_entry,
}
use ogo.AuthBridge.Server.Steps.{State, Step, authorize, begin, finish, redeem, exchange, sweep}

-- A code that is not there is not there after any other code is stored or taken.
take-missing :
    (k code : String) (codes : Codes)
    → lookup k codes ≡ none
    → lookup k (take_code code codes).1 ≡ none
unfolding take_code
take-missing k code codes h = ground (arith, lookup-remove code k codes)

reserve-missing :
    (k code : String) (p : PendingCode) (codes codes' : Codes)
    → code ≢ k
    → lookup k codes ≡ none
    → reserve code p codes ≡ some codes'
    → lookup k codes' ≡ none
unfolding reserve
reserve-missing k code p codes codes' n h e =
    ground (arith, lookup-insert code k p codes, eq_iff code k)

-- Taking a code removes it.
take-gone : (code : String) (codes : Codes) → lookup code (take_code code codes).1 ≡ none
unfolding take_code
take-gone code codes = ground (arith, lookup-remove code code codes, eq_iff code code)

pub take_found : (code : String) (codes : Codes) → (take_code code codes).0 ≡ lookup code codes
unfolding take_code
take_found code codes = ground arith

module _ (b : Bridge) where
  -- The code that a step stores, if any, is not `k`.
  abbrev pub KeepsOut : String → {s t : State} {r : Option Response} → Step b s r t → Type 0
  KeepsOut k (authorize s uri state code now) = code ≢ k
  KeepsOut k (begin s state now) = Unit
  KeepsOut k (finish s before after l p code bridge_code m n here) = bridge_code ≢ k
  KeepsOut k (redeem s method form now) = Unit
  KeepsOut k (exchange s p method authorization m n) = Unit
  KeepsOut k (sweep s now) = Unit

  -- Any further requests, none of which draws the code `k` again.
  pub data Later (k : String) (s : State) : State → Type 0 where
    now : Later k s s
    then_step :
        {t u : State} {r : Option Response}
        → Later k s t
        → (st : Step b t r u) → KeepsOut k st
        → Later k s u

  pub record Redeemed (form : String → String) (at : ℕ) (codes : Codes) (g : TokenGrant)
      : Type 0 where
    pub entry : PendingCode
    pub stored : lookup (form "code") codes ≡ some entry
    pub in_time : at ≤ entry.expires_at
    pub has_token : entry.jwt ≢ ""
    pub same_token : g.access_token ≡ entry.jwt

  grant_sound :
      (at : ℕ) (p : PendingCode) (g : TokenGrant)
      → grant b at (some p) ≡ token g
      → (at ≤ p.expires_at) × (p.jwt ≢ "") × (g.access_token ≡ p.jwt)
  unfolding grant
  grant_sound at p g h = ground (arith, eq_iff p.jwt "")

  token_posted :
      (method : String) (value : String → String) (at : ℕ) (codes : Codes) (g : TokenGrant)
      → (handle_token b method (some value) at codes).0 ≡ token g
      → (grant b at (lookup (value "code") codes) ≡ token g)
        × ((handle_token b method (some value) at codes).1 ≡ (take_code (value "code") codes).1)
  unfolding handle_token
  token_posted method value at codes g h = ground (arith, take_found (value "code") codes)

  -- A code is exchanged for a token only if it is pending, has not expired and has a token that is
  -- not empty, which is the one that is answered; and it is not pending afterwards.
  pub redeem_sound :
      (method : String) (form : String → String) (at : ℕ) (codes : Codes) (g : TokenGrant)
      → (handle_token b method (some form) at codes).0 ≡ token g
      → Redeemed form at codes g
        × (lookup (form "code") (handle_token b method (some form) at codes).1 ≡ none)
  redeem_sound method form at codes g h =
      let (granted, taken) = token_posted method form at codes g h in
      (
        elim (Option-cases (lookup (form "code") codes)) [
          | inl missing ↦ absurd (unfold grant in ground arith)
          | inr (p, found) ↦
              let (in_time, has_token, same) = grant_sound at p g (rw found at granted) in
              record {
                entry = p;
                stored = found;
                in_time = in_time;
                has_token = has_token;
                same_token = same;
              }
        ],
        rw taken (take-gone (form "code") codes),
      )

  begin-missing :
      (k state : String) (at : ℕ) (codes : Codes)
      → lookup k codes ≡ none
      → lookup k (begin_callback state at codes).1 ≡ none
  unfolding begin_callback
  begin-missing k state at codes h = take-missing k (split_state state).bridge codes h

  authorize-missing :
      (k uri state code : String) (at : ℕ) (codes : Codes)
      → code ≢ k
      → lookup k codes ≡ none
      → lookup k (handle_authorize b uri state code at codes).1 ≡ none
  unfolding handle_authorize
  authorize-missing k uri state code at codes n h =
      elim (Option-cases (reserve code (login_entry at uri) codes)) [
        | inl full ↦ ground arith
        | inr (codes', stored) ↦
            ground (arith, reserve-missing k code (login_entry at uri) codes codes' n h stored)
      ]

  store_token-missing :
      (k : String) (l : Login) (code : String) (at : ℕ) (r : Result Response String) (codes : Codes)
      → code ≢ k
      → lookup k codes ≡ none
      → lookup k (store_token b l code at r codes).1 ≡ none
  unfolding store_token
  store_token-missing k l code at (err _) codes n h = h
  store_token-missing k l code at (ok jwt) codes n h =
      elim (Option-cases (reserve code (token_entry at jwt) codes)) [
        | inl full ↦ ground arith
        | inr (codes', stored) ↦
            ground (arith, reserve-missing k code (token_entry at jwt) codes codes' n h stored)
      ]

  token-missing :
      (k method : String) (form : Option (String → String)) (at : ℕ) (codes : Codes)
      → lookup k codes ≡ none
      → lookup k (handle_token b method form at codes).1 ≡ none
  unfolding handle_token
  token-missing k method none at codes h = ground arith
  token-missing k method (some value) at codes h =
      ground (arith, take-missing k (value "code") codes h)

  sweep-missing :
      (k : String) (at : ℕ) (codes : Codes)
      → lookup k codes ≡ none
      → lookup k (sweep_expired_codes at codes) ≡ none
  unfolding sweep_expired_codes
  sweep-missing k at codes h = lookup-keep-none _ k codes h

  Step-missing :
      (k : String) {s t : State} {r : Option Response} (st : Step b s r t)
      → KeepsOut k st
      → lookup k s.codes ≡ none
      → lookup k t.codes ≡ none
  Step-missing k (authorize s uri state code at) n h =
      authorize-missing k uri state code at s.codes n h
  Step-missing k (begin s state at) n h = begin-missing k state at s.codes h
  Step-missing k (finish s before after l p code bridge_code m at here) n h =
      unfold finish_callback in store_token-missing k l bridge_code at _ s.codes n h
  Step-missing k (redeem s method form at) n h = token-missing k method form at s.codes h
  Step-missing k (exchange s p method authorization m at) n h = h
  Step-missing k (sweep s at) n h = sweep-missing k at s.codes h

  Later-missing :
      (k : String) {s t : State} → Later k s t → lookup k s.codes ≡ none → lookup k t.codes ≡ none
  Later-missing k now h = h
  Later-missing k (then_step l st n) h = Step-missing k st n (Later-missing k l h)

  -- A code that was exchanged for a token is never exchanged again, whatever requests come between
  -- and in whatever order, unless it is drawn anew.
  pub redeemed_once :
      (s t : State) (method method' : String) (form form' : String → String) (at at' : ℕ)
      (g g' : TokenGrant)
      → (handle_token b method (some form) at s.codes).0 ≡ token g
      → Later
          (form "code")
          (record s { codes = (handle_token b method (some form) at s.codes).1 })
          t
      → form' "code" ≡ form "code"
      → (handle_token b method' (some form') at' t.codes).0 ≢ token g'
  redeemed_once s t method method' form form' at at' g g' h later same h' =
      let gone = Later-missing (form "code") later (redeem_sound method form at s.codes g h).1 in
      let again = (redeem_sound method' form' at' t.codes g' h').0.stored in cc
