-- ===== src/AuthBridge/Server/Sweep.antt =====
-- `sweepExpiredCodes` of internal/authbridge/server.go: it takes away what no request can use.
use ogo.Base.{ℕ, ◌≤◌, String, ◌≡◌, refl, Option, none, some, arith, not}
use ogo.Dict.{lookup, lookup-keep, only_if, IsMap}
use ogo.AuthBridge.{PendingCode}
use ogo.AuthBridge.ClientState.{split_state}
use ogo.AuthBridge.Codes.{Codes, has_expired, sweep_expired_codes}
use ogo.AuthBridge.Server.{Bridge, begin_callback, handle_token, grant, accept_pending}
use ogo.AuthBridge.Server.Redeem.{take_found}

-- The sweep keeps exactly the entries that have not expired.
pub lookup-sweep :
    (k : String) (now : ℕ) (codes : Codes)
    → IsMap codes
    → lookup k (sweep_expired_codes now codes)
      ≡ only_if (λ p. not (has_expired now p)) (lookup k codes)
unfolding sweep_expired_codes
lookup-sweep k now codes h = lookup-keep _ k codes h

module _ (b : Bridge) where
  grant-only_if :
      (now later : ℕ) (o : Option PendingCode)
      → now ≤ later
      → grant b later (only_if (λ p. not (has_expired now p)) o) ≡ grant b later o
  unfolding grant
  grant-only_if now later none h = refl
  grant-only_if now later (some p) h = ground arith

  accept-only_if :
      (client_state : String) (now later : ℕ) (o : Option PendingCode)
      → now ≤ later
      → accept_pending client_state later (only_if (λ p. not (has_expired now p)) o)
        ≡ accept_pending client_state later o
  unfolding accept_pending
  accept-only_if client_state now later none h = refl
  accept-only_if client_state now later (some p) h = ground arith

  token-sweep :
      (now later : ℕ) (codes : Codes) (method : String) (form : Option (String → String))
      → IsMap codes
      → now ≤ later
      → (handle_token b method form later (sweep_expired_codes now codes)).0
        ≡ (handle_token b method form later codes).0
  unfolding handle_token
  token-sweep now later codes method none m h = ground arith
  token-sweep now later codes method (some value) m h = ground (
    arith,
    take_found (value "code") codes,
    take_found (value "code") (sweep_expired_codes now codes),
    lookup-sweep (value "code") now codes m,
    grant-only_if now later (lookup (value "code") codes) h,
  )

  begin-sweep :
      (now later : ℕ) (codes : Codes) (state : String)
      → IsMap codes
      → now ≤ later
      → (begin_callback state later (sweep_expired_codes now codes)).0
        ≡ (begin_callback state later codes).0
  unfolding begin_callback
  begin-sweep now later codes state m h = ground (
    arith,
    take_found (split_state state).bridge codes,
    take_found (split_state state).bridge (sweep_expired_codes now codes),
    lookup-sweep (split_state state).bridge now codes m,
    accept-only_if (split_state state).client now later (lookup (split_state state).bridge codes) h,
  )

  -- Where no code stands twice, the token endpoint answers any request, and a callback makes of
  -- its state in its first critical section, at the time of the sweep or later, the same whether
  -- or not the sweep ran before.
  pub sweep_is_invisible :
      (now later : ℕ) (codes : Codes)
      → IsMap codes
      → now ≤ later
      → ((method : String) (form : Option (String → String))
          → (handle_token b method form later (sweep_expired_codes now codes)).0
            ≡ (handle_token b method form later codes).0)
        × ((state : String)
            → (begin_callback state later (sweep_expired_codes now codes)).0
              ≡ (begin_callback state later codes).0)
  sweep_is_invisible now later codes m h = (
    λ method form. token-sweep now later codes method form m h,
    λ state. begin-sweep now later codes state m h,
  )
