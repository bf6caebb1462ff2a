-- ===== src/AuthBridge/Server/Steps.antt =====
-- The handlers of internal/authbridge/server.go as they interleave: each step is one critical
-- section, and a callback that OpenShift has not answered is in flight between its two.
use ogo.Base.{ℕ, String, ◌≡◌, ◌⊎◌, Option, none, some, List, [], ◌∷◌, ◌++◌}
use ogo.Base.Result.{Result, ok, err}
use ogo.AuthBridge.OpenShift.{Platform}
use ogo.AuthBridge.Codes.{Codes, sweep_expired_codes}
use ogo.AuthBridge.Server.{
  Bridge, Login, Response, handle_authorize, begin_callback, finish_callback, handle_token,
  handle_token_exchange,
}

pub record State : Type 0 where
  pub codes : Codes
  pub in_flight : List Login

abbrev pub init : State
init = record { codes = []; in_flight = [] }

abbrev pub started : Result Response Login → List Login → List Login
started (err _) ls = ls
started (ok l) ls = l ∷ ls

abbrev pub early_reply : Result Response Login → Option Response
early_reply (err r) = some r
early_reply (ok _) = none

-- One critical section, with what it answers, if it does.
pub data Step (b : Bridge) : State → Option Response → State → Type 0 where
  authorize :
      (s : State) (redirect_uri state bridge_state : String) (now : ℕ)
      → Step b s
          (some (handle_authorize b redirect_uri state bridge_state now s.codes).0)
          (record s { codes = (handle_authorize b redirect_uri state bridge_state now s.codes).1 })
  begin :
      (s : State) (state : String) (now : ℕ)
      → Step b s (early_reply (begin_callback state now s.codes).0) (record {
        codes = (begin_callback state now s.codes).1;
        in_flight = started (begin_callback state now s.codes).0 s.in_flight;
      })
  finish :
      (s : State) (before after : List Login) (l : Login) (p : Platform) (code bridge_code : String)
      (now_minted now_stored : ℕ)
      → s.in_flight ≡ before ++ l ∷ after
      → Step b s
          (some (finish_callback b p l code bridge_code now_minted now_stored s.codes).0)
          (record {
            codes = (finish_callback b p l code bridge_code now_minted now_stored s.codes).1;
            in_flight = before ++ after;
          })
  redeem :
      (s : State) (method : String) (form : Option (String → String)) (now : ℕ)
      → Step b s
          (some (handle_token b method form now s.codes).0)
          (record s { codes = (handle_token b method form now s.codes).1 })
  exchange :
      (s : State) (p : Platform) (method authorization : String) (now_minted now_answered : ℕ)
      → Step b s (some (handle_token_exchange b p method authorization now_minted now_answered)) s
  sweep :
      (s : State) (now : ℕ) → Step b s none (record s { codes = sweep_expired_codes now s.codes })

-- What a bridge that has just started may come to.
pub data Reach (b : Bridge) : State → Type 0 where
  start : Reach b init
  next : {s t : State} {r : Option Response} → Reach b s → Step b s r t → Reach b t

-- The step is the end of a callback that came back with this code of OpenShift, whose answers are
-- those of the platform, and whose token is minted at this moment.
abbrev pub IsCallback :
    {b : Bridge} {s t : State} {r : Option Response}
    → Step b s r t
    → Platform
    → (code : String) (now : ℕ) → Type 0
IsCallback (authorize _ _ _ _ _) p code now = ⊥
IsCallback (begin _ _ _) p code now = ⊥
IsCallback (finish _ _ _ _ p' code' _ now' _ _) p code now =
    (p' ≡ p) × (code' ≡ code) × (now' ≡ now)
IsCallback (redeem _ _ _ _) p code now = ⊥
IsCallback (exchange _ _ _ _ _ _) p code now = ⊥
IsCallback (sweep _ _) p code now = ⊥

-- There was such a callback on the way.
abbrev pub CameBack :
    {b : Bridge} {s : State} → Reach b s → Platform → (code : String) (now : ℕ) → Type 0
CameBack start p code now = ⊥
CameBack (next r st) p code now = IsCallback st p code now ⊎ CameBack r p code now
