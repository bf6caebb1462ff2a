-- ===== src/AuthBridge/Tests/Serving.antt =====
-- The theorems about the handlers of internal/authbridge/server.go at concrete requests.
use ogo.Base.{
  ◌*◌, String, ◌≡◌, ◌≢◌, ◌⊎◌, refl, true, none, some, Option, [], ◌∷◌, arith, contains, eq_iff,
  starts_with,
}
use ogo.Base.Result.{ok}
use ogo.Text.{trim_prefix}
use ogo.Dict.{lookup, insert, remove}
use ogo.AuthBridge.{second, UserInfo}
use ogo.AuthBridge.Access.{is_authorized, map_roles}
use ogo.AuthBridge.Redirect.{is_allowed_redirect_uri}
use ogo.AuthBridge.ClientState.{split_state, combined_state}
use ogo.AuthBridge.Jwt.{mint_token}
use ogo.AuthBridge.OpenShift.{get_user_info, exchange_code}
use ogo.AuthBridge.Codes.{Codes, take_code, reserve, sweep_expired_codes}
use ogo.AuthBridge.Server.{
  redirect, token, exchanged, TokenGrant, ExchangeGrant, group_names, Login, handle_authorize,
  begin_callback, finish_callback, handle_callback, handle_token, handle_token_exchange,
  authenticate, admit, mint_for, redirect_back, token_entry, login_entry,
}
use ogo.AuthBridge.Server.Steps.{
  State, init, Step, Reach, authorize, begin, finish, redeem, start, next, CameBack,
}
use ogo.AuthBridge.Server.Invariant.{IsIssued}
use ogo.AuthBridge.Server.Safety.{IsSafe, Reach-IsSafe}
use ogo.AuthBridge.Server.Replies.{
  IsLoginPage, IsClientPage, replied_token-IsIssued, replied_redirect_is_allowed,
}
use ogo.AuthBridge.Server.Exchange.{IsGrantFor, exchanged_token-IsIssued}
use ogo.AuthBridge.Server.Redeem.{Later, now, Redeemed, redeem_sound, redeemed_once}
use ogo.AuthBridge.Server.Sweep.{sweep_is_invisible}
use ogo.AuthBridge.Server.Flow.{login_flow}
use ogo.AuthBridge.Tests.Fixtures.{bridge, alice, platform, client_uri, form}

-- Alice's login, one critical section after the other.
asked : Reach bridge (record init { codes = (handle_authorize bridge client_uri "cs" "ab" 0 []).1 })
asked = next start (authorize init client_uri "cs" "ab" 0)

abbrev waiting : Login
waiting = record { pending = login_entry 0 client_uri; client_state = "cs" }

abbrev jwt : String
jwt = "kid.u1.signature"

abbrev granted : TokenGrant
granted = record { access_token = jwt; token_type = "Bearer"; expires_in = 28800 }

abbrev stored : Codes
stored = ("bc", token_entry 2 jwt) ∷ []

came_back : Reach bridge (record { codes = []; in_flight = waiting ∷ [] })
unfolding handle_authorize is_allowed_redirect_uri reserve insert remove begin_callback split_state
    combined_state take_code lookup
came_back =
    next asked
      (begin (record { codes = ("ab", login_entry 0 client_uri) ∷ []; in_flight = [] }) "ab:cs" 1)

let_in : Reach bridge (record { codes = stored; in_flight = [] })
unfolding finish_callback authenticate exchange_code get_user_info admit is_authorized contains
    mint_for mint_token map_roles reserve insert remove
let_in = next came_back (
    finish (record { codes = []; in_flight = waiting ∷ [] }) [] [] waiting (platform alice) "c" "bc"
      1 2 refl)

Reach-IsSafe_example : IsSafe bridge (CameBack let_in) (record { codes = stored; in_flight = [] })
Reach-IsSafe_example = Reach-IsSafe bridge let_in

redeeming : Step bridge (record { codes = stored; in_flight = [] }) (some (token granted)) init
unfolding handle_token take_code lookup remove
redeeming = redeem (record { codes = stored; in_flight = [] }) "POST" (some form) 3

replied_token-IsIssued_example : IsIssued bridge (CameBack let_in) jwt
replied_token-IsIssued_example = replied_token-IsIssued bridge let_in redeeming

abbrev exchange_grant : ExchangeGrant
exchange_grant = record {
  access_token = jwt;
  token_type = "Bearer";
  expires_in = 28800;
  expires_at = 28807;
  issuer = "https://bridge";
  client_id = "openshell-cli";
}

abbrev post : String
post = "POST"

exchanging :
    handle_token_exchange bridge (platform alice) "POST" "Bearer t" 1 (7 * second)
    ≡ exchanged exchange_grant
unfolding handle_token_exchange get_user_info is_authorized contains mint_for mint_token map_roles
exchanging = refl

exchanged_token-IsIssued_example :
    (post ≡ "POST")
    × (starts_with "Bearer t" "Bearer " ≡ true)
    × ((user : UserInfo) × (get_user_info
            (platform alice)
            bridge.osc
            (trim_prefix "Bearer t" "Bearer ")
            (group_names bridge)
          ≡ ok user)
        × IsGrantFor bridge (platform alice) 1 (7 * second) user exchange_grant)
exchanged_token-IsIssued_example =
    exchanged_token-IsIssued bridge (platform alice) 1 (7 * second) post "Bearer t" exchange_grant
      exchanging

-- The callback that ends Alice's login.
finishing :
    Step bridge
      (record { codes = []; in_flight = waiting ∷ [] })
      (some (redirect client_uri))
      (record { codes = stored; in_flight = [] })
unfolding finish_callback authenticate exchange_code get_user_info admit is_authorized contains
    mint_for mint_token map_roles reserve insert remove redirect_back
finishing =
    finish (record { codes = []; in_flight = waiting ∷ [] }) [] [] waiting (platform alice) "c" "bc"
      1 2 refl

replied_redirect_is_allowed_example : IsLoginPage bridge client_uri ⊎ IsClientPage bridge client_uri
replied_redirect_is_allowed_example = replied_redirect_is_allowed bridge came_back finishing

redeems : (handle_token bridge "POST" (some form) 3 stored).0 ≡ token granted
unfolding handle_token take_code lookup remove
redeems = refl

redeem_sound_example :
    Redeemed bridge form 3 stored granted
    × (lookup "bc" (handle_token bridge "POST" (some form) 3 stored).1 ≡ none)
redeem_sound_example = redeem_sound bridge "POST" form 3 stored granted redeems

-- Another login starts in between.
abbrev before_it : State
before_it = record { codes = stored; in_flight = [] }

abbrev after_it : State
after_it = record before_it { codes = (handle_token bridge "POST" (some form) 3 stored).1 }

abbrev another : State
another = record after_it {
  codes = (handle_authorize bridge client_uri "" "zz" 4 after_it.codes).1;
}

another_login : Later bridge "bc" after_it another
another_login =
    Later.then_step now (authorize after_it client_uri "" "zz" 4) (λ e. cc ((eq_iff "zz" "bc").1 e))

redeemed_once_example : (handle_token bridge "POST" (some form) 5 another.codes).0 ≢ token granted
redeemed_once_example =
    redeemed_once bridge before_it another "POST" "POST" form form 3 5 granted granted redeems
      another_login refl

sweep_is_invisible_example :
    ((method : String) (form : Option (String → String))
      → (handle_token bridge method form 9 (sweep_expired_codes 4 stored)).0
        ≡ (handle_token bridge method form 9 stored).0)
    × ((state : String)
        → (begin_callback state 9 (sweep_expired_codes 4 stored)).0
          ≡ (begin_callback state 9 stored).0)
unfolding lookup
sweep_is_invisible_example = sweep_is_invisible bridge 4 9 stored (refl, tt) (omega arith)

logs_in : authenticate bridge (platform alice) "c" 1 ≡ ok jwt
unfolding authenticate exchange_code get_user_info admit is_authorized contains mint_for mint_token
    map_roles
logs_in = refl

allowed : is_allowed_redirect_uri bridge.urls.parse bridge.config client_uri ≡ true
unfolding is_allowed_redirect_uri
allowed = refl

login_flow_example :
    let begun = (handle_authorize bridge client_uri "cs" "ab" 0 []).1 in
    let back =
      handle_callback bridge (platform alice) "c" (combined_state "ab" "cs") "bc" 1 1 2 begun in
    (back.0 ≡ redirect client_uri)
    × ((handle_token bridge "POST" (some form) 3 back.1).0 ≡ token granted)
login_flow_example =
    login_flow bridge (platform alice) client_uri "cs" "ab" "c" jwt form 0 1 1 2 3 [] allowed
      (refl, (refl, tt)) (omega arith) (omega arith) logs_in (λ e. cc e) refl (omega arith)
