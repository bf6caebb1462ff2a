-- ===== src/AuthBridge/Tests/Discovery.antt =====
-- A token of the bridge against its document and its keys.
use ogo.Base.{◌≡◌, refl, ◌==◌, [], ◌∷◌}
use ogo.AuthBridge.Discovery.{handle_jwks}
use ogo.AuthBridge.Discovery.Issuer.{IsAccepted, claims_for, mint_for-IsAccepted}
use ogo.AuthBridge.Jwt.{Jwk, mint_token}
use ogo.AuthBridge.Server.{mint_for}
use ogo.AuthBridge.Tests.Fixtures.{bridge, alice}

mint_for-IsAccepted_example :
    (key : Jwk) × (handle_jwks bridge ≡ key ∷ [])
    × IsAccepted bridge
        (λ n e input signature. signature == "signature")
        "localhost:8085"
        key
        (claims_for bridge 5 alice)
        "kid.u1.signature"
unfolding mint_for mint_token
mint_for-IsAccepted_example =
    mint_for-IsAccepted bridge (λ n e input signature. signature == "signature") "localhost:8085" 5
      alice "kid.u1.signature"
      (λ key input signature e. let same : "signature" ≡ signature = cc in rw (← same) refl) refl
      refl
