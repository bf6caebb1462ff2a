-- ===== src/Controller/Grpc.antt =====
-- internal/controller/openshell_grpc.go: which gateway to talk to, and how.
pub mod Quiet
use Prim.Native.String.{◌++◌}
use ogo.Base.{
  ℕ, ◌*◌, String, Bool, true, false, Option, none, some, List, [], ◌∷◌, not, if◌then◌else◌,
}
use ogo.Base.Result.{Result, ok, err}
use ogo.AuthBridge.{second}
use ogo.AuthBridge.Jwt.{JwtError, JwtSigner, new_jwt_signer_from_pem, mint_token}
use ogo.Controller.{Gateway, Secret, ApiError, gateway_namespace, secret_data}
use ogo.Controller.Singleton.{oldest_by_creation_timestamp}
use ogo.Controller.Cluster.{
  World, History, Event, read, dialed, called, Rpc, RpcError, Credentials, insecure, mutual_tls,
}

abbrev pub gateway_admin_role : String
gateway_admin_role = "openshell-admin"

abbrev pub gateway_oidc_audience : String
gateway_oidc_audience = "openshell-cli"

abbrev pub admin_token_ttl : ℕ
admin_token_ttl = 60 * second

abbrev pub auth_bridge_internal_url : String
auth_bridge_internal_url = "http://localhost:8085"

abbrev pub no_gateway : String
no_gateway = "no OpenShellGateway found in the cluster"

pick_gateway : Result ApiError (List Gateway) → Result String Gateway
pick_gateway (err e) = err e.message
pick_gateway (ok items) = elim (oldest_by_creation_timestamp (λ gw. gw.created_at) items) [
  | none ↦ err no_gateway
  | some gw ↦ ok gw
]

module _ {S : Type 0} (w : World S) where
  unfoldable pub resolve_gateway : History S → Result String Gateway × History S
  unfolding pick_gateway
  resolve_gateway h = (pick_gateway (w.list_gateways h), read ∷ h)

  sign_admin_token : ℕ → Result JwtError JwtSigner → Result String String
  sign_admin_token now (err e) = err ("loading auth-bridge signing key: " ++ w.jwt_error_text e)
  sign_admin_token now (ok signer) =
      elim (mint_token w.crypto signer now auth_bridge_internal_url gateway_oidc_audience
        "ogo-controller" "ogo-controller" "" (gateway_admin_role ∷ []) admin_token_ttl) [
          | err e ↦ err (w.jwt_error_text e)
          | ok token ↦ ok token
        ]

  use_signing_key : ℕ → Result ApiError Secret → Result String String
  use_signing_key now (err e) = err ("reading auth-bridge signing key: " ++ e.message)
  use_signing_key now (ok secret) = sign_admin_token now (
      new_jwt_signer_from_pem w.crypto (secret_data "signing.pem" secret)
        (secret_data "kid" secret))

  mint_admin_token : Gateway → History S → Result String String × History S
  unfolding use_signing_key sign_admin_token
  mint_admin_token gw h = (
    use_signing_key (w.clock h)
        (w.get_secret h (gateway_namespace gw) (gw.name ++ "-auth-bridge-keys")),
    read ∷ h,
  )

  -- nil means enabled
  abbrev tls_on : Option Bool → Bool
  tls_on none = true
  tls_on (some enabled) = enabled

  client_credentials : Gateway → Result ApiError Secret → Result String Credentials
  client_credentials gw (err e) = err ("reading client TLS secret: " ++ e.message)
  client_credentials gw (ok secret) =
      let cert = secret_data "tls.crt" secret in
      let key = secret_data "tls.key" secret in
      let ca = secret_data "ca.crt" secret in
      elim (w.key_pair_error cert key) [
        | some e ↦ err ("parsing client TLS keypair: " ++ e)
        | none ↦
            if not (w.usable_ca ca)
            then err (
                "client TLS secret "
                ++ (w.quote (gw.name ++ "-client-tls") ++ " has no usable ca.crt"))
            else ok (
                mutual_tls cert key ca
                  (gw.name ++ ("." ++ (gateway_namespace gw ++ ".svc.cluster.local"))))
      ]

  unfoldable pub dial_credentials : Gateway → History S → Result String Credentials × History S
  unfolding client_credentials
  dial_credentials gw h = if not (tls_on gw.tls_enabled) then (ok insecure, h) else (
    client_credentials gw (w.get_secret h (gateway_namespace gw) (gw.name ++ "-client-tls")),
    read ∷ h,
  )

  -- the address that is dialled
  abbrev pub target : Gateway → String
  target gw = gw.name ++ ("." ++ (gateway_namespace gw ++ ".svc.cluster.local:8080"))

  connect : Gateway → Result String Credentials × History S → Option String × History S
  connect gw (err e, h) = (some ("resolving gRPC credentials: " ++ e), h)
  connect gw (ok creds, h) = elim (w.new_client h (target gw) creds) [
    | none ↦ (none, dialed ∷ h)
    | some e ↦ (some ("dialing gateway gRPC endpoint " ++ (target gw ++ (": " ++ e))), dialed ∷ h)
  ]

  unfoldable pub dial_connect_client : Gateway → History S → Option String × History S
  unfolding connect
  dial_connect_client gw h = connect gw (dial_credentials gw h)

  -- the token once the connection stands
  abbrev with_token : String → Option String × History S → Result String String × History S
  with_token token (none, h) = (ok token, h)
  with_token token (some e, h) = (err e, h)

  minted : Gateway → Result String String × History S → Result String String × History S
  minted gw (err e, h) = (err ("minting admin token: " ++ e), h)
  minted gw (ok token, h) = with_token token (dial_connect_client gw h)

  -- The bearer token that the calls on the connection carry.
  unfoldable pub gateway_client : Gateway → History S → Result String String × History S
  unfolding minted mint_admin_token
  gateway_client gw h = minted gw (mint_admin_token gw h)

  -- one gRPC call
  unfoldable pub rpc : String → Rpc → History S → Option RpcError × History S
  rpc token c h = let r = w.call h token c in (r, called token c r ∷ h)
