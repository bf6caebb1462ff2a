-- ===== src/AuthBridge/Discovery/Issuer.antt =====
-- internal/authbridge: the tokens of the bridge against its discovery document and its keys.
use Prim.Native.String.{◌++◌}
use ogo.Base.{
  ℕ, String, ◌≡◌, ◌⊎◌, ◌↔◌, inl, inr, refl, sym, Bool, true, some, [], ◌∷◌, ◌||◌, starts_with,
  Bool-cases,
}
use ogo.Base.Result.{ok, >>=-eq-ok, ok-inj, or_err, or_err-eq-ok}
use ogo.AuthBridge.{UserInfo}
use ogo.AuthBridge.Access.{map_roles}
use ogo.AuthBridge.Jwt.{
  Claims, Jwk, jwks, mint_token, sign_claims, token_claims, bad_header, bad_claims, signing_failed,
}
use ogo.AuthBridge.Server.{Bridge, mint_for}
use ogo.AuthBridge.Discovery.{handle_discovery, handle_jwks}

abbrev pub is_local : (host : String) → Bool
is_local host = starts_with host "localhost" || starts_with host "127.0.0.1"

-- the claims of the token that the bridge mints for a user
abbrev pub claims_for : Bridge → ℕ → UserInfo → Claims
claims_for b now user =
    token_claims now b.config.issuer b.config.audience user.uid user.name ""
      (map_roles b.config user.groups) b.config.token_ttl

module _ (b : Bridge) (verify : (n e input signature : String) → Bool) where
  -- A token as a gateway sees it that has read the document and the keys: it is three parts, the
  -- header names the algorithm and the id of the key, the claims name the document's issuer, and
  -- the key verifies the signature.
  pub record IsAccepted (host : String) (key : Jwk) (claims : Claims) (jwt : String) : Type 0 where
    pub header_json : String
    pub claims_json : String
    pub signature : String
    pub header_of_key :
        b.crypto.marshal_header (record { alg = key.alg; typ = "JWT"; kid = key.kid })
        ≡ some header_json
    pub claims_encoded : b.crypto.marshal_claims claims ≡ some claims_json
    pub modulus : String
    pub exponent : String
    pub key_n : key.n ≡ b.crypto.base64_url modulus
    pub key_e : key.e ≡ b.crypto.base64_url exponent
    pub parts :
        jwt
        ≡ (b.crypto.base64_url header_json ++ ("." ++ b.crypto.base64_url claims_json))
          ++ ("." ++ b.crypto.base64_url signature)
    pub verified :
        verify modulus exponent
          (b.crypto.base64_url header_json ++ ("." ++ b.crypto.base64_url claims_json))
          signature
        ≡ true
    pub issuer : claims.issuer ≡ (handle_discovery b.config host).issuer

  -- If the key that the RSA package derives from a private key verifies what that private key
  -- signs, then a token that the bridge mints for a user is accepted by a caller that reads the
  -- discovery document and the keys under a host name that begins with localhost or 127.0.0.1:
  -- there is one key, the header of the token names its algorithm and id, it verifies the
  -- signature, and the issuer in the claims is that of the document.
  pub mint_for-IsAccepted :
      (host : String) (now : ℕ) (user : UserInfo) (jwt : String)
      → ((key input signature : String)
          → b.crypto.sign key input ≡ some signature
          → verify (b.crypto.modulus key) (b.crypto.exponent key) input signature ≡ true)
      → is_local host ≡ true
      → mint_for b now user ≡ ok jwt
      → (key : Jwk) × (handle_jwks b ≡ key ∷ []) × IsAccepted host key (claims_for b now user) jwt
  unfolding mint_for mint_token sign_claims handle_jwks jwks handle_discovery token_claims
  mint_for-IsAccepted host now user jwt sound local minted =
      let (header, e1, m1) = >>=-eq-ok (or_err bad_header _) _ minted in
      let (claims, e2, m2) = >>=-eq-ok (or_err bad_claims _) _ m1 in
      let (signature, e3, m3) = >>=-eq-ok (or_err signing_failed _) _ m2 in
      let signed = or_err-eq-ok signing_failed _ e3 in
      (
        _,
        refl,
        record {
          header_json = header;
          claims_json = claims;
          signature = signature;
          header_of_key = or_err-eq-ok bad_header _ e1;
          claims_encoded = or_err-eq-ok bad_claims _ e2;
          modulus = b.crypto.modulus b.signer.private_key;
          exponent = b.crypto.exponent b.signer.private_key;
          key_n = refl;
          key_e = refl;
          parts = sym (ok-inj m3);
          verified = sound _ _ _ signed;
          issuer = rw local refl;
        },
      )

module _ (b : Bridge) where
  -- The issuer that a token names is the one of the document exactly if the document is read under a
  -- local host name, or the bridge has one issuer only.
  pub discovered_issuer_iff :
      (host : String) (now : ℕ) (user : UserInfo)
      → ((claims_for b now user).issuer ≡ (handle_discovery b.config host).issuer)
        ↔ ((is_local host ≡ true) ⊎ (b.config.issuer ≡ b.config.external_issuer))
  unfolding handle_discovery token_claims
  discovered_issuer_iff host now user = elim (Bool-cases (is_local host)) [
    | inl local ↦ rw local (λ e. inl refl, λ e. refl)
    | inr remote ↦ rw remote (λ e. inr e, λ x. elim x [ inl e ↦ cc | inr e ↦ e ])
  ]
