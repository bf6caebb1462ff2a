-- ===== src/Pki.antt =====
-- internal/pki/pki.go: the certificates and keys that the operator makes. Go's packages crypto, x509,
-- pem, hex, net and time are the record `Go`; keys, DER and PEM are texts of bytes. Each certificate
-- is made at a moment of its own, a number: what is drawn at random and the clock depend on it.
-- crypto/rand does not fail in this version of Go, so a serial number is always drawn.
pub mod Drift
pub mod Chain
pub mod Tests
use Prim.Native.String.{◌++◌}
use ogo.Base.{
  ℕ, ◌+◌, ◌-◌, ◌*◌, String, Bool, true, false, Option, none, some, List, [], ◌∷◌, append_one, take,
}
use ogo.Base.Result.{Result, ok, err, ◌>>=◌}
use ogo.AuthBridge.{minute}

pub data KeyUsage : Type 0 where
  cert_sign crl_sign digital_signature key_encipherment : KeyUsage

pub data ExtKeyUsage : Type 0 where
  server_auth client_auth : ExtKeyUsage

-- `x509.Certificate`, as far as the templates set it
pub record Certificate : Type 0 where
  pub serial_number : ℕ
  pub common_name : String
  pub not_before : ℕ
  pub not_after : ℕ
  pub key_usage : List KeyUsage
  pub ext_key_usage : List ExtKeyUsage
  pub basic_constraints_valid : Bool
  pub is_ca : Bool
  pub ip_addresses : List String
  pub dns_names : List String

pub record Go : Type 0 where
  pub generate_ecdsa : ℕ → Result String String  -- a private key on P-256
  pub generate_rsa : ℕ → Result String String  -- a private key of 2048 bits
  pub generate_ed25519 : ℕ → Result String (String × String)  -- the public and the private key
  pub public_key : String → String
  pub random_int : ℕ → (limit : ℕ) → ℕ
  pub now : ℕ → ℕ
  -- a certificate from its template, its parent, its public key and the parent's private key
  pub create_certificate : ℕ → Certificate → Certificate → String → String → Result String String
  pub parse_certificate : String → Result String Certificate
  pub parse_ip : String → Option String
  pub marshal_ec_private_key : String → Result String String
  pub marshal_pkcs8_private_key : String → Result String String
  pub marshal_pkcs1_public_key : String → String
  pub marshal_pkix_public_key : String → Result String String
  pub pem_encode : (kind bytes : String) → String
  pub sha256 : String → List ℕ
  pub hex : List ℕ → String

pub record Bundle : Type 0 where
  pub ca_cert : String
  pub ca_key : String
  pub server_cert : String
  pub server_key : String
  pub client_cert : String
  pub client_key : String

pub record JwtKeys : Type 0 where
  pub signing_key : String
  pub public_key : String
  pub kid : String

abbrev pub hour : ℕ
hour = 60 * minute

-- `new(big.Int).Lsh(big.NewInt(1), 128)`
abbrev pub serial_limit : ℕ
serial_limit = 340282366920938463463374607431768211456

-- `fmt.Errorf("context: %w", err)`
unfoldable pub in_context : {A : Type 0} → (context : String) → Result String A → Result String A
in_context context (ok a) = ok a
in_context context (err e) = err (context ++ e)

-- a certificate followed by the one that signed it, for TLS clients that want the whole chain
abbrev pub with_chain : (leaf ca : String) → String
with_chain leaf ca = leaf ++ ca

-- What the loop of `HashSANs` writes to the hash: each name and a zero byte.
unfoldable pub hashed_input : List String → String
hashed_input [] = ""
hashed_input (san ∷ sans) = san ++ ("\0" ++ hashed_input sans)

module _ (go : Go) where
  -- the hex digits of the first 16 bytes of a hash
  unfoldable pub short_hash : String → String
  short_hash bytes = go.hex (take 16 (go.sha256 bytes))

  unfoldable pub hash_sans : List String → String
  unfolding short_hash hashed_input
  hash_sans sans = short_hash (hashed_input sans)

  unfoldable pub new_serial : ℕ → ℕ
  new_serial moment = go.random_int moment serial_limit

  unfoldable pub pem_encode_cert : String → String
  pem_encode_cert der = go.pem_encode "CERTIFICATE" der

  unfoldable pub marshal_ec_private_key : String → Result String String
  unfolding in_context
  marshal_ec_private_key key = do
    der ← in_context "marshaling EC private key: " (go.marshal_ec_private_key key)
    ok (go.pem_encode "EC PRIVATE KEY" der)

  -- one round of the loop over the names: an address or a DNS name
  unfoldable pub add_san : Certificate → (san : String) → Option String → Certificate
  add_san template san (some ip) = record template {
    ip_addresses = append_one template.ip_addresses ip;
  }
  add_san template san none = record template { dns_names = append_one template.dns_names san }

  unfoldable pub add_sans : Certificate → List String → Certificate
  unfolding add_san
  add_sans template [] = template
  add_sans template (san ∷ sans) = add_sans (add_san template san (go.parse_ip san)) sans

  -- the template of `issueCert` before the names are added
  unfoldable pub leaf_template : (moment : ℕ) → (cn : String) → ExtKeyUsage → Certificate
  unfolding new_serial
  leaf_template moment cn usage = record {
    serial_number = new_serial moment;
    common_name = cn;
    not_before = go.now moment - hour;
    not_after = go.now moment + 365 * 24 * hour;
    key_usage = digital_signature ∷ key_encipherment ∷ [];
    ext_key_usage = usage ∷ [];
    basic_constraints_valid = true;
    is_ca = false;
    ip_addresses = [];
    dns_names = [];
  }

  -- the certificate and the key, both PEM
  unfoldable pub issue_cert :
      (moment : ℕ)
      → Certificate
      → (ca_key cn : String) → (sans : List String) → ExtKeyUsage
      → Result String (String × String)
  unfolding add_sans leaf_template marshal_ec_private_key pem_encode_cert
  issue_cert moment ca_cert ca_key cn sans usage = do
    key ← go.generate_ecdsa moment
    let template = add_sans (leaf_template moment cn usage) sans
    cert_der ← go.create_certificate moment template ca_cert (go.public_key key) ca_key
    key_bytes ← marshal_ec_private_key key
    ok (pem_encode_cert cert_der, key_bytes)

  unfoldable pub ca_template : (moment : ℕ) → Certificate
  unfolding new_serial
  ca_template moment = record {
    serial_number = new_serial moment;
    common_name = "openshell-ca";
    not_before = go.now moment - hour;
    not_after = go.now moment + 10 * 365 * 24 * hour;
    key_usage = cert_sign ∷ crl_sign ∷ [];
    ext_key_usage = [];
    basic_constraints_valid = true;
    is_ca = true;
    ip_addresses = [];
    dns_names = [];
  }

  -- `GeneratePKI`: the CA is made first, then the server's certificate, then the client's
  unfoldable pub generate_pki : (moment : ℕ) → List String → Result String Bundle
  unfolding in_context ca_template issue_cert marshal_ec_private_key pem_encode_cert
  generate_pki moment sans = do
    ca_key ← in_context "generating CA key: " (go.generate_ecdsa moment)
    let template = ca_template moment
    ca_der ←
        in_context "creating CA certificate: "
          (go.create_certificate moment template template (go.public_key ca_key) ca_key)
    ca_cert ← in_context "parsing CA certificate: " (go.parse_certificate ca_der)
    server ←
        in_context "issuing server certificate: "
          (issue_cert (moment + 1) ca_cert ca_key "openshell-server" sans server_auth)
    client ←
        in_context "issuing client certificate: "
          (issue_cert (moment + 2) ca_cert ca_key "openshell-client" [] client_auth)
    ca_key_bytes ← marshal_ec_private_key ca_key
    let ca_pem = pem_encode_cert ca_der
    ok (record {
      ca_cert = ca_pem;
      ca_key = ca_key_bytes;
      server_cert = with_chain server.0 ca_pem;
      server_key = server.1;
      client_cert = client.0;
      client_key = client.1;
    })

  unfoldable pub generate_rsa_keys : (moment : ℕ) → Result String JwtKeys
  unfolding in_context short_hash
  generate_rsa_keys moment = do
    key ← in_context "generating RSA key: " (go.generate_rsa moment)
    private_bytes ← in_context "marshaling RSA private key: " (go.marshal_pkcs8_private_key key)
    let public_bytes = go.marshal_pkcs1_public_key (go.public_key key)
    ok (record {
      signing_key = go.pem_encode "PRIVATE KEY" private_bytes;
      public_key = go.pem_encode "RSA PUBLIC KEY" public_bytes;
      kid = short_hash public_bytes;
    })

  unfoldable pub generate_jwt_keys : (moment : ℕ) → Result String JwtKeys
  unfolding in_context short_hash
  generate_jwt_keys moment = do
    pair ← in_context "generating Ed25519 key: " (go.generate_ed25519 moment)
    private_bytes ← in_context "marshaling private key: " (go.marshal_pkcs8_private_key pair.1)
    public_bytes ← in_context "marshaling public key: " (go.marshal_pkix_public_key pair.0)
    ok (record {
      signing_key = go.pem_encode "PRIVATE KEY" private_bytes;
      public_key = go.pem_encode "PUBLIC KEY" public_bytes;
      kid = short_hash public_bytes;
    })
