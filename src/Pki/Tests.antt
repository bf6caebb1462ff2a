-- ===== src/Pki/Tests.antt =====
-- Go's packages for the tests, and a bundle made with them. The hash tells "old" from all else.
use Prim.Native.String.{◌++◌}
use ogo.Base.{refl, false, none, some, [], ◌∷◌, ◌==◌, if◌then◌else◌}
use ogo.Base.Result.{ok}
use ogo.Pki.{Go, Certificate, Bundle, generate_pki}
use ogo.Pki.Chain.{IsChain, generate_pki-IsChain}

-- what `ParseCertificate` makes of the test's DER
abbrev parsed : Certificate
parsed = record {
  serial_number = 0;
  common_name = "openshell-ca";
  not_before = 0;
  not_after = 0;
  key_usage = [];
  ext_key_usage = [];
  basic_constraints_valid = false;
  is_ca = false;
  ip_addresses = [];
  dns_names = [];
}

abbrev pub packages : Go
packages = record {
  generate_ecdsa = λ n. ok "key";
  generate_rsa = λ n. ok "rsa";
  generate_ed25519 = λ n. ok ("public", "private");
  public_key = λ k. "public " ++ k;
  random_int = λ n limit. n;
  now = λ n. n;
  create_certificate = λ n template parent public_key private_key. ok template.common_name;
  parse_certificate = λ der. ok parsed;
  parse_ip = λ s. if s == "127.0.0.1" then some "\u{7f}\0\0\u{1}" else none;
  marshal_ec_private_key = λ k. ok k;
  marshal_pkcs8_private_key = λ k. ok k;
  marshal_pkcs1_public_key = λ k. k;
  marshal_pkix_public_key = λ k. ok k;
  pem_encode = λ kind bytes. kind ++ (": " ++ bytes);
  sha256 = λ bytes. if bytes == "old\0" then 1 ∷ [] else [];
  hex = λ bytes. elim bytes [ [] ↦ "hash" | n ∷ rest ↦ "old hash" ];
}

abbrev pub bundle : Bundle
bundle = record {
  ca_cert = "CERTIFICATE: openshell-ca";
  ca_key = "EC PRIVATE KEY: key";
  server_cert = "CERTIFICATE: openshell-serverCERTIFICATE: openshell-ca";
  server_key = "EC PRIVATE KEY: key";
  client_cert = "CERTIFICATE: openshell-client";
  client_key = "EC PRIVATE KEY: key";
}

generate_pki-IsChain_example : IsChain packages 7 ("gw" ∷ "127.0.0.1" ∷ []) bundle
unfolding generate_pki
generate_pki-IsChain_example = generate_pki-IsChain packages 7 ("gw" ∷ "127.0.0.1" ∷ []) refl
