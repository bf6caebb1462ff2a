-- ===== src/Pki/Chain.antt =====
-- internal/pki/pki.go, GeneratePKI: what the certificates of a bundle were made from.
use mathlib.Core.List.{append_assoc, append-nil}
use ogo.Base.{
  ℕ, ◌+◌, ◌-◌, ◌*◌, String, ◌≡◌, refl, sym, ap, subst, ◌∙◌, false, Option, none, some, List, [],
  ◌∷◌, ◌++◌,
}
use ogo.Base.Result.{Result, ok, err, >>=-eq-ok, ok-inj}
use ogo.Pki.{new_serial}
use ogo.Pki.{
  with_chain, hour, serial_limit, Go, Certificate, ExtKeyUsage, server_auth, client_auth, Bundle,
  in_context, add_san, add_sans, leaf_template, ca_template, issue_cert, generate_pki,
  pem_encode_cert, marshal_ec_private_key,
}

in_context-eq-ok :
    {A : Type 0} (context : String) (x : Result String A) {a : A}
    → in_context context x ≡ ok a
    → x ≡ ok a
unfolding in_context
in_context-eq-ok context (ok b) e = e
in_context-eq-ok context (err message) e = cc

abbrev with_address : Option String → List String → List String
with_address none ips = ips
with_address (some ip) ips = ip ∷ ips

abbrev with_host : String → Option String → List String → List String
with_host san none names = san ∷ names
with_host san (some _) names = names

module _ (go : Go) where
  -- the addresses among the names, and the others
  abbrev pub addresses : List String → List String
  addresses [] = []
  addresses (san ∷ sans) = with_address (go.parse_ip san) (addresses sans)

  abbrev pub hosts : List String → List String
  hosts [] = []
  hosts (san ∷ sans) = with_host san (go.parse_ip san) (hosts sans)

  -- a template with names added
  abbrev renamed : Certificate → (ips names : List String) → Certificate
  renamed t ips names = record t {
    ip_addresses = t.ip_addresses ++ ips;
    dns_names = t.dns_names ++ names;
  }

  add_san-renamed :
      (t : Certificate) (san : String) (x : Option String) (ips names : List String)
      → renamed (add_san go t san x) ips names
        ≡ renamed t (with_address x ips) (with_host san x names)
  unfolding add_san
  add_san-renamed t san none ips names =
      ap (λ u. record t { ip_addresses = t.ip_addresses ++ ips; dns_names = u })
        (append_assoc t.dns_names (san ∷ []) names)
  add_san-renamed t san (some ip) ips names =
      ap (λ u. record t { ip_addresses = u; dns_names = t.dns_names ++ names })
        (append_assoc t.ip_addresses (ip ∷ []) ips)

  add_sans-renamed :
      (t : Certificate) (sans : List String)
      → add_sans go t sans ≡ renamed t (addresses sans) (hosts sans)
  unfolding add_sans
  add_sans-renamed t [] =
      ap (λ u. record t { ip_addresses = u }) (sym (append-nil t.ip_addresses))
      ∙ ap (λ u. record t { ip_addresses = t.ip_addresses ++ []; dns_names = u })
          (sym (append-nil t.dns_names))
  add_sans-renamed t (san ∷ sans) =
      add_sans-renamed (add_san go t san (go.parse_ip san)) sans
      ∙ add_san-renamed t san (go.parse_ip san) (addresses sans) (hosts sans)

  -- a leaf certificate and its key: it is signed by the CA, for one use and for these names
  pub record IsLeaf (moment : ℕ) (ca : Certificate) (ca_key cn : String) (sans : List String)
      (usage : ExtKeyUsage) (cert_pem key_pem : String) : Type 0 where
    pub key : String
    pub der : String
    pub template : Certificate
    pub drawn : go.generate_ecdsa moment ≡ ok key
    pub signed : go.create_certificate moment template ca (go.public_key key) ca_key ≡ ok der
    pub cert : cert_pem ≡ pem_encode_cert go der
    pub key_encoded : marshal_ec_private_key go key ≡ ok key_pem
    pub subject : template.common_name ≡ cn
    pub usages : template.ext_key_usage ≡ usage ∷ []
    pub serial : template.serial_number ≡ go.random_int moment serial_limit
    pub begins : template.not_before ≡ go.now moment - hour
    pub ends : template.not_after ≡ go.now moment + 365 * 24 * hour
    pub not_ca : template.is_ca ≡ false
    pub ips : template.ip_addresses ≡ addresses sans
    pub names : template.dns_names ≡ hosts sans

  issue_cert-IsLeaf :
      (moment : ℕ) (ca : Certificate) (ca_key cn : String) (sans : List String)
      (usage : ExtKeyUsage) {pair : String × String}
      → issue_cert go moment ca ca_key cn sans usage ≡ ok pair
      → IsLeaf moment ca ca_key cn sans usage pair.0 pair.1
  unfolding issue_cert leaf_template new_serial
  issue_cert-IsLeaf moment ca ca_key cn sans usage {pair} e =
      let (key, drawn, e1) = >>=-eq-ok (go.generate_ecdsa moment) _ e in
      let (der, signed, e2) = >>=-eq-ok (go.create_certificate moment _ ca _ ca_key) _ e1 in
      let (pem, encoded, e3) = >>=-eq-ok (marshal_ec_private_key go key) _ e2 in
      let named = add_sans-renamed (leaf_template go moment cn usage) sans in
      let answer : (pem_encode_cert go der, pem) ≡ pair = ok-inj e3 in
      record {
        key = key;
        der = der;
        template = add_sans go (leaf_template go moment cn usage) sans;
        drawn = drawn;
        signed = signed;
        cert = sym (ap (λ (p : String × String). p.0) answer);
        key_encoded = encoded ∙ ap (λ (p : String × String). ok p.1) answer;
        subject = ap (λ (c : Certificate). c.common_name) named;
        usages = ap (λ (c : Certificate). c.ext_key_usage) named;
        serial = ap (λ (c : Certificate). c.serial_number) named;
        begins = ap (λ (c : Certificate). c.not_before) named;
        ends = ap (λ (c : Certificate). c.not_after) named;
        not_ca = ap (λ (c : Certificate). c.is_ca) named;
        ips = ap (λ (c : Certificate). c.ip_addresses) named;
        names = ap (λ (c : Certificate). c.dns_names) named;
      }

  -- the two leaf certificates of a bundle under one CA; the server's comes with the CA's own
  pub record IsChain (moment : ℕ) (sans : List String) (b : Bundle) : Type 0 where
    pub ca_key : String
    pub ca_der : String
    pub ca : Certificate
    pub self_signed :
        go.create_certificate moment
          (ca_template go moment)
          (ca_template go moment)
          (go.public_key ca_key)
          ca_key
        ≡ ok ca_der
    pub parsed : go.parse_certificate ca_der ≡ ok ca
    pub ca_cert : b.ca_cert ≡ pem_encode_cert go ca_der
    pub ca_key_encoded : marshal_ec_private_key go ca_key ≡ ok b.ca_key
    pub server_pem : String
    pub server :
        IsLeaf (moment + 1) ca ca_key "openshell-server" sans server_auth server_pem b.server_key
    pub chain : b.server_cert ≡ with_chain server_pem b.ca_cert
    pub client :
        IsLeaf (moment + 2) ca ca_key "openshell-client" [] client_auth b.client_cert b.client_key

  -- If the certificates are generated, then there is a self-signed CA, whose certificate and key
  -- are those of the bundle, and the CA signed a certificate for the server, for server
  -- authentication, with the addresses among the names as addresses and the others as DNS names,
  -- each in order, and one for the client, for client authentication and without a name; both are
  -- valid from one hour before they are made to 365 days after, neither is a CA, the keys of the
  -- bundle are theirs, and the server's certificate is followed by the CA's.
  pub generate_pki-IsChain :
      (moment : ℕ) (sans : List String) {b : Bundle}
      → generate_pki go moment sans ≡ ok b
      → IsChain moment sans b
  unfolding generate_pki
  generate_pki-IsChain moment sans {b} e =
      let (ca_key, drawn, e1) =
        >>=-eq-ok (in_context "generating CA key: " (go.generate_ecdsa moment)) _ e in
      let (ca_der, signed, e2) = >>=-eq-ok (in_context "creating CA certificate: " _) _ e1 in
      let (ca, parsed, e3) =
        >>=-eq-ok (in_context "parsing CA certificate: " (go.parse_certificate ca_der)) _ e2 in
      let (server, issued, e4) = >>=-eq-ok (in_context "issuing server certificate: " _) _ e3 in
      let (client, granted, e5) = >>=-eq-ok (in_context "issuing client certificate: " _) _ e4 in
      let (key_bytes, encoded, e6) = >>=-eq-ok (marshal_ec_private_key go ca_key) _ e5 in
      let bundle : Bundle = record {
        ca_cert = pem_encode_cert go ca_der;
        ca_key = key_bytes;
        server_cert = with_chain server.0 (pem_encode_cert go ca_der);
        server_key = server.1;
        client_cert = client.0;
        client_key = client.1;
      } in
      let answer : bundle ≡ b = ok-inj e6 in
      subst (IsChain moment sans) answer (record {
        ca_key = ca_key;
        ca_der = ca_der;
        ca = ca;
        self_signed = in_context-eq-ok "creating CA certificate: " _ signed;
        parsed = in_context-eq-ok "parsing CA certificate: " _ parsed;
        ca_cert = refl;
        ca_key_encoded = encoded;
        server_pem = server.0;
        server =
            issue_cert-IsLeaf (moment + 1) ca ca_key "openshell-server" sans server_auth
              (in_context-eq-ok "issuing server certificate: " _ issued);
        chain = refl;
        client =
            issue_cert-IsLeaf (moment + 2) ca ca_key "openshell-client" [] client_auth
              (in_context-eq-ok "issuing client certificate: " _ granted);
      })
