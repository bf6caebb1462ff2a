-- ===== src/AuthBridge/Redirect.antt =====
-- `isAllowedRedirectURI` of internal/authbridge/server.go. Parsing a URL is Go's net/url, a
-- parameter.
use ogo.Base.{
  String, ◌≡◌, ◌≢◌, ◌⊎◌, Bool, true, false, Option, none, some, arith, ◌==◌, eq_iff, starts_with,
  not, ◌&&◌, ◌||◌, if◌then◌else◌,
}
use text.Mathlib.TextBridge.{IsPrefix}
use text.Mathlib.TextEquality.{starts_with_iff}
use ogo.Base.{◌↔◌, Bool-cases, Option-cases, inl, inr}
use ogo.AuthBridge.{Config, Url}

-- the host is this machine, with or without a port
abbrev is_loopback : String → Bool
is_loopback host =
    host == "localhost"
    || host == "127.0.0.1"
    || starts_with host "localhost:"
    || starts_with host "127.0.0.1:"

-- A host that names this machine.
abbrev pub IsLoopback : String → Type 0
IsLoopback host =
    (host ≡ "localhost")
    ⊎ (host ≡ "127.0.0.1")
    ⊎ IsPrefix "localhost:" host
    ⊎ IsPrefix "127.0.0.1:" host

is_loopback_iff : (host : String) → (is_loopback host ≡ true) ↔ IsLoopback host
is_loopback_iff host = ground (
  arith,
  eq_iff host "localhost",
  eq_iff host "127.0.0.1",
  starts_with_iff host "localhost:",
  starts_with_iff host "127.0.0.1:",
)

module _ (parse : String → Option Url) where
  -- the last test: the bridge's own callback page
  is_own_callback : Config → Url → Bool
  is_own_callback c u =
      if not (c.external_issuer == "")
      then elim (parse c.external_issuer) [
        | none ↦ false
        | some allowed ↦ u.host == allowed.host && starts_with u.path "/callback"
      ]
      else false

  unfoldable pub is_allowed_redirect_uri : Config → String → Bool
  unfolding is_own_callback
  is_allowed_redirect_uri c uri = if uri == "" then false else elim (parse uri) [
    | none ↦ false
    | some u ↦
        if u.host == ""
        then false
        else if not (u.scheme == "http") && not (u.scheme == "https")
        then false
        else if is_loopback u.host
        then true
        else is_own_callback c u
  ]

  abbrev pub IsOwnCallback : Config → Url → Type 0
  IsOwnCallback c u =
      (c.external_issuer ≢ "")
      × ((allowed : Url) × (parse c.external_issuer ≡ some allowed)
          × (u.host ≡ allowed.host)
          × IsPrefix "/callback" u.path)

  pub record IsAllowed (c : Config) (uri : String) : Type 0 where
    pub url : Url
    pub not_empty : uri ≢ ""
    pub parsed : parse uri ≡ some url
    pub has_host : url.host ≢ ""
    pub web : (url.scheme ≡ "http") ⊎ (url.scheme ≡ "https")
    pub target : IsLoopback url.host ⊎ IsOwnCallback c url

  IsOwnCallback-sound : (c : Config) (u : Url) → is_own_callback c u ≡ true → IsOwnCallback c u
  unfolding is_own_callback
  IsOwnCallback-sound c u h = elim (Option-cases (parse c.external_issuer)) [
    | inl unparsed ↦ absurd (ground arith)
    | inr (allowed, parsed) ↦
        let path : starts_with u.path "/callback" ≡ true = ground arith in
        (
          ground (arith, eq_iff c.external_issuer ""),
          (
            allowed,
            parsed,
            ground (arith, eq_iff u.host allowed.host),
            (starts_with_iff _ _).0 path,
          ),
        )
  ]

  IsOwnCallback-complete : (c : Config) (u : Url) → IsOwnCallback c u → is_own_callback c u ≡ true
  unfolding is_own_callback
  IsOwnCallback-complete c u (set, (allowed, parsed, host, path)) =
      ground (
        arith,
        eq_iff c.external_issuer "",
        eq_iff u.host allowed.host,
        (starts_with_iff _ _).1 path,
      )

  -- The tests on the parsed URL.
  url_sound :
      (c : Config) (uri : String) (u : Url)
      → parse uri ≡ some u
      → is_allowed_redirect_uri c uri ≡ true
      → IsAllowed c uri
  unfolding is_allowed_redirect_uri
  url_sound c uri u parsed h = record {
    url = u;
    not_empty = ground (arith, eq_iff uri "");
    parsed = parsed;
    has_host = ground (arith, eq_iff u.host "");
    web = ground (arith, eq_iff u.scheme "http", eq_iff u.scheme "https");
    target = elim (Bool-cases (is_loopback u.host)) [
      | inl here ↦ inl ((is_loopback_iff u.host).0 here)
      | inr away ↦ inr (IsOwnCallback-sound c u (ground arith))
    ];
  }

  -- A redirect URI is accepted exactly when it is not empty and parses to an http or https URL
  -- with a host, and the name of that host is one of this machine, or an external issuer is
  -- configured and parses, the host is that of the issuer, and the path begins with /callback.
  pub is_allowed_redirect_uri_iff :
      (c : Config) (uri : String) → (is_allowed_redirect_uri c uri ≡ true) ↔ IsAllowed c uri
  is_allowed_redirect_uri_iff c uri = (sound, complete)
    where
      sound : is_allowed_redirect_uri c uri ≡ true → IsAllowed c uri
      sound h = elim (Option-cases (parse uri)) [
        | inl unparsed ↦ absurd (unfold is_allowed_redirect_uri in ground arith)
        | inr (u, parsed) ↦ url_sound c uri u parsed h
      ]

      complete : IsAllowed c uri → is_allowed_redirect_uri c uri ≡ true
      complete a =
          unfold is_allowed_redirect_uri in
          ground (
            arith,
            a.parsed,
            eq_iff uri "",
            eq_iff a.url.host "",
            eq_iff a.url.scheme "http",
            eq_iff a.url.scheme "https",
            (is_loopback_iff a.url.host).1,
            IsOwnCallback-complete c a.url,
          )
