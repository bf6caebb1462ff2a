-- ===== src/AuthBridge/Startup/Certificate.antt =====
-- cmd/auth-bridge/main.go, dynamicTLSConfigWithTTL: where the certificate of a handshake comes from.
use ogo.Base.{
  ℕ, ◌-◌, String, ◌≡◌, ◌⊎◌, inl, inr, refl, Option, none, some, List, [], ◌∷◌, ltb, All, Bool-cases,
  if◌then◌else◌,
}
use ogo.Base.Result.{Result, ok, err}
use ogo.AuthBridge.Startup.{CachedPair, Handshake, load_certificate, reload, reloaded}

module _ {Pair : Type 0} where
  -- the cache after some handshakes, the latest first
  unfoldable pub after_handshakes : (ttl : ℕ) → List (Handshake Pair) → Option (CachedPair Pair)
  unfolding load_certificate
  after_handshakes ttl [] = none
  after_handshakes ttl (h ∷ hs) = (load_certificate ttl h (after_handshakes ttl hs)).1

  -- one of the handshakes could read this certificate
  abbrev pub WasRead : Pair → List (Handshake Pair) → Type 0
  WasRead p [] = ⊥
  WasRead p (h ∷ hs) = (h.loaded ≡ ok p) ⊎ WasRead p hs

  abbrev pub CouldNotRead : Handshake Pair → Type 0
  CouldNotRead h = (message : String) × (h.loaded ≡ err message)

  -- what a cache holds, and what follows if it holds nothing
  abbrev Sound : List (Handshake Pair) → Option (CachedPair Pair) → Type 0
  Sound hs none = All CouldNotRead hs
  Sound hs (some c) = WasRead c.pair hs

  -- what a handshake answers
  abbrev pub Explained : List (Handshake Pair) → Result String Pair → Type 0
  Explained hs (ok p) = WasRead p hs
  Explained hs (err message) = All CouldNotRead hs

  abbrev Both : List (Handshake Pair) → Result String Pair × Option (CachedPair Pair) → Type 0
  Both hs x = Explained hs x.0 × Sound hs x.1

  reloaded-Both :
      (h : Handshake Pair) (hs : List (Handshake Pair))
      → (x : Result String Pair) (c : Option (CachedPair Pair)) → h.loaded ≡ x
      → Sound hs c
      → Both (h ∷ hs) (reloaded h.loaded_at x c)
  unfolding reloaded
  reloaded-Both h hs (ok p) c e s = (inl e, inl e)
  reloaded-Both h hs (err m) none e s = (((m, e), s), ((m, e), s))
  reloaded-Both h hs (err m) (some c) e s = (inr s, inr s)

  load_certificate-Both :
      (ttl : ℕ) (h : Handshake Pair) (hs : List (Handshake Pair)) (c : Option (CachedPair Pair))
      → Sound hs c
      → Both (h ∷ hs) (load_certificate ttl h c)
  unfolding load_certificate reload
  load_certificate-Both ttl h hs none s = reloaded-Both h hs h.loaded none refl s
  load_certificate-Both ttl h hs (some c) s = elim (Bool-cases (ltb (h.now - c.cached_at) ttl)) [
    | inl fresh ↦ rw (fresh, if◌then◌else◌) (inr s, inr s)
    | inr old ↦ rw (old, if◌then◌else◌) (reloaded-Both h hs h.loaded (some c) refl s)
  ]

  after_handshakes-Sound :
      (ttl : ℕ) (hs : List (Handshake Pair)) → Sound hs (after_handshakes ttl hs)
  unfolding after_handshakes
  after_handshakes-Sound ttl [] = tt
  after_handshakes-Sound ttl (h ∷ hs) =
      (load_certificate-Both ttl h hs (after_handshakes ttl hs) (after_handshakes-Sound ttl hs)).1

  -- After any handshakes, a handshake is given a certificate that could be read at this handshake
  -- or one before, and it is refused only if the files could be read at none of them.
  pub load_certificate-Explained :
      (ttl : ℕ) (h : Handshake Pair) (hs : List (Handshake Pair))
      → Explained (h ∷ hs) (load_certificate ttl h (after_handshakes ttl hs)).0
  load_certificate-Explained ttl h hs =
      (load_certificate-Both ttl h hs (after_handshakes ttl hs) (after_handshakes-Sound ttl hs)).0
