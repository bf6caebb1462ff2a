-- ===== src/Controller/Provider/Watches.antt =====
-- internal/controller/openshellprovider_controller.go: which providers are reconciled when a Secret or
-- a gateway changes.
use ogo.Base.{
  String, ◌≡◌, refl, ◌↔◌, inl, inr, Bool, true, false, List, [], ◌∷◌, ◌==◌, ◌||◌, eq_iff, Any,
  Bool-cases, if◌then◌else◌,
}
use ogo.Base.Result.{Result, ok, err}
use ogo.Dict.{Dict}
use ogo.Controller.{ApiError, NamespacedName}
use ogo.Controller.Provider.{ProviderObject, SecretKeyRef}

abbrev pub request_for : ProviderObject → NamespacedName
request_for p = record { name = p.name; namespace = p.namespace }

-- the loop over the credentials, which ends at the first that refers to the Secret
unfoldable pub refers_to : (secret : String) → Dict SecretKeyRef → Bool
refers_to secret [] = false
refers_to secret ((_, ref) ∷ credentials) = ref.name == secret || refers_to secret credentials

unfoldable pub referring : (secret : String) → List ProviderObject → List NamespacedName
unfolding refers_to
referring secret [] = []
referring secret (p ∷ ps) =
    let rest = referring secret ps in
    if refers_to secret p.spec.credentials then request_for p ∷ rest else rest

-- `listed` is what the API answered to the list in the Secret's namespace
unfoldable pub find_providers_for_secret :
    Result ApiError (List ProviderObject) → (secret : String) → List NamespacedName
unfolding referring
find_providers_for_secret (err _) secret = []
find_providers_for_secret (ok ps) secret = referring secret ps

all_requests : List ProviderObject → List NamespacedName
all_requests [] = []
all_requests (p ∷ ps) = request_for p ∷ all_requests ps

unfoldable pub find_providers_for_gateway :
    Result ApiError (List ProviderObject) → List NamespacedName
unfolding all_requests
find_providers_for_gateway (err _) = []
find_providers_for_gateway (ok ps) = all_requests ps

-- a credential of the provider has its value in the Secret
abbrev pub Reads : (secret : String) → ProviderObject → Type 0
Reads secret p = Any (λ (entry : String × SecretKeyRef). entry.1.name ≡ secret) p.spec.credentials

refers_to_iff :
    (secret : String) (credentials : Dict SecretKeyRef)
    → (refers_to secret credentials ≡ true)
      ↔ Any (λ (entry : String × SecretKeyRef). entry.1.name ≡ secret) credentials
unfolding refers_to
refers_to_iff secret [] = (λ e. cc, λ x. absurd x)
refers_to_iff secret ((key, ref) ∷ credentials) =
    let (there, back) = refers_to_iff secret credentials in
    elim (Bool-cases (ref.name == secret)) [
      | inl same ↦ rw (same, ◌||◌) (λ e. inl ((eq_iff ref.name secret).0 same), λ x. refl)
      | inr other ↦
          rw (other, ◌||◌)
            (
              λ e. inr (there e),
              λ x. elim x [
                | inl e ↦
                    let same : (ref.name == secret) ≡ true = (eq_iff ref.name secret).1 e in cc
                | inr y ↦ back y
              ],
            )
    ]

referring_iff :
    (secret : String) (ps : List ProviderObject) (r : NamespacedName)
    → Any (λ q. q ≡ r) (referring secret ps) ↔ Any (λ p. (request_for p ≡ r) × Reads secret p) ps
unfolding referring
referring_iff secret [] r = (λ x. x, λ x. x)
referring_iff secret (p ∷ ps) r =
    let (there, back) = referring_iff secret ps r in
    let (reads, read) = refers_to_iff secret p.spec.credentials in
    elim (Bool-cases (refers_to secret p.spec.credentials)) [
      | inl used ↦
          rw (used, if◌then◌else◌)
            (
              λ x. elim x [ inl e ↦ inl (e, reads used) | inr y ↦ inr (there y) ],
              λ x. elim x [ inl y ↦ inl y.0 | inr y ↦ inr (back y) ],
            )
      | inr unused ↦
          rw (unused, if◌then◌else◌)
            (
              λ x. inr (there x),
              λ x. elim x [
                | inl y ↦ let it : refers_to secret p.spec.credentials ≡ true = read y.1 in cc
                | inr y ↦ back y
              ],
            )
    ]

-- If the list of the providers is answered, then the requests for a changed Secret are exactly
-- those for the listed providers that have a credential which refers to a Secret of that name.
pub find_providers_for_secret_iff :
    (secret : String) (ps : List ProviderObject) (r : NamespacedName)
    → Any (λ q. q ≡ r) (find_providers_for_secret (ok ps) secret)
      ↔ Any (λ p. (request_for p ≡ r) × Reads secret p) ps
unfolding find_providers_for_secret
find_providers_for_secret_iff secret ps r = referring_iff secret ps r
