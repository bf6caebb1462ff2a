-- ===== src/Controller/Provider/Payload.antt =====
-- What a push of internal/controller/openshellprovider_controller.go leaves on the gateway.
use ogo.Base.{
  String, ◌≡◌, refl, true, false, Option, none, some, List, [], ◌∷◌, ◌==◌, inl, inr, Bool-cases,
  Option-cases, if◌then◌else◌, arith, eq_iff, contains, ◌∙◌,
}
use ogo.Dict.{Dict, lookup, insert, lookup-insert}
use ogo.Controller.Provider.{retract_missing, payload_for}

-- a value that is not the empty text
abbrev pub if_given : Option String → Option String
if_given none = none
if_given (some v) = if v == "" then none else some v

-- The gateway's update of a map of texts: it sets a key to a value that is given and clears one
-- whose value is empty, and a key that is omitted keeps what it has.
pub record Upsert : Type 0 where
  pub upsert : (payload stored : Dict String) → Dict String
  pub omitted :
      (payload stored : Dict String) (k : String)
      → lookup k payload ≡ none
      → lookup k (upsert payload stored) ≡ lookup k stored
  pub sent :
      (payload stored : Dict String) (k v : String)
      → lookup k payload ≡ some v
      → lookup k (upsert payload stored) ≡ if_given (some v)

lookup-retract_missing :
    (k : String) (desired : Dict String) (keys : List String) (payload : Dict String)
    → lookup k (retract_missing desired keys payload) ≡ elim (lookup k desired) [
      | none ↦ if contains k keys then some "" else lookup k payload
      | some _ ↦ lookup k payload
    ]
unfolding retract_missing contains
lookup-retract_missing k desired [] payload = elim (Option-cases (lookup k desired)) [
  | inl missing ↦ rw missing refl
  | inr (v, found) ↦ rw found refl
]
lookup-retract_missing k desired (key ∷ keys) payload = elim (Option-cases (lookup key desired)) [
  | inl a ↦
      let rest = lookup-retract_missing k desired keys (insert key "" payload) in
      elim (Option-cases (lookup k desired)) [
        | inl b ↦ ground (arith, a, b, rest, lookup-insert key k "" payload, eq_iff key k)
        | inr (v, b) ↦ ground (arith, a, b, rest, lookup-insert key k "" payload, eq_iff key k)
      ]
  | inr (u, a) ↦
      let rest = lookup-retract_missing k desired keys payload in
      elim (Option-cases (lookup k desired)) [
        | inl b ↦ ground (arith, a, b, rest, eq_iff key k)
        | inr (v, b) ↦ ground (arith, a, b, rest)
      ]
]

module _ (gateway : Upsert) where
  -- If every key that the gateway has is one that was reconciled before, then after it has taken
  -- the payload it has exactly the keys that are desired and whose value is not empty, each with
  -- that value.
  pub upsert-payload_for :
      (desired stored : Dict String) (keys : List String)
      → ((k v : String) → lookup k stored ≡ some v → contains k keys ≡ true)
      → (k : String)
      → lookup k (gateway.upsert (payload_for desired keys) stored) ≡ if_given (lookup k desired)
  unfolding payload_for
  upsert-payload_for desired stored keys tracked k =
      let untracked : (j : String) → contains j keys ≡ false → lookup j stored ≡ none = λ j new.
        elim (Option-cases (lookup j stored)) [
          | inl nothing ↦ nothing
          | inr (v, kept) ↦ let old = tracked j v kept in absurd (ground arith)
        ] in
      let there = lookup-retract_missing k desired keys desired in
      let payload = payload_for desired keys in
      elim (Option-cases (lookup k desired)) [
        | inr (v, found) ↦ rw found (gateway.sent payload stored k v (there ∙ rw found found))
        | inl missing ↦ elim (Bool-cases (contains k keys)) [
          | inl old ↦ rw missing (gateway.sent payload stored k "" (there ∙ rw (missing, old) refl))
          | inr new ↦ rw missing (
              gateway.omitted payload stored k (there ∙ rw (missing, new) missing)
              ∙ untracked k new)
        ]
      ]
