-- ===== src/AuthBridge/ClientState.antt =====
-- `splitState` of internal/authbridge/server.go, and the combined state that `handleAuthorize`
-- sends to OpenShift.
use Prim.Native.Char.{Char, code}
use Prim.Native.String.{[], ◌∷◌, ◌++◌}
use text.Mathlib.TextLemmas.{nil-append, cons-append}
use text.Mathlib.TextEquality.{Char-path}
use ogo.Base.{
  ℕ, String, ◌≡◌, ◌⊎◌, inl, inr, refl, arith, if◌then◌else◌, nat_eq, ap, ◌∙◌, true, false,
  Bool-cases,
}

abbrev pub colon : ℕ
colon = b':'

-- the two results of `splitState`
pub record Parts : Type 0 where
  pub bridge : String
  pub client : String

-- The first clause ends the loop: no colon was found, and the second part is empty.
unfoldable pub split_state : String → Parts
split_state [] = record { bridge = []; client = [] }
split_state (c ∷ s) =
    let rest = split_state s in
    if nat_eq (code c) colon
    then record { bridge = []; client = s }
    else record { bridge = c ∷ rest.bridge; client = rest.client }

-- `bridgeState + ":" + state`
unfoldable pub combined_state : String → String → String
combined_state bridge client = bridge ++ (":" ++ client)

abbrev pub NoColon : String → Type 0
NoColon [] = Unit
NoColon (c ∷ s) = (nat_eq (code c) colon ≡ false) × NoColon s

colon-append : (s : String) → ":" ++ s ≡ ":" ∷ s
colon-append s = cons-append ":" [] s ∙ ap (λ t. ":" ∷ t) (nil-append s)

colon_of_code : (c : Char) → nat_eq (code c) colon ≡ true → c ≡ ":"
colon_of_code c h = Char-path c ":" (ground arith)

-- The state that comes back is taken apart into the code and the client's own state, whatever
-- colons the latter has, if the code has none.
pub split_state-combined_state :
    (bridge client : String)
    → NoColon bridge
    → split_state (combined_state bridge client) ≡ record { bridge = bridge; client = client }
unfolding split_state combined_state
split_state-combined_state [] client h = rw (nil-append, colon-append)
split_state-combined_state (c ∷ s) client (h, hs) =
    rw (cons-append, split_state) (rw (h, split_state-combined_state s client hs))

-- The first part of a text that is split has no colon, and the text is the two parts joined by a
-- colon, or it is the first part and the second is empty.
pub split_state_cases :
    (s : String)
    → NoColon (split_state s).bridge
      × ((s ≡ combined_state (split_state s).bridge (split_state s).client)
          ⊎ ((split_state s).bridge ≡ s) × ((split_state s).client ≡ ""))
unfolding split_state combined_state
split_state_cases [] = (tt, inr (refl, refl))
split_state_cases (c ∷ s) = elim (Bool-cases (nat_eq (code c) colon)) [
  | inl is_colon ↦
      rw is_colon
        (tt, inl (rw (nil-append, colon-append) (ap (λ d. d ∷ s) (colon_of_code c is_colon))))
  | inr other ↦ rw other (
    (other, (split_state_cases s).0),
    elim ((split_state_cases s).1) [
      | inl joined ↦ inl (rw cons-append (ap (λ t. c ∷ t) joined))
      | inr (whole, none_left) ↦ inr (ap (λ t. c ∷ t) whole, none_left)
    ],
  )
]
