-- ===== src/Pki/Drift.antt =====
-- internal/pki/pki.go, HashSANs: lists of names and the bytes that are hashed for them.
use ogo.Base.{String, ◌≡◌, refl, sym, List, [], ◌∷◌, All}
use ogo.Text.Separated.{Lacks, joined-inj, joined-ne-nil}
use ogo.Pki.{hashed_input}

-- a name without a zero byte
abbrev pub NoNul : String → Type 0
NoNul = Lacks "\0"

pub hashed_input-inj :
    (ss ts : List String)
    → All NoNul ss
    → All NoNul ts
    → hashed_input ss ≡ hashed_input ts
    → ss ≡ ts
unfolding hashed_input
hashed_input-inj [] [] h k e = refl
hashed_input-inj [] (t ∷ ts) h k e = absurd (joined-ne-nil "\0" t (hashed_input ts) (sym e))
hashed_input-inj (s ∷ ss) [] h k e = absurd (joined-ne-nil "\0" s (hashed_input ss) e)
hashed_input-inj (s ∷ ss) (t ∷ ts) (h, hs) (k, ks) e =
    let (same, rest) = joined-inj "\0" s t (hashed_input ss) (hashed_input ts) h k e in
    let others : ss ≡ ts = hashed_input-inj ss ts hs ks rest in cc
