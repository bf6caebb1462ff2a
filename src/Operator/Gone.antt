-- ===== src/Operator/Gone.antt =====
-- internal/controller/openshellgateway_controller.go: objects that a reconcile has deleted, or found
-- missing when it deleted them.
use ogo.Base.{◌≡◌, ◌⊎◌, ap, true, Option, none, some, List, [], ◌∷◌, All, arith}
use ogo.Base.Result.{Result, ok}
use ogo.Controller.{ApiError}
use ogo.Operator.Kube.{Key, deleted, Trace, Run, K, ◌>>=◌, unless_error}
use ogo.Operator.Reconcile.Delete.{counted}

abbrev pub IsGone : Option ApiError → Type 0
IsGone none = Unit
IsGone (some e) = e.not_found ≡ true

-- the cluster deleted the object, or had none of this name
abbrev pub Gone : Key → Trace → Type 0
Gone key [] = ⊥
Gone key (deleted k e ∷ t) = ((k ≡ key) × IsGone e) ⊎ Gone key t
Gone key (_ ∷ t) = Gone key t

pub bind-ok :
    {A B : Type 0} (m : K A) (f : A → K B) (r : Run) {a : A} {r' : Run}
    → m r ≡ (ok a, r')
    → (m >>= f) r ≡ f a r'
bind-ok m f r e = ap (λ p. ((λ (_ : Run). p) >>= f) r) e

-- a computation that cannot fail
abbrev pub Total : {A : Type 0} → Result ApiError A × Run → Type 0
Total {A} x = (a : A) × (r' : Run) × (x ≡ (ok a, r'))

pub counted-IsGone : (e : Option ApiError) → counted (unless_error e) ≡ 0 → IsGone e
unfolding counted
counted-IsGone none h = tt
counted-IsGone (some e) h = ground arith

pub weaken :
    (t u : Trace) (keys : List Key)
    → ((key : Key) → Gone key t → Gone key u)
    → All (λ key. Gone key t) keys
    → All (λ key. Gone key u) keys
weaken t u [] f h = tt
weaken t u (key ∷ keys) f (g, h) = (f key g, weaken t u keys f h)
