-- ===== src/Operator/Reconcile/Steps.antt =====
-- internal/controller/openshellgateway_controller.go, Reconcile: the loop over the steps against the
-- relation that says how a run of steps may go.
use ogo.Base.{String, List, [], ◌∷◌, ◌≡◌, refl, ap, ◌∙◌}
use ogo.Base.Result.{Result, ok, err}
use ogo.Controller.{ApiError}
use ogo.Operator.Kube.{K, Run}
use ogo.Operator.Reconcile.{Step, Stop, run_steps, after_step}

-- A run of steps goes from a state to a state: all are done, or one fails and none follows it.
pub data Goes : List Step → Run → Stop → Run → Type 0 where
  finished : (r : Run) → Goes [] r (ok tt) r
  passed :
      (name : String) (step : K (Unit {0})) (steps : List Step) (r r' r'' : Run) (s : Stop)
      → step r ≡ (ok tt, r')
      → Goes steps r' s r''
      → Goes ((name, step) ∷ steps) r s r''
  failed :
      (name : String) (step : K (Unit {0})) (steps : List Step) (r r' : Run) (e : ApiError)
      → step r ≡ (err e, r')
      → Goes ((name, step) ∷ steps) r (err (name, e)) r'

-- how a run goes, together with what the loop computes
abbrev Computes : List Step → Run → Type 0
Computes steps r = (s : Stop) × (r' : Run) × (run_steps steps r ≡ (ok s, r')) × Goes steps r s r'

step-Computes :
    (name : String) (step : K (Unit {0})) (steps : List Step) (r : Run)
    → (x : Result ApiError (Unit {0})) (r1 : Run) → step r ≡ (x, r1)
    → Computes steps r1
    → Computes ((name, step) ∷ steps) r
unfolding run_steps after_step
step-Computes name step steps r (err e) r1 went _ = (
  err (name, e),
  r1,
  ap (λ p. after_step name (run_steps steps) p.0 p.1) went,
  failed name step steps r r1 e went,
)
step-Computes name step steps r (ok _) r1 went (s, r', eq, goes) = (
  s,
  r',
  ap (λ p. after_step name (run_steps steps) p.0 p.1) went ∙ eq,
  passed name step steps r r1 r' s went goes,
)

-- Running a list of steps always ends without an error of its own, and goes as the relation Goes
-- allows: each step is run on the state that the one before it left, and either all succeed, or
-- the run stops at the first that fails, with its name and its error, and no later step is run.
pub run_steps-Goes :
    (steps : List Step) (r : Run)
    → (s : Stop) × (r' : Run) × (run_steps steps r ≡ (ok s, r')) × Goes steps r s r'
unfolding run_steps
run_steps-Goes [] r = (ok tt, r, refl, finished r)
run_steps-Goes ((name, step) ∷ steps) r =
    step-Computes name step steps r (step r).0 (step r).1 refl (run_steps-Goes steps (step r).1)
