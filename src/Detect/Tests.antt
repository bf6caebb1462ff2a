-- ===== src/Detect/Tests.antt =====
-- internal/openshift/detect.go: a cluster whose answer changes between two calls.
use ogo.Base.{◌+◌, ◌*◌, ◌≡◌, ◌⊎◌, refl, true, false, [], ◌∷◌}
use ogo.AuthBridge.{second, minute}
use ogo.Detect.{Call, after_calls, check}
use ogo.Detect.Fresh.{Witnessed, check-Witnessed}

abbrev first : Call
first = record { now = 7 * second; served = true; asked_at = 8 * second }

abbrev later : Call
later = record { now = 4 * minute; served = false; asked_at = 4 * minute }

kept_answer : (check later (after_calls (first ∷ []))).0 ≡ true
unfolding check after_calls
kept_answer = refl

check-Witnessed_example :
    ((check later (after_calls (first ∷ []))).0 ≡ false)
    ⊎ Witnessed (first ∷ []) (check later (after_calls (first ∷ []))).0 (4 * minute + 1)
check-Witnessed_example = check-Witnessed later (first ∷ [])
