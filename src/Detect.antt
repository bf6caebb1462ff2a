-- ===== src/Detect.antt =====
-- internal/openshift/detect.go: whether a group of the API is served, remembered for a while. Times
-- are nanoseconds; the zero `time.Time` of a new cache lies before all of them.
pub mod Fresh
pub mod Tests
use ogo.Base.{ℕ, ◌+◌, ◌*◌, Bool, true, false, ltb, List, [], ◌∷◌, if◌then◌else◌}
use ogo.AuthBridge.{second, minute}

abbrev pub positive_ttl : ℕ
positive_ttl = 5 * minute

abbrev pub negative_ttl : ℕ
negative_ttl = 30 * second

pub record CachedDetection : Type 0 where
  pub result : Bool
  pub expiry : ℕ

abbrev pub new_detection : CachedDetection
new_detection = record { result = false; expiry = 0 }

-- how long an answer is kept
unfoldable pub ttl : Bool → ℕ
ttl served = if served then positive_ttl else negative_ttl

-- A call of `check`: the two readings of the clock, and what the cluster answers if it is asked.
pub record Call : Type 0 where
  pub now : ℕ
  pub served : Bool
  pub asked_at : ℕ

unfoldable pub check : Call → CachedDetection → Bool × CachedDetection
unfolding ttl
check call c =
    if ltb call.now c.expiry
    then (c.result, c)
    else (call.served, record { result = call.served; expiry = call.asked_at + ttl call.served })

-- the cache after some calls, the latest first
unfoldable pub after_calls : List Call → CachedDetection
unfolding check
after_calls [] = new_detection
after_calls (call ∷ calls) = (check call (after_calls calls)).1
