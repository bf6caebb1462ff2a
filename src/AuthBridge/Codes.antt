-- ===== src/AuthBridge/Codes.antt =====
-- The map of pending codes of internal/authbridge/server.go. Each definition is one critical
-- section under `codesMu`.
use ogo.Base.{ℕ, String, Bool, Option, none, some, ltb, leb, not, if◌then◌else◌, length}
use ogo.Dict.{Dict, lookup, insert, remove, keep}
use ogo.AuthBridge.{PendingCode}

abbrev pub max_pending_codes : ℕ
max_pending_codes = 10000

abbrev pub Codes : Type 0
Codes = Dict PendingCode

-- `time.Now().After(pending.expiresAt)`
abbrev pub has_expired : ℕ → PendingCode → Bool
has_expired now p = ltb p.expires_at now

-- `none` is "too many pending requests"
unfoldable pub reserve : String → PendingCode → Codes → Option Codes
reserve code p codes =
    if leb max_pending_codes (length codes) then none else some (insert code p codes)

-- The entry of a code, which is gone afterwards.
unfoldable pub take_code : String → Codes → Option PendingCode × Codes
take_code code codes = elim (lookup code codes) [
  | none ↦ (none, codes)
  | some p ↦ (some p, remove code codes)
]

-- one tick of `sweepExpiredCodes`
unfoldable pub sweep_expired_codes : ℕ → Codes → Codes
sweep_expired_codes now codes = keep (λ p. not (has_expired now p)) codes
