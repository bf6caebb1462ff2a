-- ===== src/Manager/Tests.antt =====
-- A start of the operator with a certificate for the metrics, on a cluster without a ready check.
use Prim.Native.String.{◌++◌}
use ogo.Base.{String, Bool, true, false, none, List, [], ◌∷◌}
use ogo.Manager.{Call, Flags, TlsConfig, default_flags, add_readyz_check}

abbrev join : String → String → String
join dir file = dir ++ ("/" ++ file)

abbrev flags : Flags
flags = record default_flags { metrics_cert_path = "/certs" }

abbrev no_ready_check : List Call → Call → Bool
no_ready_check done add_readyz_check = true
no_ready_check done _ = false

abbrev plain_tls : TlsConfig
plain_tls = record { next_protos = "h2" ∷ "http/1.1" ∷ []; get_certificate = none }
