-- ===== src/Operator/Tests/Certificates.antt =====
-- A gateway whose Secret was written for another name.
use ogo.Base.{String, Bool, false, ◌||◌, List, [], ◌∷◌}
use ogo.Base.Result.{ok}
use ogo.Operator.Kube.{Api, Object, fresh}
use ogo.Operator.Trust.{fill_server_secret, server_tls_key}
use ogo.Operator.Tests.Fixtures.{cluster, gateway}
use ogo.Pki.{hash_sans}
use ogo.Pki.Tests.{packages, bundle}
use ogo.Text.{has_char}

abbrev old_secret : Object
old_secret =
    fill_server_secret gateway (hash_sans packages ("old" ∷ [])) bundle
      (fresh (server_tls_key gateway))

abbrev renamed : Api
renamed = record cluster { get = λ t key. ok old_secret }

abbrev any_nul : List String → Bool
any_nul [] = false
any_nul (s ∷ ss) = has_char 0 s || any_nul ss
