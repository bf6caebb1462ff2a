-- ===== src/AuthBridge/Startup/Tests.antt =====
-- cmd/auth-bridge/main.go: a certificate that cannot be read again after five minutes, and
-- a start with TLS.
use ogo.Base.{◌*◌, ◌≡◌, refl, none, String, [], ◌∷◌}
use ogo.Base.Result.{ok, err}
use ogo.AuthBridge.{minute, second}
use ogo.AuthBridge.OpenShift.{new_openshift_client}
use ogo.AuthBridge.Startup.{Go, Handshake, load_certificate, read_config}
use ogo.AuthBridge.Startup.Main.{HttpServer, Running, plain, tls, main}
use ogo.AuthBridge.Startup.Main.Listeners.{Serves, main-Serves}
use ogo.AuthBridge.Tests.Fixtures.{bridge, crypto, urls}
use ogo.AuthBridge.Discovery.{new_server}
use ogo.Dict.{Dict}
use ogo.AuthBridge.Startup.Certificate.{Explained, after_handshakes, load_certificate-Explained}

abbrev first : Handshake String
first = record { now = minute; loaded = ok "cert"; loaded_at = minute }

abbrev unreadable : Handshake String
unreadable = record { now = 9 * minute; loaded = err "no such file"; loaded_at = 9 * minute }

still_served :
    (load_certificate (5 * minute) unreadable (after_handshakes (5 * minute) (first ∷ []))).0
    ≡ ok "cert"
unfolding load_certificate after_handshakes
still_served = refl

load_certificate-Explained_example :
    Explained
      (unreadable ∷ first ∷ [])
      (load_certificate (5 * minute) unreadable (after_handshakes (5 * minute) (first ∷ []))).0
load_certificate-Explained_example = load_certificate-Explained (5 * minute) unreadable (first ∷ [])

-- an environment with a certificate, and files that can be read
abbrev environment : Dict String
environment =
    ("AUTH_BRIDGE_CLIENT_SECRET", "secret")
    ∷ ("AUTH_BRIDGE_TLS_CERT", "/tls/tls.crt")
    ∷ ("AUTH_BRIDGE_TLS_KEY", "/tls/tls.key")
    ∷ []

abbrev go : Go String
go = record { parse_duration = λ s. none; load_pair = λ cert key. ok cert }

abbrev tls_server : HttpServer
tls_server = record {
  addr = ":8443";
  read_timeout = 30 * second;
  write_timeout = 30 * second;
  idle_timeout = 120 * second;
}

abbrev running : Running
running = record {
  bridge = record bridge {
    config = read_config go environment;
    signer = record { private_key = "drawn"; kid = "hash" };
    osc = new_openshift_client "https://oauth-openshift.apps.example.com" "openshell" "secret";
  };
  started =
      plain (record tls_server { addr = "127.0.0.1:8085" })
      ∷ tls tls_server "/tls/tls.crt" "/tls/tls.key"
      ∷ [];
}

main-Serves_example : Serves go environment running
unfolding main read_config new_server
main-Serves_example = main-Serves go crypto urls (λ path. none) environment running refl
