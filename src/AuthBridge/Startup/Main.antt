-- ===== src/AuthBridge/Startup/Main.antt =====
-- cmd/auth-bridge/main.go, main: the server, and the listeners that it starts. Signals, the shutdown
-- and the errors of a listener that has started are calls of Go's packages and left out.
pub mod Listeners
use ogo.Base.{ℕ, ◌*◌, String, Option, List, [], ◌∷◌, ◌==◌, if◌then◌else◌}
use ogo.Base.Result.{Result, ok, err}
use ogo.Dict.{Dict}
use ogo.AuthBridge.{Config, second}
use ogo.AuthBridge.Discovery.{new_server}
use ogo.AuthBridge.Jwt.{Crypto, JwtError}
use ogo.AuthBridge.Server.{Bridge, Urls}
use ogo.AuthBridge.Startup.{Go, configure, getenv, env_or_default}

-- `http.Server`; each has the handler of the bridge
pub record HttpServer : Type 0 where
  pub addr : String
  pub read_timeout : ℕ
  pub write_timeout : ℕ
  pub idle_timeout : ℕ

unfoldable pub new_http_server : (addr : String) → HttpServer
new_http_server addr = record {
  addr = addr;
  read_timeout = 30 * second;
  write_timeout = 30 * second;
  idle_timeout = 120 * second;
}

-- `ListenAndServe`, or `ListenAndServeTLS` with the certificate of these files
pub data Listener : Type 0 where
  plain : HttpServer → Listener
  tls : HttpServer → (cert key : String) → Listener

unfoldable pub listen_and_serve : HttpServer → (cert key : String) → Listener
listen_and_serve server cert key = if cert == "" then plain server else tls server cert key

-- the servers that `main` makes and starts
unfoldable pub listeners : Config → Dict String → List Listener
unfolding getenv env_or_default new_http_server listen_and_serve
listeners config env =
    let cert = getenv "AUTH_BRIDGE_TLS_CERT" env in
    let key = getenv "AUTH_BRIDGE_TLS_KEY" env in
    listen_and_serve (new_http_server config.listen_addr) "" ""
    ∷ (if cert == ""
        then []
        else listen_and_serve
            (new_http_server (env_or_default "AUTH_BRIDGE_TLS_LISTEN" ":8443" env)) cert key
          ∷ [])

-- `log.Fatal`
pub data Fatal : Type 0 where
  message : String → Fatal
  no_server : JwtError → Fatal

pub record Running : Type 0 where
  pub bridge : Bridge
  pub started : List Listener

module _ {Pair : Type 0} (go : Go Pair) (crypto : Crypto) (urls : Urls)
    (files : String → Option String) where
  unfoldable pub serve : Dict String → Config → Result JwtError Bridge → Result Fatal Running
  unfolding listeners
  serve env config (err e) = err (no_server e)
  serve env config (ok b) = ok (record { bridge = b; started = listeners config env })

  unfoldable pub start : Dict String → Result String Config → Result Fatal Running
  unfolding serve
  start env (err text) = err (message text)
  start env (ok config) = serve env config (new_server crypto urls files env config)

  unfoldable pub main : Dict String → Result Fatal Running
  unfolding start configure
  main env = start env (configure go env)
