-- ===== src/Manager.antt =====
-- cmd/main.go: how the operator starts. The calls of controller-runtime are a list that the flags
-- decide; each may fail, and the first that does ends the process.
pub mod Order
pub mod Http
mod Tests
use ogo.Base.{
  String, Bool, true, false, Option, none, some, List, [], ◌∷◌, ◌==◌, not, if◌then◌else◌,
  append_one,
}

-- the command line
pub record Flags : Type 0 where
  pub metrics_addr : String
  pub metrics_cert_path : String
  pub metrics_cert_name : String
  pub metrics_cert_key : String
  pub webhook_cert_path : String
  pub webhook_cert_name : String
  pub webhook_cert_key : String
  pub enable_leader_election : Bool
  pub probe_addr : String
  pub secure_metrics : Bool
  pub enable_http2 : Bool

abbrev pub default_flags : Flags
default_flags = record {
  metrics_addr = "0";
  metrics_cert_path = "";
  metrics_cert_name = "tls.crt";
  metrics_cert_key = "tls.key";
  webhook_cert_path = "";
  webhook_cert_name = "tls.crt";
  webhook_cert_key = "tls.key";
  enable_leader_election = false;
  probe_addr = ":8081";
  secure_metrics = true;
  enable_http2 = false;
}

-- a watcher of a certificate, by the paths of its files
pub record CertWatcher : Type 0 where
  pub cert : String
  pub key : String

-- `tls.Config`, as far as the options set it
pub record TlsConfig : Type 0 where
  pub next_protos : List String
  pub get_certificate : Option CertWatcher

abbrev pub TlsOption : Type 0
TlsOption = TlsConfig → TlsConfig

unfoldable pub disable_http2 : TlsOption
disable_http2 c = record c { next_protos = "http/1.1" ∷ [] }

unfoldable pub with_certificate : CertWatcher → TlsOption
with_certificate w c = record c { get_certificate = some w }

-- what a server does with its options
unfoldable pub configured : List TlsOption → TlsConfig → TlsConfig
configured [] c = c
configured (option ∷ options) c = configured options (option c)

-- `join` is `filepath.Join`
unfoldable pub cert_watcher :
    (join : String → String → String) → (path name key : String) → Option CertWatcher
cert_watcher join path name key =
    if path == "" then none else some (record { cert = join path name; key = join path key })

-- `tlsOpts`
unfoldable pub tls_opts : Flags → List TlsOption
tls_opts f = if not f.enable_http2 then disable_http2 ∷ [] else []

-- `append` of the option to a slice that has no room, so that the two servers share nothing
unfoldable pub with_watcher : List TlsOption → Option CertWatcher → List TlsOption
with_watcher options none = options
with_watcher options (some w) = append_one options (with_certificate w)

pub record MetricsOptions : Type 0 where
  pub bind_address : String
  pub secure_serving : Bool
  pub tls_opts : List TlsOption
  pub authorized : Bool  -- the filter with authentication and authorization

pub record ManagerOptions : Type 0 where
  pub metrics : MetricsOptions
  pub webhook_tls_opts : List TlsOption
  pub health_probe_bind_address : String
  pub leader_election : Bool
  pub leader_election_id : String

pub data Call : Type 0 where
  watch_webhook_cert watch_metrics_cert : CertWatcher → Call
  new_manager : ManagerOptions → Call
  new_kube_client : Call
  set_up : (controller : String) → Call
  add_metrics_watcher add_webhook_watcher : CertWatcher → Call
  add_healthz_check add_readyz_check : Call
  start : Call

module _ (join : String → String → String) (f : Flags) where
  abbrev pub webhook_watcher : Option CertWatcher
  webhook_watcher = cert_watcher join f.webhook_cert_path f.webhook_cert_name f.webhook_cert_key

  abbrev pub metrics_watcher : Option CertWatcher
  metrics_watcher = cert_watcher join f.metrics_cert_path f.metrics_cert_name f.metrics_cert_key

  unfoldable pub manager_options : ManagerOptions
  unfolding with_watcher cert_watcher tls_opts
  manager_options = record {
    metrics = record {
      bind_address = f.metrics_addr;
      secure_serving = f.secure_metrics;
      tls_opts = with_watcher (tls_opts f) metrics_watcher;
      authorized = f.secure_metrics;
    };
    webhook_tls_opts = with_watcher (tls_opts f) webhook_watcher;
    health_probe_bind_address = f.probe_addr;
    leader_election = f.enable_leader_election;
    leader_election_id = "10738010.ogo.io";
  }

  -- a call that is only made where there is a watcher
  unfoldable pub if_watched : (CertWatcher → Call) → Option CertWatcher → List Call → List Call
  if_watched call none calls = calls
  if_watched call (some w) calls = call w ∷ calls

  unfoldable pub registrations : List Call
  unfolding if_watched
  registrations =
      set_up "OpenShellGateway"
      ∷ set_up "OpenShellProvider"
      ∷ set_up "OpenShellPolicy"
      ∷ set_up "OpenShellWorkspaceMember"
      ∷ if_watched add_metrics_watcher metrics_watcher (
          if_watched add_webhook_watcher webhook_watcher
            (add_healthz_check ∷ add_readyz_check ∷ start ∷ []))

  -- the calls of `main`, in their order
  unfoldable pub calls : List Call
  unfolding if_watched registrations manager_options
  calls = if_watched watch_webhook_cert webhook_watcher (
      if_watched watch_metrics_cert metrics_watcher
        (new_manager manager_options ∷ new_kube_client ∷ registrations))

-- How the process ends, after the calls that succeeded, newest first: `main` returns, or a call
-- failed and the process exits with code 1.
pub data Exit : Type 0 where
  returned : Exit
  exited : Call → Exit

-- whether a call fails may depend on all before it
module _ (fails : List Call → Call → Bool) where
  unfoldable pub run : List Call → (succeeded : List Call) → Exit × List Call
  run [] succeeded = (returned, succeeded)
  run (call ∷ rest) succeeded =
      if fails succeeded call then (exited call, succeeded) else run rest (call ∷ succeeded)

  unfoldable pub main : (join : String → String → String) → Flags → Exit × List Call
  unfolding run calls
  main join f = run (calls join f) []
