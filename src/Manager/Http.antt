-- ===== src/Manager/Http.antt =====
-- cmd/main.go: the TLS configurations of the two servers.
use ogo.Base.{String, Option, none, some, List, [], ◌∷◌, if◌then◌else◌}
use ogo.Manager.{Flags, TlsConfig, CertWatcher}

-- what a server presents where it has no watcher is what it had
abbrev pub or_before : Option CertWatcher → Option CertWatcher → Option CertWatcher
or_before none before = before
or_before (some w) before = some w

-- HTTP/2 is off unless the flag is set
abbrev pub protocols : Flags → TlsConfig → List String
protocols f c = if f.enable_http2 then c.next_protos else "http/1.1" ∷ []

abbrev pub expected : Flags → Option CertWatcher → TlsConfig → TlsConfig
expected f w c = record {
  next_protos = protocols f c;
  get_certificate = or_before w c.get_certificate;
}
