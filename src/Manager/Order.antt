-- ===== src/Manager/Order.antt =====
-- cmd/main.go: what the process has done when it serves, and when it gives up.
use ogo.Base.{String, ◌≡◌, Bool, true, List, [], ◌∷◌, ◌++◌, if◌then◌else◌, ◌⊎◌, append_one, ◌==◌}
use ogo.Manager.{
  Call, Exit, returned, exited, Flags, CertWatcher, manager_options, watch_webhook_cert,
  watch_metrics_cert, new_manager, new_kube_client, set_up, add_metrics_watcher,
  add_webhook_watcher, add_healthz_check, add_readyz_check, start,
}

-- A call for the certificate with these paths, where there is one.
abbrev pub watched :
    (CertWatcher → Call) → (join : String → String → String) → (path name key : String) → List Call
watched call join path name key =
    if path == "" then [] else call (record { cert = join path name; key = join path key }) ∷ []

-- All calls of a start: the certificates, the manager and the client, the four controllers, the
-- watchers of the certificates, the two checks, and then the manager is started.
abbrev pub whole_start : (join : String → String → String) → Flags → List Call
whole_start join f =
    watched watch_webhook_cert join f.webhook_cert_path f.webhook_cert_name f.webhook_cert_key
    ++ (watched watch_metrics_cert join f.metrics_cert_path f.metrics_cert_name f.metrics_cert_key
        ++ (new_manager (manager_options join f)
            ∷ new_kube_client
            ∷ set_up "OpenShellGateway"
            ∷ set_up "OpenShellProvider"
            ∷ set_up "OpenShellPolicy"
            ∷ set_up "OpenShellWorkspaceMember"
            ∷ (watched add_metrics_watcher join f.metrics_cert_path f.metrics_cert_name
                  f.metrics_cert_key
                ++ (watched add_webhook_watcher join f.webhook_cert_path f.webhook_cert_name
                      f.webhook_cert_key
                    ++ (add_healthz_check ∷ add_readyz_check ∷ start ∷ [])))))

-- the calls in the order in which they were made
abbrev pub in_order : List Call → List Call
in_order [] = []
in_order (call ∷ earlier) = append_one (in_order earlier) call

module _ (fails : List Call → Call → Bool) where
  -- all calls were made, or those before the one that fails, which is the last
  abbrev pub Stops : (planned : List Call) → Exit × List Call → Type 0
  Stops planned (e, done) =
      ((e ≡ returned) × (planned ≡ in_order done))
      ⊎ (call : Call) × (left : List Call) × (e ≡ exited call)
        × (fails done call ≡ true)
        × (planned ≡ in_order done ++ call ∷ left)
