-- ===== src/Operator/Tests.antt =====
-- A reconcile of one gateway on a cluster that answers every request.
mod Fixtures
mod Certificates
use Prim.Native.String.{◌++◌}
use ogo.Base.{
  String, ◌≡◌, ◌≢◌, ◌↔◌, ◌⊎◌, refl, Bool, true, false, none, some, List, [], ◌∷◌, All, ℕ, contains,
  if◌then◌else◌,
}
use ogo.Base.Result.{Result, ok, err}
use ogo.AuthBridge.Startup.{Go, read_config}
use ogo.Controller.{
  gateway_namespace, Gateway, after, gateway_retry_interval, with_error, is_disabled,
}
use ogo.Operator.{database_secret_name, auth_bridge_external_url, compute_server_sans}
use ogo.Operator.Dependencies.{is_owned_by_ogo}
use ogo.Operator.Dependencies.Groups
use ogo.Operator.Dependencies.Postgres
use ogo.Operator.Dependencies.Cleanup.{cleanup-IsCareful}
use ogo.Operator.Gone.{Gone}
use ogo.Operator.Kube.{fresh, key_of, Key, Object, Run, create}
use ogo.Operator.Legal.{AllLegal, IsCareful}
use ogo.Operator.Names.{auth_bridge_external_url-IsNamed}
use ogo.Operator.Pod.{bridge_env, containers, pod_volumes, auth_bridge_internal_url}
use ogo.Operator.Pod.Encode.{oidc_issuer}
use ogo.Operator.Pod.Login.{bridge_env-Login, environment}
use ogo.Operator.Pod.Mounts.{MountsKnown, containers-MountsKnown}
use ogo.Operator.Reconcile.{Stop, core_steps, finish, run_steps}
use ogo.Operator.Reconcile.Delete.{clean_up, reconcile_delete}
use ogo.Operator.Reconcile.Deletion.{incomplete, Dropped, AllGone, reconcile_delete-Gone}
use ogo.Operator.Reconcile.Failure.{Reports, finish-Reports}
use ogo.Operator.Reconcile.Steps.{Goes, run_steps-Goes}
use ogo.Operator.Routes.{delete_obsolete}
use ogo.Operator.Routes.Obsolete.{OnlyObsolete, is_obsolete, delete_obsolete-Clears}
use ogo.Operator.Routes.OauthClient.{
  callback_url, oauth_client_key, oauth_secret_key, sync_oauth_client,
}
use ogo.Operator.Routes.OauthClient.Synced.{Leaves, sync_oauth_client-Leaves}
use ogo.Operator.Status.{Facts, new_status, phase_running}
use ogo.Operator.Status.Phase.{IsUp, new_status-Running}
use ogo.Operator.Trust.{is_managed_by, reconcile_ca_config_map}
use ogo.Operator.Trust.Publish.{reconcile_ca_config_map-IsCareful}
use ogo.Operator.Watches.{find_gateways_for_database_secret}
use ogo.Operator.Watches.Enqueued.{find_gateways_for_database_secret-contains}
use ogo.Operator.Tests.Fixtures.{cluster, gateway, missing, routes, start}

run_steps-Goes_example :
    (s : Stop) × (r' : Run) × (run_steps (core_steps cluster gateway) start ≡ (ok s, r'))
    × Goes (core_steps cluster gateway) start s r'
run_steps-Goes_example = run_steps-Goes (core_steps cluster gateway) start

finish-Reports_example :
    ((finish cluster gateway true (err ("TLS", missing)) start).0
      ≡ ok (with_error (after gateway_retry_interval) (some missing)))
    × Reports cluster gateway "TLS" missing start
        (finish cluster gateway true (err ("TLS", missing)) start).1
finish-Reports_example = finish-Reports cluster gateway "TLS" missing true start

abbrev facts : Facts
facts = record { envoy_route_active = true; auth_bridge_active = true; conditions = [] }

new_status-Running_example :
    ((new_status cluster gateway true facts gateway.status).phase ≡ phase_running)
    ↔ IsUp cluster true facts
new_status-Running_example = new_status-Running cluster gateway true facts gateway.status

reconcile_delete-Gone_example :
    (n : ℕ) × (r' : Run) × (clean_up cluster gateway start ≡ (ok n, r'))
    × ((n ≢ 0) × (reconcile_delete cluster gateway start ≡ (ok (incomplete cluster n), r'))
        ⊎ (n ≡ 0)
          × Dropped cluster gateway (reconcile_delete cluster gateway start) r'
          × AllGone cluster gateway r')
unfolding contains
reconcile_delete-Gone_example = reconcile_delete-Gone cluster gateway start refl

delete_obsolete-Clears_example :
    OnlyObsolete gateway false true
      (delete_obsolete cluster gateway false true routes start).1.trace
    × ((key : Key)
        → Gone key []
        → Gone key (delete_obsolete cluster gateway false true routes start).1.trace)
    × ((delete_obsolete cluster gateway false true routes start).0 ≡ ok tt
        → All
            (λ (o : Object).
              is_obsolete gateway false true o.key ≡ true
              → Gone o.key (delete_obsolete cluster gateway false true routes start).1.trace)
            routes)
delete_obsolete-Clears_example = delete_obsolete-Clears gateway false true cluster routes start tt

reconcile_ca_config_map-IsCareful_example :
    AllLegal
      (is_managed_by gateway)
      (reconcile_ca_config_map cluster gateway "gw-gateway-ca" true start).1.trace
reconcile_ca_config_map-IsCareful_example =
    reconcile_ca_config_map-IsCareful cluster gateway "gw-gateway-ca" true start tt

cleanup-IsCareful_example :
    IsCareful is_owned_by_ogo (Groups.cleanup cluster gateway)
    × IsCareful is_owned_by_ogo (Postgres.cleanup cluster gateway)
cleanup-IsCareful_example = cleanup-IsCareful cluster gateway

abbrev go : Go String
go = record { parse_duration = λ s. none; load_pair = λ cert key. ok cert }

abbrev secrets : String → String → String
secrets name key = "s3cret"

bridge_env-Login_example :
    ((read_config go (environment secrets (bridge_env gateway))).external_issuer ++ "/callback"
      ≡ callback_url gateway)
    × ((read_config go (environment secrets (bridge_env gateway))).client_id
        ≡ oauth_client_key.name)
    × ((read_config go (environment secrets (bridge_env gateway))).client_secret
        ≡ secrets (oauth_secret_key gateway).name "secret")
    × ((read_config go (environment secrets (bridge_env gateway))).issuer ≡ oidc_issuer true)
bridge_env-Login_example = bridge_env-Login go gateway secrets

sync_oauth_client-Leaves_example :
    Leaves cluster gateway "00" none start (sync_oauth_client cluster gateway "00" none start).1
unfolding sync_oauth_client create
sync_oauth_client-Leaves_example = sync_oauth_client-Leaves cluster gateway "00" none start refl

abbrev uri_secret : Object
uri_secret = fresh (key_of "Secret" "ogo" "gw-pg-uri")
