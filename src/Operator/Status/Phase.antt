-- ===== src/Operator/Status/Phase.antt =====
-- internal/controller/openshellgateway_controller.go, updateStatus: when a gateway runs.
use ogo.Base.{Bool, true, false, ◌≡◌, ◌↔◌, ◌&&◌, arith, eq_iff}
use ogo.Controller.{Gateway, GatewayStatus}
use ogo.Operator.Kube.{Api}
use ogo.Operator.Status.{
  Facts, new_status, rollout, envoy_route_blocking, browser_sso_blocking, phase_running,
  phase_creating, fails, condition_browser_sso, condition_envoy_route,
}

-- The pods are ready, and no condition of a part that is in use fails.
abbrev pub IsUp : Api → (pods_ready : Bool) → Facts → Type 0
IsUp api pods_ready f =
    (pods_ready ≡ true)
    × ((f.envoy_route_active && fails (api.find_condition f.conditions condition_envoy_route)
          ≡ false)
        × (f.auth_bridge_active && fails (api.find_condition f.conditions condition_browser_sso)
            ≡ false))

-- The phase that is written to the status is Running exactly if the pods are ready and neither the
-- condition of Envoy's Route nor that of browser login fails where that part is in use.
pub new_status-Running :
    (api : Api) (gw : Gateway) (pods_ready : Bool) (f : Facts) (latest : GatewayStatus)
    → ((new_status api gw pods_ready f latest).phase ≡ phase_running) ↔ IsUp api pods_ready f
unfolding new_status rollout envoy_route_blocking browser_sso_blocking
new_status-Running api gw pods_ready f latest =
    (λ e. ground (arith, (eq_iff phase_creating phase_running).1), λ h. ground arith)
