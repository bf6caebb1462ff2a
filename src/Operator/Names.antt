-- ===== src/Operator/Names.antt =====
-- internal/controller/openshellgateway_controller.go: the names that the server's certificate is for.
use Prim.Native.String.{◌++◌}
use ogo.Base.{
  String, ◌≡◌, ◌⊎◌, inl, inr, refl, Bool, true, false, ◌∷◌, ◌==◌, ◌&&◌, contains, arith, eq_iff,
  Bool-cases, if◌then◌else◌,
}
use ogo.Base
use ogo.Controller.{Gateway, is_disabled}
use ogo.Operator.{
  auth_bridge_external_url, auth_host, compute_server_sans, route_enabled, service_host,
}

-- The host of the bridge's external URL is one of the names that the server's certificate is for:
-- the URL is https:// and such a name, or the scheme that the TLS setting gives, such a name and
-- port 8085.
pub auth_bridge_external_url-IsNamed :
    (gw : Gateway)
    → (host : String) × (contains host (compute_server_sans gw) ≡ true)
      × ((auth_bridge_external_url gw ≡ "https://" ++ host)
          ⊎ (auth_bridge_external_url gw
              ≡ (if is_disabled gw.tls_enabled then "http" else "https")
                ++ ("://" ++ (host ++ ":8085"))))
unfolding auth_bridge_external_url compute_server_sans contains
auth_bridge_external_url-IsNamed gw =
    elim (Bool-cases (route_enabled gw && Base.not (gw.hostname == ""))) [
      | inl outside ↦ (
        auth_host gw,
        ground (arith, eq_iff (auth_host gw) (auth_host gw)),
        inl (rw (outside, if◌then◌else◌) refl),
      )
      | inr inside ↦ (
        service_host gw,
        ground (arith, eq_iff (service_host gw) (service_host gw)),
        inr (rw (inside, if◌then◌else◌) refl),
      )
    ]
