-- ===== src/Operator/Pod/Mounts.antt =====
-- internal/controller/openshellgateway_controller.go, reconcileDeployment: the mounts and the volumes
-- of the pod.
use ogo.Base.{
  String, Bool, true, false, List, [], ◌∷◌, ◌≡◌, ◌==◌, ◌||◌, All, Bool-cases, inl, inr,
  if◌then◌else◌, arith,
}
use ogo.Controller.{Gateway, unless_disabled}
use ogo.Operator.Pod.{
  Container, Volume, containers, gateway_container, gateway_mounts, bridge_container, bridge_mounts,
  pod_volumes,
}

abbrev pub has_volume : String → List Volume → Bool
has_volume name [] = false
has_volume name (v ∷ vs) = v.name == name || has_volume name vs

abbrev pub MountsKnown : List Volume → Container → Type 0
MountsKnown vs c = All (λ m. has_volume m.name vs ≡ true) c.volume_mounts

-- Every volume that a container of the gateway's pod mounts is one of the volumes of the pod.
pub containers-MountsKnown :
    (gw : Gateway) (is_openshift auth_enabled : Bool)
    → All (MountsKnown (pod_volumes gw)) (containers gw is_openshift auth_enabled)
unfolding containers gateway_container gateway_mounts bridge_container bridge_mounts pod_volumes
containers-MountsKnown gw is_openshift auth_enabled =
    elim (Bool-cases (unless_disabled gw.tls_enabled)) [
      | inl on ↦ elim (Bool-cases auth_enabled) [
        | inl a ↦ rw (on, a, if◌then◌else◌) (ground arith)
        | inr a ↦ rw (on, a, if◌then◌else◌) (ground arith)
      ]
      | inr off ↦ elim (Bool-cases auth_enabled) [
        | inl a ↦ rw (off, a, if◌then◌else◌) (ground arith)
        | inr a ↦ rw (off, a, if◌then◌else◌) (ground arith)
      ]
    ]
