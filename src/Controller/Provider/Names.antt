-- ===== src/Controller/Provider/Names.antt =====
-- `gatewayProviderName` of internal/controller/openshellprovider_controller.go keeps objects apart.
use ogo.Base.{String, ◌≡◌}
use ogo.Text.Separated.{Lacks, joined-inj}
use ogo.Controller.Provider.{ProviderObject, gateway_provider_name}

-- The name of a namespace is a DNS label: it has no dot.
abbrev pub NoDot : String → Type 0
NoDot = Lacks "."

-- If the namespaces have no dot, two providers with the same name on the gateway are in the same
-- namespace and have the same name.
pub gateway_provider_name-inj :
    (p q : ProviderObject)
    → NoDot p.namespace
    → NoDot q.namespace
    → gateway_provider_name p ≡ gateway_provider_name q
    → (p.namespace ≡ q.namespace) × (p.name ≡ q.name)
unfolding gateway_provider_name
gateway_provider_name-inj p q h k e = joined-inj "." p.namespace q.namespace p.name q.name h k e
