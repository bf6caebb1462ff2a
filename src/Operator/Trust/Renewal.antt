-- ===== src/Operator/Trust/Renewal.antt =====
-- internal/controller/openshellgateway_controller.go, reconcileSelfSignedTLS: when certificates are
-- made anew.
use ogo.Base.Result.{Result, ok}
use ogo.Controller.{Gateway}
use ogo.Operator.Kube.{Api, Object, Run, got, saw}
use ogo.Operator.Trust.{server_tls_key, client_tls_key}

module _ (api : Api) (gw : Gateway) where
  -- the state after the two reads
  abbrev pub both_read : Object → Object → Run → Run
  both_read server client r =
      saw (got (client_tls_key gw) (ok client)) (saw (got (server_tls_key gw) (ok server)) r)
