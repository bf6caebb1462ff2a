-- ===== src/Operator/Reconcile/Failure.antt =====
-- internal/controller/openshellgateway_controller.go, setDegraded: how a failed step is reported.
use Prim.Native.String.{◌++◌}
use ogo.Base.{String, ◌≡◌, ◌⊎◌, inl, inr, refl, Bool, true, Option, some}
use ogo.Base.Result.{Result, ok, err}
use ogo.Controller.{Gateway, ApiError, after, with_error, gateway_retry_interval}
use ogo.Operator.Kube.{Api, Run, got_gateway, status_written, saw, fetch_gateway, write_status}
use ogo.Operator.Reconcile.{finish, returning}
use ogo.Operator.Status.{set_degraded, degrade_latest, degraded_status}

module _ (api : Api) (gw : Gateway) (step : String) (e : ApiError) where
  -- what the report leaves: the gateway could not be read, or its status names the step
  abbrev pub Reports : Run → Run → Type 0
  Reports r r' =
      ((why : ApiError) × (r' ≡ saw (got_gateway (err why)) r))
      ⊎ ((latest : Gateway) × (written : Option ApiError) × (r'
            ≡ saw
                (status_written
                  (record latest.status {
                    phase = "Failed";
                    observed_generation = gw.generation;
                    conditions = api.set_condition latest.status.conditions (record {
                      kind = "Degraded";
                      holds = true;
                      reason = "ReconcileError";
                      message = step ++ (": " ++ e.message);
                    });
                  })
                  written)
                (saw (got_gateway (ok latest)) r)))

  degrade_latest-Reports :
      (x : Result ApiError Gateway) (r : Run)
      → ((returning api
            (after gateway_retry_interval)
            (degrade_latest api gw step e x)
            (saw (got_gateway x) r)).0
          ≡ ok (with_error (after gateway_retry_interval) (some e)))
        × Reports r
            (returning api
              (after gateway_retry_interval)
              (degrade_latest api gw step e x)
              (saw (got_gateway x) r)).1
  unfolding degrade_latest write_status degraded_status
  degrade_latest-Reports (err why) r = (refl, inl (why, refl))
  degrade_latest-Reports (ok latest) r = (refl, inr (latest, _, refl))

  -- When a phase stops at a step with an error, the reconcile returns that error with a retry in
  -- 30 seconds, and leaves a failed read of the gateway, or a read and one write of a status,
  -- which has phase Failed, the generation of the gateway, and a Degraded condition that is true
  -- with reason ReconcileError and a message of the step and the error.
  pub finish-Reports :
      (auth_enabled : Bool) (r : Run)
      → ((finish api gw auth_enabled (err (step, e)) r).0
          ≡ ok (with_error (after gateway_retry_interval) (some e)))
        × Reports r (finish api gw auth_enabled (err (step, e)) r).1
  unfolding finish set_degraded fetch_gateway
  finish-Reports auth_enabled r = degrade_latest-Reports (api.get_gateway r.trace) r
