-- ===== src/Operator/Reconcile/Returns.antt =====
-- internal/controller/openshellgateway_controller.go, Reconcile: the phases and the result of the
-- reconcile of an active gateway.
use ogo.AuthBridge.{second}
use ogo.Base.{◌*◌, ◌≡◌, Bool, some}
use ogo.Base.Result.{Result, ok, err}
use ogo.Controller.{Gateway, ApiError, Outcome, after, with_error}
use ogo.Operator.Kube.{Api, Run}
use ogo.Operator.Status.{update_status}
use ogo.Operator.Total.{IsTotal}
use ogo.Operator.Reconcile.{Stop, Dependency}

module _ (api : Api) (gw : Gateway) where
  -- a dependency that says whether it is wanted, and reports
  abbrev IsReporting : Dependency → Type 0
  IsReporting d = IsTotal (d.enabled gw) × IsTotal (d.reconcile gw)

  -- what is returned after the last write of the status, by what that write answered
  abbrev pub IsDone : Result ApiError (Unit {0}) → Outcome → Type 0
  IsDone (ok _) o = o ≡ after (60 * second)
  IsDone (err e) o = o ≡ with_error (after (60 * second)) (some e)

  -- What is returned when the phases ended with this stop and left this run: the error of the step
  -- that stopped them, or, after the status is written, one minute.
  abbrev pub IsScheduled : (auth_enabled : Bool) → Stop → Run → Outcome → Type 0
  IsScheduled auth_enabled (err (step, e)) r o = o ≡ with_error (after (30 * second)) (some e)
  IsScheduled auth_enabled (ok _) r o = IsDone (update_status api gw auth_enabled r).0 o
