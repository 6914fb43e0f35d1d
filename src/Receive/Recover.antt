-- ===== src/Receive/Recover.antt =====
-- `reject_and_rollback` and `reconcile_boot_role` of src/receive.rs.
use nixdeploy_corbet_ch.Text.{Text, ◌==◌}
use nixdeploy_corbet_ch.Manifest.{BootSpec, boot_artifact}
use nixdeploy_corbet_ch.Command.{AdapterError, succeeded, RollbackAttempt}
use nixdeploy_corbet_ch.Outcome.{
  StateError, Stage, Detail, no_boot_authority, no_boot_artifact, reconciler_not_run,
  reconciler_failed, rolled_back, rolled_back_unpinned, rollback_incomplete, rollback_missing,
  rollback_not_run, Outcome, failed,
}
use nixdeploy_corbet_ch.Select.{Target}
use nixdeploy_corbet_ch.World.{
  to_reconcile, Exec, ◌>>=◌, pure, exit, ask, or_exit, with_error, attempt,
}
use nixdeploy_corbet_ch.Activate.{rollback, run_with_arguments}
use nixdeploy_corbet_ch.Receive.{RoleCommand, ReceiverConfig, Setting}
use nixdeploy_corbet_ch.Receive.State.{persist_rejected_target}
use nixdeploy_corbet_ch.Base.{
  if◌then◌else◌, Result, ok, err, ok_or, ◌&&◌, Option, none, some, [], ◌∷◌,
}

abbrev pub pin_error : Result (Unit {0}) StateError → Option StateError
pin_error (ok a) = none
pin_error (err e) = some e

-- The verdict on a rollback that ran to its end: exact or not, with the target pinned or not.
unfoldable pub rollback_verdict :
    Stage → Detail → Text → Text → Result (Unit {0}) StateError → RollbackAttempt → Outcome
rollback_verdict failure_stage failure_detail target previous pin rb =
    if succeeded rb.raw && rb.observed_path == previous
    then elim pin [
      | ok a ↦ failed failure_stage (rolled_back failure_detail rb target)
      | err e ↦ failed Stage.state (rolled_back_unpinned failure_detail rb target e)
    ]
    else failed Stage.rollback (rollback_incomplete failure_detail rb previous (pin_error pin))

unfoldable pub rollback_outcome :
    Stage
    → Detail
    → Text
    → Text
    → Result (Unit {0}) StateError
    → Result (Option RollbackAttempt) AdapterError
    → Outcome
unfolding rollback_verdict
rollback_outcome failure_stage failure_detail target previous pin (err e) =
    failed Stage.rollback (rollback_not_run failure_detail e (pin_error pin))
rollback_outcome failure_stage failure_detail target previous pin (ok none) =
    failed Stage.rollback (rollback_missing failure_detail target (pin_error pin))
rollback_outcome failure_stage failure_detail target previous pin (ok (some rb)) =
    rollback_verdict failure_stage failure_detail target previous pin rb

module _ (s : Setting) where
  -- The pin is written before the rollback command runs.
  unfoldable pub reject_and_rollback :
      ReceiverConfig → Text → Text → Stage → Detail → Exec s.os Outcome Outcome
  unfolding rollback_outcome
  reject_and_rollback cfg target previous failure_stage failure_detail = do
    now ← ask s.os.now_unix
    pin ← attempt (persist_rejected_target s cfg target now)
    rolled ← attempt (rollback cfg.activation previous)
    pure (rollback_outcome failure_stage failure_detail target previous pin rolled)

  abbrev pub boot_error : Detail → Outcome
  boot_error = failed Stage.boot_reconcile

  unfoldable pub reconcile_with : RoleCommand → Option BootSpec → Exec s.os Outcome (Unit {0})
  reconcile_with request none = exit (boot_error (no_boot_authority request.role))
  reconcile_with request (some boot) = do
    artifact ←
        or_exit (λ e. e)
          (ok_or (boot_error (no_boot_artifact request.role)) (boot_artifact boot request.role))
    raw ←
        with_error (λ e. boot_error (reconciler_not_run request.role e))
          (run_with_arguments to_reconcile request.command (artifact.artifact ∷ []))
    (if succeeded raw
        then pure tt
        else exit (boot_error (reconciler_failed request.role raw artifact.artifact)))

  unfoldable pub reconcile_boot_role : ReceiverConfig → Target → Exec s.os Outcome (Unit {0})
  unfolding reconcile_with
  reconcile_boot_role cfg target = elim cfg.boot_role_reconcile [
    | none ↦ pure tt
    | some request ↦ reconcile_with request target.boot
  ]
