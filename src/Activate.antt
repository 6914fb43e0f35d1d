-- ===== src/Activate.antt =====
-- The commands of a backend adapter and of the health gate, of src/activate.rs.
use nixdeploy_corbet_ch.Text.{Text, ◌==◌, trim}
use nixdeploy_corbet_ch.Command.{
  AdapterError, could_not_spawn, exited_badly, empty_output, RawCommandResult, ran, could_not_run,
  ActivationError, prepare, observe, ActivationAdapter, ActivationAttempt, RollbackAttempt,
  HealthGateOutcome, passed, gate_unavailable, gate_failed, split_command,
}
use nixdeploy_corbet_ch.World.{
  Captured, printed, not_started, Os, Purpose, to_activate, to_roll_back, to_check, observed,
  executed, Exec, ◌>>=◌, pure, act, or_exit, with_error,
}
use nixdeploy_corbet_ch.Base.{
  if◌then◌else◌, is_empty, Result, ok, err, true, false, Option, none, some, List, [], ◌∷◌, ◌++◌,
}

-- What `run_capturing` makes of a finished command.
unfoldable pub captured_text : Text → Captured → Result Text AdapterError
captured_text cmd (not_started e) = err (could_not_spawn cmd e)
captured_text cmd (printed false stdout) = err (exited_badly cmd)
captured_text cmd (printed true stdout) =
    if is_empty (trim stdout) then err (empty_output cmd) else ok (trim stdout)

-- One round of the loop over the health gate: `none` goes on to the next command.
unfoldable pub gate_verdict : Text → RawCommandResult → Option HealthGateOutcome
gate_verdict cmd (could_not_run e) = some (gate_unavailable cmd (could_not_spawn cmd e))
gate_verdict cmd (ran exit_code true) = none
gate_verdict cmd (ran exit_code false) = some (gate_failed cmd (ran exit_code false))

module _ {os : Os} where
  module _ {E : Type 0} where
    unfoldable pub run_raw : Purpose → Text → List Text → Exec os E RawCommandResult
    run_raw purpose bin args = act (os.status bin args) (λ r. executed purpose bin args r ∷ [])

  unfoldable pub run_capturing : Text → Exec os AdapterError Text
  run_capturing cmd = do
    command ← or_exit (λ e. e) (split_command cmd)
    captured ← act (os.output command.0 command.1) (λ c. observed command.0 command.1 c ∷ [])
    or_exit (λ e. e) (captured_text cmd captured)

  unfoldable pub current_path : ActivationAdapter → Exec os AdapterError Text
  unfolding run_capturing
  current_path adapter = run_capturing adapter.current_path

  unfoldable pub activate : ActivationAdapter → Text → Exec os ActivationError ActivationAttempt
  unfolding run_raw
  activate adapter target = do
    command ← or_exit prepare (split_command adapter.activate)
    raw ← run_raw to_activate command.0 (command.1 ++ target ∷ [])
    path ← with_error (observe raw) (current_path adapter)
    pure (record { raw = raw; became = path == target; observed_path = path })

  unfoldable pub rollback_command :
      ActivationAdapter → Text → Text → Exec os AdapterError (Option RollbackAttempt)
  unfolding run_raw
  rollback_command adapter cmd previous = do
    command ← or_exit (λ e. e) (split_command cmd)
    raw ← run_raw to_roll_back command.0 (command.1 ++ previous ∷ [])
    path ← current_path adapter
    pure (some (record { raw = raw; observed_path = path }))

  unfoldable pub rollback : ActivationAdapter → Text → Exec os AdapterError (Option RollbackAttempt)
  unfolding rollback_command
  rollback adapter previous = elim adapter.rollback [
    | none ↦ pure none
    | some cmd ↦ rollback_command adapter cmd previous
  ]

  unfoldable pub run_with_arguments :
      Purpose → Text → List Text → Exec os AdapterError RawCommandResult
  unfolding run_raw
  run_with_arguments purpose cmd arguments = do
    command ← or_exit (λ e. e) (split_command cmd)
    run_raw purpose command.0 (command.1 ++ arguments)

  module _ {E : Type 0} where
    unfoldable pub gate_command : Text → Exec os E (Option HealthGateOutcome)
    unfolding gate_verdict run_raw
    gate_command cmd = elim (split_command cmd) [
      | err e ↦ pure (some (gate_unavailable cmd e))
      | ok (bin, args) ↦ (do raw ← run_raw to_check bin args; pure (gate_verdict cmd raw))
    ]

    unfoldable pub run_health_gate : List Text → Exec os E HealthGateOutcome
    unfolding gate_command
    run_health_gate [] = pure passed
    run_health_gate (cmd ∷ commands) =
        let rest = run_health_gate commands in
        gate_command cmd >>= λ verdict. elim verdict [ none ↦ rest | some outcome ↦ pure outcome ]
