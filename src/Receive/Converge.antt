-- ===== src/Receive/Converge.antt =====
-- `converge` and `run_with` of src/receive.rs: the whole run.
use nixdeploy_corbet_ch.Outcome.{
  Stage, Detail, config_unreadable, current_path_unread, state_error, target_pinned,
  gate_unavailable_current, gate_failed_current, sources_unknown, walk_unfinished,
  current_reads_absent, delta_error, observation_failed, activate_not_run, activation_incomplete,
  pin_not_cleared, gate_unavailable_after, gate_failed_after, Outcome, converged, already_current,
  refused, reimaged, failed,
}
use nixdeploy_corbet_ch.Select.{Target}
use nixdeploy_corbet_ch.World.{
  Exec, ◌>>=◌, pure, ask, measure, measured_now, or_exit, with_error, attempt,
}
use nixdeploy_corbet_ch.Delta.{Delta, DeltaError, DeltaSources, compute, exceeds_ceiling}
use nixdeploy_corbet_ch.Command.{
  did_run, ActivationError, prepare, observe, ActivationAttempt, attempt_succeeded,
  HealthGateOutcome, passed, gate_unavailable, gate_failed,
}
use nixdeploy_corbet_ch.Activate.{current_path, activate, run_health_gate}
use nixdeploy_corbet_ch.Receive.{ReceiverConfig, RejectedTargetState, Setting, fail}
use nixdeploy_corbet_ch.Receive.State.{
  load_rejected_target, load_reimage_owed, clear_rejected_target, clear_reimage_owed,
}
use nixdeploy_corbet_ch.Receive.Resolve.{resolve}
use nixdeploy_corbet_ch.Receive.Recover.{reject_and_rollback, reconcile_boot_role}
use nixdeploy_corbet_ch.Receive.Reimage.{report, route_over_ceiling}
use nixdeploy_corbet_ch.Base.{
  if◌then◌else◌, Result, ok, err, ℕ, Bool, true, false, ◌&&◌, Option, none, some,
}
use nixdeploy_corbet_ch.Text.{Text, codes, ◌==◌, strip_prefix, starts_with}

abbrev pub under_store : Option Text → Bool
under_store none = false
under_store (some rest) = starts_with rest (codes "/")

abbrev pub is_some {ℓ} : {A : Type ℓ} → Option A → Bool
is_some none = false
is_some (some a) = true

-- The current closure must read as present in this machine's own store.
unfoldable pub store_query_is_unreliable : Text → DeltaSources → Option Detail
store_query_is_unreliable current sources =
    if under_store (strip_prefix current (codes "/nix/store"))
    then elim (sources.is_present current) [
      | ok present ↦ if present then none else some (current_reads_absent current)
      | err e ↦ some (delta_error e)
    ]
    else none

-- What `compute` ends with in the given rounds.
abbrev pub sized : ℕ → Option (Result Delta DeltaError) → Result Delta Detail
sized rounds none = err (walk_unfinished rounds)
sized rounds (some (ok d)) = ok d
sized rounds (some (err e)) = err (delta_error e)

abbrev pub all_well : Option Detail → Result (Unit {0}) Detail
all_well none = ok tt
all_well (some d) = err d

-- `Outcome::Converged { .. } | Outcome::AlreadyCurrent { .. }`
abbrev pub settles : Outcome → Bool
settles (converged from to) = true
settles (already_current rev) = true
settles (refused reason bytes ceiling) = false
settles (reimaged role artifact image) = false
settles (failed at_stage detail) = false

abbrev pub outcome_of : Result Outcome Outcome → Outcome
outcome_of (ok o) = o
outcome_of (err o) = o

module _ (s : Setting) where
  unfoldable pub refuse_pinned :
      Text → Target → Option RejectedTargetState → Exec s.os Outcome (Unit {0})
  unfolding fail
  refuse_pinned current target none = pure tt
  refuse_pinned current target (some rejected) =
      if rejected.target == target.store_path
      then fail Stage.rejected_target
          (target_pinned rejected.target rejected.rejected_at (current == target.store_path))
      else pure tt

  unfoldable pub current_gate : Text → HealthGateOutcome → Exec s.os Outcome (Unit {0})
  unfolding fail
  current_gate current passed = pure tt
  current_gate current (gate_unavailable cmd e) =
      fail Stage.health_check_unavailable (gate_unavailable_current cmd current e)
  current_gate current (gate_failed cmd raw) =
      fail Stage.health_check_failed (gate_failed_current cmd current raw)

  unfoldable pub stay_current : ReceiverConfig → Target → Text → Exec s.os Outcome Outcome
  unfolding current_gate
  stay_current cfg target current = do
    gate ← run_health_gate cfg.health_gate
    healthy ← current_gate current gate
    reconciled ← reconcile_boot_role s cfg target
    pure (already_current current)

  unfoldable pub size : Target → Text → Exec s.os Outcome Delta
  size target current = do
    known ← ask s.os.delta_sources
    sources ← or_exit (λ e. failed Stage.delta (sources_unknown e)) known
    reliable ←
        or_exit (λ d. failed Stage.delta d) (all_well (store_query_is_unreliable current sources))
    delta ←
        or_exit (λ d. failed Stage.delta d)
          (sized s.rounds (compute sources s.rounds target.store_path))
    recorded ← measure (λ m. record m { delta_bytes = some delta.bytes })
    pure delta

  unfoldable pub clear_pin :
      ReceiverConfig → Text → Text → Option RejectedTargetState → Exec s.os Outcome (Unit {0})
  clear_pin cfg current target none = pure tt
  clear_pin cfg current target (some rejected) =
      with_error (λ e. failed Stage.state (pin_not_cleared current target e))
        (clear_rejected_target s cfg)

  -- After an activation that reached its target.
  unfoldable pub judge :
      ReceiverConfig
      → Text
      → Text
      → Option RejectedTargetState
      → HealthGateOutcome
      → Exec s.os Outcome Outcome
  unfolding fail clear_pin
  judge cfg target current rejected passed = do
    cleared ← clear_pin cfg current target rejected
    pure (converged current target)
  judge cfg target current rejected (gate_unavailable cmd e) =
      fail Stage.health_check_unavailable (gate_unavailable_after cmd e target)
  judge cfg target current rejected (gate_failed cmd raw) =
      reject_and_rollback s cfg target current Stage.health_check_failed (gate_failed_after cmd raw)

  unfoldable pub not_activated :
      ReceiverConfig → Text → Text → ActivationError → Exec s.os Outcome Outcome
  unfolding fail
  not_activated cfg target current (prepare e) = fail Stage.activate (activate_not_run (prepare e))
  not_activated cfg target current (observe raw e) =
      if did_run raw
      then reject_and_rollback s cfg target current Stage.activate (observation_failed raw e)
      else fail Stage.activate (activate_not_run (observe raw e))

  unfoldable pub after_attempt :
      ReceiverConfig
      → Text
      → Text
      → Option RejectedTargetState
      → ActivationAttempt
      → Exec s.os Outcome Outcome
  unfolding fail judge
  after_attempt cfg target current rejected a =
      if attempt_succeeded a
      then (do gate ← run_health_gate cfg.health_gate; judge cfg target current rejected gate)
      else if did_run a.raw
      then reject_and_rollback s cfg target current Stage.activate
          (activation_incomplete a.raw a.observed_path target)
      else fail Stage.activate (activation_incomplete a.raw a.observed_path target)

  unfoldable pub become :
      ReceiverConfig → Text → Text → Option RejectedTargetState → Exec s.os Outcome Outcome
  unfolding not_activated after_attempt
  become cfg target current rejected = do
    tried ← attempt (activate cfg.activation target)
    elim tried [
      | ok a ↦ after_attempt cfg target current rejected a
      | err e ↦ not_activated cfg target current e
    ]

  -- Without a ceiling nothing exceeds it.
  unfoldable pub within_ceiling :
      ReceiverConfig
      → Target
      → Text
      → Option RejectedTargetState
      → Option ℕ
      → ℕ
      → Exec s.os Outcome Outcome
  unfolding become
  within_ceiling cfg target current rejected none bytes =
      become cfg target.store_path current rejected
  within_ceiling cfg target current rejected (some limit) bytes =
      if exceeds_ceiling bytes (some limit)
      then route_over_ceiling s cfg target bytes limit
      else become cfg target.store_path current rejected

  unfoldable pub change :
      ReceiverConfig → Target → Text → Option RejectedTargetState → Exec s.os Outcome Outcome
  unfolding size within_ceiling
  change cfg target current rejected = do
    delta ← size target current
    within_ceiling cfg target current rejected cfg.max_inplace_delta_bytes delta.bytes

  unfoldable pub converge : ReceiverConfig → Exec s.os Outcome Outcome
  unfolding stay_current change refuse_pinned
  converge cfg = do
    target ← resolve s cfg
    current ←
        with_error (λ e. failed Stage.activate (current_path_unread e))
          (current_path cfg.activation)
    rejected ← with_error (λ e. failed Stage.state (state_error e)) (load_rejected_target s cfg)
    allowed ← refuse_pinned current target rejected
    (if current == target.store_path
        then stay_current cfg target current
        else change cfg target current rejected)

  -- A debt that cannot be cleared stays in the report.
  unfoldable pub settle_debt : ReceiverConfig → Outcome → Exec s.os Outcome (Unit {0})
  settle_debt cfg outcome = do
    m ← measured_now
    (if settles outcome && m.reimage_owed
        then (do
          cleared ← attempt (clear_reimage_owed s cfg)
          elim cleared [
            | ok a ↦ measure (λ m. record m { reimage_owed = false })
            | err e ↦ pure tt
          ])
        else pure tt)

  -- Every run whose configuration could be read ends with a report.
  unfoldable pub run_configured : ReceiverConfig → Exec s.os Outcome Outcome
  unfolding converge settle_debt
  run_configured cfg = do
    loaded ← attempt (load_reimage_owed s cfg)
    elim loaded [
      | err e ↦ (do
        begun ← measure (λ m. record {
          delta_bytes = none;
          ceiling = cfg.max_inplace_delta_bytes;
          reimage_owed = false;
        })
        told ← report s (failed Stage.state (state_error e))
        pure (failed Stage.state (state_error e)))
      | ok owed ↦ (do
        begun ← measure (λ m. record {
          delta_bytes = none;
          ceiling = cfg.max_inplace_delta_bytes;
          reimage_owed = is_some owed;
        })
        result ← attempt (converge cfg)
        settled ← settle_debt cfg (outcome_of result)
        told ← report s (outcome_of result)
        pure (outcome_of result))
    ]

  unfoldable pub run_with : Result ReceiverConfig Text → Exec s.os Outcome Outcome
  unfolding run_configured
  run_with (err e) = pure (failed Stage.config (config_unreadable e))
  run_with (ok cfg) = run_configured cfg
