-- ===== src/Receive/Executes.antt =====
-- A run executes what its outcome permits.
use nixdeploy_corbet_ch.World.{Os, Purpose, to_activate, to_roll_back, to_check}
use nixdeploy_corbet_ch.World.Emits.{
  Emits, Emits-pure, Emits-ask, Emits-if, Emits-option, Emits-result, Emits-weaken,
  Emits-with_error,
}
use nixdeploy_corbet_ch.Command.{
  AdapterError, succeeded, did_run, ActivationError, prepare, observe, ActivationAdapter,
  ActivationAttempt, attempt_succeeded, RollbackAttempt, HealthGateOutcome, passed,
  gate_unavailable, gate_failed,
}
use nixdeploy_corbet_ch.Activate.{activate, rollback_command, rollback}
use nixdeploy_corbet_ch.Outcome.{StateError, Stage, Detail, pin_not_cleared, converged}
use nixdeploy_corbet_ch.Receive.{ReceiverConfig, RejectedTargetState, Setting}
use nixdeploy_corbet_ch.Receive.State.{persist_rejected_target, clear_rejected_target}
use nixdeploy_corbet_ch.Receive.Recover.{rollback_verdict, rollback_outcome, reject_and_rollback}
use nixdeploy_corbet_ch.Receive.Converge.{clear_pin, judge, not_activated, after_attempt, become}
use nixdeploy_corbet_ch.Receive.Log.{same_purpose, within, nothing, Stays, Stays-bind}
use nixdeploy_corbet_ch.Receive.Frame.{
  Stays-pure, Stays-or_exit, Stays-run_raw, current_path-Stays, write_atomic-writes,
}
use nixdeploy_corbet_ch.Receive.Silent.{clear_state-Stays, run_health_gate-Returns}
use nixdeploy_corbet_ch.Receive.Permits.{
  detail_permits, permits, Fits, Bears, either, Fits-bind, Bears-Returns, Bears-with_error,
  Fits-pure, Fits-fail, Fits-quiet, Bears-quiet, attempt-Returns,
}
use nixdeploy_corbet_ch.Base.{
  Bool-cases, Result, ok, err, ℕ, ◌≡◌, refl, inl, inr, Bool, true, ◌&&◌, ◌||◌, Option, none, some,
}
use nixdeploy_corbet_ch.Text.{Text, ◌==◌}

abbrev only : Purpose → Purpose → Bool
only q p = same_purpose p q

-- What a rollback permits after this failure.
abbrev Rolls : Detail → Purpose → Type 0
Rolls d p = (detail_permits d p || same_purpose p to_roll_back) ≡ true

module _ {os : Os} where
  pub activate-Stays :
      (adapter : ActivationAdapter) (target : Text)
      → Stays (only to_activate) (activate {os = os} adapter target)
  unfolding activate
  activate-Stays adapter target =
      let allows = only to_activate in
      Stays-bind allows _ _ (Stays-or_exit allows _ _) (λ c.
        Stays-bind allows _ _ (Stays-run_raw allows to_activate _ _ refl) (λ raw.
          Stays-bind allows _ _
            (Emits-with_error _ _ (
              Emits-weaken (λ r new. within allows new ≡ true) _ (current_path-Stays allows adapter)
                (λ r new k. k)))
            (λ path. Stays-pure allows _)))

  pub rollback-Stays :
      (adapter : ActivationAdapter) (previous : Text)
      → Stays (only to_roll_back) (rollback {os = os} adapter previous)
  unfolding rollback rollback_command
  rollback-Stays adapter previous =
      let allows = only to_roll_back in
      Emits-option adapter.rollback _ _ (λ e. Stays-pure allows none)
        (λ cmd e. Stays-bind allows _ _ (Stays-or_exit allows _ _) (λ c.
          Stays-bind allows _ _ (Stays-run_raw allows to_roll_back _ _ refl) (λ raw.
            Stays-bind allows _ _ (current_path-Stays allows adapter)
              (λ path. Stays-pure allows _))))

module _ (s : Setting) where
  pub persist_rejected_target-Stays :
      (allows : Purpose → Bool) (cfg : ReceiverConfig) (target : Text) (now : ℕ)
      → Stays allows (persist_rejected_target s cfg target now)
  unfolding persist_rejected_target
  persist_rejected_target-Stays allows cfg target now =
      Emits-with_error _ _ (Emits-weaken _ _ (write_atomic-writes allows _ _ _) (λ r new k. k.0))

  rollback_outcome-permits :
      (at_stage : Stage) (d : Detail) (target previous : Text) (pin : Result (Unit {0}) StateError)
      (r : Result (Option RollbackAttempt) AdapterError) (p : Purpose)
      → Rolls d p
      → permits (rollback_outcome at_stage d target previous pin r) p ≡ true
  unfolding rollback_outcome rollback_verdict detail_permits
  rollback_outcome-permits at_stage d target previous pin (err e) p h = h
  rollback_outcome-permits at_stage d target previous pin (ok none) p h = h
  rollback_outcome-permits at_stage d target previous (ok a) (ok (some rb)) p h =
      elim (Bool-cases (succeeded rb.raw && rb.observed_path == previous)) [
        | inl e ↦ rw e h
        | inr e ↦ rw e h
      ]
  rollback_outcome-permits at_stage d target previous (err x) (ok (some rb)) p h =
      elim (Bool-cases (succeeded rb.raw && rb.observed_path == previous)) [
        | inl e ↦ rw e h
        | inr e ↦ rw e h
      ]

  pub reject_and_rollback-Fits :
      (earlier : Purpose → Bool) (cfg : ReceiverConfig) (target previous : Text) (at_stage : Stage)
      (d : Detail)
      → ((p : Purpose) → either earlier (only to_roll_back) p ≡ true → Rolls d p)
      → Emits (reject_and_rollback s cfg target previous at_stage d) (Fits earlier)
  unfolding reject_and_rollback within
  reject_and_rollback-Fits earlier cfg target previous at_stage d h =
      Fits-quiet earlier _ _ (Emits-ask _ (λ a. (refl, tt))) (λ now.
        Fits-quiet earlier _ _
          (Bears-quiet earlier _
            (attempt-Returns nothing _ (persist_rejected_target-Stays nothing cfg target now)))
          (λ pin.
            Fits-bind earlier (only to_roll_back) _ _
              (Bears-Returns earlier _ _
                (attempt-Returns _ _ (rollback-Stays cfg.activation previous)))
              (λ rolled.
                Fits-pure _ _ (λ p q.
                  rollback_outcome-permits at_stage d target previous pin rolled p (h p q)))))

  pub become-Fits :
      (cfg : ReceiverConfig) (target current : Text) (rejected : Option RejectedTargetState)
      → Emits (become s cfg target current rejected) (Fits nothing)
  unfolding become not_activated judge after_attempt clear_pin clear_rejected_target within
      detail_permits
  become-Fits cfg target current rejected =
      Fits-bind nothing (only to_activate) _ _
        (Bears-Returns nothing _ _ (attempt-Returns _ _ (activate-Stays cfg.activation target)))
        (λ tried. Emits-result tried _ _ (λ a e. after a) (λ d e. not_run d))
    where
      not_run :
          (d : ActivationError)
          → Emits (not_activated s cfg target current d) (Fits (only to_activate))
      not_run (prepare e) = Fits-fail _ Stage.activate _ (λ p q. q)
      not_run (observe raw e) =
          Emits-if (did_run raw) _ _
            (λ h. reject_and_rollback-Fits _ cfg target current _ _ (λ p q. q))
            (λ h. Fits-fail _ Stage.activate _ (λ p q. q))

      clear_pin-quiet :
          (earlier : Purpose → Bool) (r : Option RejectedTargetState)
          → ((e : StateError) (p : Purpose)
              → earlier p ≡ true
              → detail_permits (pin_not_cleared current target e) p ≡ true)
          → Emits
              (clear_pin s cfg current target r)
              (λ r new. (within nothing new ≡ true) × Bears earlier r)
      clear_pin-quiet earlier none h = Emits-pure tt (refl, tt)
      clear_pin-quiet earlier (some r) h =
          Bears-with_error earlier nothing _ _ (clear_state-Stays s nothing _) h

      judged :
          (g : HealthGateOutcome)
          → Emits
              (judge s cfg target current rejected g)
              (Fits (either (only to_activate) (only to_check)))
      judged passed =
          Fits-quiet _ _ _ (clear_pin-quiet _ rejected (λ e p h. h))
            (λ u. Fits-pure _ (converged current target) (λ p h. h))
      judged (gate_unavailable cmd e) = Fits-fail _ Stage.health_check_unavailable _ (λ p q. q)
      judged (gate_failed cmd raw) = reject_and_rollback-Fits _ cfg target current _ _ (λ p q. q)

      after :
          (a : ActivationAttempt)
          → Emits (after_attempt s cfg target current rejected a) (Fits (only to_activate))
      after a =
          Emits-if (attempt_succeeded a) _ _
            (λ h.
              Fits-bind (only to_activate) (only to_check) _ _
                (Bears-Returns (only to_activate) _ _
                  (run_health_gate-Returns s (only to_check) cfg.health_gate refl))
                judged)
            (λ h.
              Emits-if (did_run a.raw) _ _
                (λ k. reject_and_rollback-Fits _ cfg target current _ _ (λ p q. q))
                (λ k. Fits-fail _ Stage.activate _ (λ p q. q)))
