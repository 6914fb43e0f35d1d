-- ===== src/Receive/Changed.antt =====
-- A change of the machine in `converge` of src/receive.rs, whose only commands for a purpose are those of
-- the rollback of its target.
use nixdeploy_corbet_ch.World.{Purpose, to_activate, to_check, Event, exit}
use nixdeploy_corbet_ch.World.Emits.{Emits-if, Emits-result}
use nixdeploy_corbet_ch.Command.{
  did_run, ActivationError, prepare, observe, ActivationAttempt, attempt_succeeded,
  HealthGateOutcome, passed, gate_unavailable, gate_failed,
}
use nixdeploy_corbet_ch.Outcome.{Stage, Detail, Outcome}
use nixdeploy_corbet_ch.Receive.{ReceiverConfig, RejectedTargetState, Setting, fail}
use nixdeploy_corbet_ch.Receive.State.{clear_rejected_target}
use nixdeploy_corbet_ch.Receive.Recover.{reject_and_rollback}
use nixdeploy_corbet_ch.Receive.Converge.{clear_pin, judge, not_activated, after_attempt, become}
use nixdeploy_corbet_ch.Receive.Log.{same_purpose, nothing}
use nixdeploy_corbet_ch.Receive.Silent.{clear_state-Stays, run_health_gate-Returns}
use nixdeploy_corbet_ch.Receive.Permits.{attempt-Returns}
use nixdeploy_corbet_ch.Receive.Executes.{activate-Stays}
use nixdeploy_corbet_ch.Base.{◌≡◌, refl, Bool, false, Option, none, some}
use nixdeploy_corbet_ch.Text.{Text}
use nixdeploy_corbet_ch.Receive.Order.{
  Keeps-Returns, Keeps-with_error, Keeps-pure, Keeps-exit, Orders, Quiet, Orders-Quiet,
  Orders-after,
}

module _ (s : Setting) (p : Purpose) {I : Type 0} (a b : I → Event → Bool) (cfg : ReceiverConfig)
    (target current : Text) (not_check : same_purpose p to_check ≡ false)
    (hr : (at_stage : Stage) (d : Detail)
      → Orders p a b (reject_and_rollback s cfg target current at_stage d)) where
  quiet_exit : {A : Type 0} (o : Outcome) → Orders p a b (exit {os = s.os} {A = A} o)
  quiet_exit o = Orders-Quiet p a b _ (Keeps-exit p _ o)

  pub not_activated-Orders :
      (d : ActivationError) → Orders p a b (not_activated s cfg target current d)
  unfolding not_activated fail
  not_activated-Orders (prepare e) = quiet_exit _
  not_activated-Orders (observe raw e) =
      Emits-if (did_run raw) _ _ (λ h. hr _ _) (λ h. quiet_exit _)

  clear_pin-Quiet : (r : Option RejectedTargetState) → Quiet p (clear_pin s cfg current target r)
  unfolding clear_pin clear_rejected_target
  clear_pin-Quiet none = Keeps-pure p _ tt
  clear_pin-Quiet (some r) = Keeps-with_error p _ _ _ (clear_state-Stays s nothing _)

  judge-Orders :
      (rejected : Option RejectedTargetState) (g : HealthGateOutcome)
      → Orders p a b (judge s cfg target current rejected g)
  unfolding judge fail
  judge-Orders rejected passed =
      Orders-after p a b _ _ (clear_pin-Quiet rejected)
        (λ u. Orders-Quiet p a b _ (Keeps-pure p _ _))
  judge-Orders rejected (gate_unavailable cmd e) = quiet_exit _
  judge-Orders rejected (gate_failed cmd raw) = hr _ _

  pub after_attempt-Orders :
      (rejected : Option RejectedTargetState) (t : ActivationAttempt)
      → Orders p a b (after_attempt s cfg target current rejected t)
  unfolding after_attempt fail
  after_attempt-Orders rejected t =
      Emits-if (attempt_succeeded t) _ _
        (λ h.
          Orders-after p a b _ _
            (Keeps-Returns p _ (λ q. same_purpose q to_check) _ not_check
              (run_health_gate-Returns s _ cfg.health_gate refl))
            (λ g. judge-Orders rejected g))
        (λ h. Emits-if (did_run t.raw) _ _ (λ k. hr _ _) (λ k. quiet_exit _))

  pub become-Orders :
      (rejected : Option RejectedTargetState)
      → same_purpose p to_activate ≡ false
      → Orders p a b (become s cfg target current rejected)
  unfolding become
  become-Orders rejected not_activate =
      Orders-after p a b _ _
        (Keeps-Returns p _ (λ q. same_purpose q to_activate) _ not_activate
          (attempt-Returns _ _ (activate-Stays cfg.activation target)))
        (λ tried.
          Emits-result tried _ _ (λ t e. after_attempt-Orders rejected t)
            (λ d e. not_activated-Orders d))
