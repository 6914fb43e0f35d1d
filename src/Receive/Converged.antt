-- ===== src/Receive/Converged.antt =====
-- When a run that changes its machine may say that it converged.
use mathlib.Core.List.{append_assoc}
use nixdeploy_corbet_ch.Receive.{ReceiverConfig, RejectedTargetState, Setting, fail}
use nixdeploy_corbet_ch.World.{Event}
use nixdeploy_corbet_ch.World.Emits.{
  Emits, Emits-pure, Emits-exit, Emits-ask, Emits-if, Emits-result, Emits-weaken, Emits-bind,
  Emits-with_error, Emits-attempt,
}
use nixdeploy_corbet_ch.Command.{
  AdapterError, succeeded, did_run, ActivationError, prepare, observe, ActivationAttempt,
  attempt_succeeded, RollbackAttempt, HealthGateOutcome, passed, gate_unavailable, gate_failed,
}
use nixdeploy_corbet_ch.Outcome.{StateError, Stage, Detail, Outcome, converged, failed, is_error}
use nixdeploy_corbet_ch.Receive.State.{clear_rejected_target}
use nixdeploy_corbet_ch.Receive.Silent.{clear_state-Stays}
use nixdeploy_corbet_ch.Receive.Converge.{
  outcome_of, clear_pin, judge, not_activated, after_attempt, become,
}
use nixdeploy_corbet_ch.Receive.Recover.{rollback_verdict, rollback_outcome, reject_and_rollback}
use nixdeploy_corbet_ch.Receive.Shows.{Shown, Certain, activate-Shows, gate-Shows}
use nixdeploy_corbet_ch.Receive.Evidence.{Activated, GatePassed, GatePassed-append}
use nixdeploy_corbet_ch.Receive.Log.{nothing}
use nixdeploy_corbet_ch.Receive.Frame.{is_ok}
use nixdeploy_corbet_ch.Receive.Executes.{rollback-Stays, persist_rejected_target-Stays}
use nixdeploy_corbet_ch.Base.{
  Bool-cases, Result, ok, err, map_err, ◌≡◌, refl, sym, subst, inl, inr, true, ◌&&◌, Option, none,
  some, List, ◌++◌, arith,
}
use nixdeploy_corbet_ch.Text.{Text, ◌==◌}

-- What convergence rests on, in the order of the events: the health gate passed after the activation.
pub record IsConverged (cfg : ReceiverConfig) (target current from to : Text) (new : List Event)
    : Type 0 where
  pub left : from ≡ current
  pub reached : to ≡ target
  pub late : List Event
  pub early : List Event
  pub order : new ≡ late ++ early
  pub activation : Activated cfg.activation target early
  pub gate : GatePassed cfg.health_gate late

rollback_outcome-unconverged :
    (at_stage : Stage) (d : Detail) (target previous : Text) (pin : Result (Unit {0}) StateError)
    (r : Result (Option RollbackAttempt) AdapterError) (from to : Text)
    → ¬ (rollback_outcome at_stage d target previous pin r ≡ converged from to)
unfolding rollback_outcome rollback_verdict
rollback_outcome-unconverged at_stage d target previous pin (err e) from to q = cc
rollback_outcome-unconverged at_stage d target previous pin (ok none) from to q = cc
rollback_outcome-unconverged at_stage d target previous (ok a) (ok (some rb)) from to q =
    elim (Bool-cases (succeeded rb.raw && rb.observed_path == previous)) [
      | inl e ↦ cc (rw e at q)
      | inr e ↦ cc (rw e at q)
    ]
rollback_outcome-unconverged at_stage d target previous (err x) (ok (some rb)) from to q =
    elim (Bool-cases (succeeded rb.raw && rb.observed_path == previous)) [
      | inl e ↦ cc (rw e at q)
      | inr e ↦ cc (rw e at q)
    ]

module _ (s : Setting) (cfg : ReceiverConfig) (target current : Text) where
  abbrev Claims : (List Event → List Event) → Result Outcome Outcome → List Event → Type 0
  Claims also r new =
      (from to : Text)
      → outcome_of r ≡ converged from to
      → IsConverged cfg target current from to (also new)

  rejected-Claims :
      (also : List Event → List Event) (at_stage : Stage) (d : Detail)
      → Emits (reject_and_rollback s cfg target current at_stage d) (Claims also)
  unfolding reject_and_rollback
  rejected-Claims also at_stage d =
      Emits-bind (λ r new. is_ok r ≡ true) _ _ (Emits-ask _ (λ a. refl)) (λ o new h. cc)
        (λ now old h.
          Emits-bind (λ r new. is_ok r ≡ true) _ _
            (Emits-attempt _ (
              Emits-weaken _ _ (persist_rejected_target-Stays s nothing cfg target now)
                (λ r new k. refl)))
            (λ o new k. cc)
            (λ pin more k.
              Emits-bind (λ r new. is_ok r ≡ true) _ _
                (Emits-attempt _
                  (Emits-weaken _ _ (rollback-Stays cfg.activation current) (λ r new k. refl)))
                (λ o new l. cc)
                (λ rolled last l. Emits-pure _ (λ from to q.
                  absurd (
                    rollback_outcome-unconverged at_stage d target current pin rolled from to q)))))

  -- A run that changes its machine says "converged" only if the activation command ran with the target
  -- and succeeded, currentPath then named the target, and each command of the health gate succeeded.
  pub become-Claims :
      (rejected : Option RejectedTargetState)
      → Emits (become s cfg target current rejected) (λ r new.
        (from to : Text)
        → outcome_of r ≡ converged from to
        → IsConverged cfg target current from to new)
  unfolding become not_activated after_attempt judge fail clear_pin clear_rejected_target is_error
  become-Claims rejected =
      Emits-bind (λ r new. Shown (λ t new. Shown Tried t new) r new × (is_ok r ≡ true)) _ _
        (Emits-attempt _ (
          Emits-weaken (Shown Tried) _ (activate-Shows cfg.activation target)
            (λ r new k. (k, refl))))
        (λ o new h. cc (h.1))
        (λ tried old h.
          Emits-result tried _ _ (λ a e. after a old (subst (λ t. Shown Tried t old) e h.0))
            (λ d e. not_run d old))
    where
      Tried : ActivationAttempt → List Event → Type 0
      Tried a new = attempt_succeeded a ≡ true → Activated cfg.activation target new

      not_run :
          (d : ActivationError) (old : List Event)
          → Emits (not_activated s cfg target current d) (Claims (λ new. new ++ old))
      not_run (prepare e) old = Emits-exit _ (λ from to q. cc)
      not_run (observe raw e) old =
          Emits-if (did_run raw) _ _ (λ h. rejected-Claims _ _ _)
            (λ h. Emits-exit _ (λ from to q. cc))

      Fails : Result (Unit {0}) Outcome → List Event → Type 0
      Fails r new = (o : Outcome) → r ≡ err o → is_error o ≡ true

      state_fails :
          (f : StateError → Detail) (r : Result (Unit {0}) StateError) (o : Outcome)
          → map_err (λ e. failed Stage.state (f e)) r ≡ err o
          → is_error o ≡ true
      state_fails f (ok u) o q = cc
      state_fails f (err e) o q = ground (arith, q)

      clear_pin-fails :
          (r : Option RejectedTargetState) → Emits (clear_pin s cfg current target r) Fails
      clear_pin-fails none = Emits-pure tt (λ o q. cc)
      clear_pin-fails (some r) =
          Emits-with_error _ _
            (Emits-weaken _ _ (clear_state-Stays s nothing _) (λ r new k. state_fails _ r))

      judged :
          (g : HealthGateOutcome) (more old : List Event)
          → Activated cfg.activation target old
          → (g ≡ passed → GatePassed cfg.health_gate more)
          → Emits (judge s cfg target current rejected g) (Claims (λ new. new ++ (more ++ old)))
      judged passed more old h k =
          Emits-bind Fails _ _ (clear_pin-fails rejected)
            (λ o new f from to q. ground (arith, q, f o refl))
            (λ u cleared f. Emits-pure _ (λ from to q. record {
              left = ground (arith, q);
              reached = ground (arith, q);
              late = cleared ++ more;
              early = old;
              order = sym (append_assoc cleared more old);
              activation = h;
              gate = GatePassed-append _ cleared more (k refl);
            }))
      judged (gate_unavailable cmd e) more old h k = Emits-exit _ (λ from to q. cc)
      judged (gate_failed cmd raw) more old h k = rejected-Claims _ _ _

      after :
          (a : ActivationAttempt) (old : List Event)
          → Tried a old
          → Emits (after_attempt s cfg target current rejected a) (Claims (λ new. new ++ old))
      after a old h =
          Emits-if (attempt_succeeded a) _ _
            (λ e.
              Emits-bind (Certain (λ g new. g ≡ passed → GatePassed cfg.health_gate new)) _ _
                (gate-Shows cfg.health_gate) (λ o new k. absurd k)
                (λ g more k.
                  Emits-weaken (Claims (λ new. new ++ (more ++ old))) _ (judged g more old (h e) k)
                    (λ r new c from to q.
                      subst (λ l. IsConverged cfg target current from to l)
                        (sym (append_assoc new more old)) (c from to q))))
            (λ e.
              Emits-if (did_run a.raw) _ _ (λ k. rejected-Claims _ _ _)
                (λ k. Emits-exit _ (λ from to q. cc)))
