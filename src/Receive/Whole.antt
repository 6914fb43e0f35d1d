-- ===== src/Receive/Whole.antt =====
-- Commands that must not run before something else is done, in `run_with` of src/receive.rs.
use nixdeploy_corbet_ch.World.{
  Purpose, to_check, to_reconcile, Event, Measured, World, ◌>>=◌, measure, with_error,
}
use nixdeploy_corbet_ch.World.Emits.{
  Emits, Emits-if, Emits-result, Emits-weaken, Emits-bind, Emits-attempt,
}
use nixdeploy_corbet_ch.Command.{HealthGateOutcome, passed, gate_unavailable, gate_failed}
use nixdeploy_corbet_ch.Select.{Target}
use nixdeploy_corbet_ch.Outcome.{Stage, current_path_unread, state_error, Outcome, failed}
use nixdeploy_corbet_ch.Receive.{ReceiverConfig, RejectedTargetState, Setting, fail}
use nixdeploy_corbet_ch.Receive.State.{load_rejected_target}
use nixdeploy_corbet_ch.Receive.Reimage.{route_over_ceiling}
use nixdeploy_corbet_ch.Receive.Converge.{
  refuse_pinned, current_gate, stay_current, become, within_ceiling, change, converge,
  run_configured, run_with,
}
use nixdeploy_corbet_ch.Receive.Log.{same_purpose, nothing}
use nixdeploy_corbet_ch.Receive.Frame.{Stays-measure, current_path-Stays}
use nixdeploy_corbet_ch.Receive.Silent.{
  load_rejected_target-Stays, load_reimage_owed-Stays, report-Returns, resolve-Stays,
  refuse_pinned-Stays, size-Stays, settle_debt-Returns, run_health_gate-Returns,
}
use nixdeploy_corbet_ch.Receive.Permits.{attempt-Returns}
use nixdeploy_corbet_ch.Delta.{exceeds_ceiling}
use nixdeploy_corbet_ch.Receive.Outcomes.{reconcile_boot_role-Bears}
use nixdeploy_corbet_ch.Base.{if◌then◌else◌, ok, ℕ, ◌≡◌, refl, inl, Bool, false, Option, none, some}
use nixdeploy_corbet_ch.Text.{Text, ◌==◌}
use nixdeploy_corbet_ch.Receive.Order.{
  Keeps-bind, Keeps-Stays, Keeps-Returns, Keeps-with_error, Keeps-pure, Keeps-exit, Never, Ordered,
  Orders, Quiet, Ordered-after, Orders-Quiet, Orders-after, Orders-before,
}
use nixdeploy_corbet_ch.Activate.{current_path}
use nixdeploy_corbet_ch.Receive.Resolve.{resolve}

-- The target is one that `resolve` answers.
abbrev pub IsResolved : (s : Setting) → ReceiverConfig → Target → Type 0
IsResolved s cfg t = (w : World s.os) × ((resolve s cfg w).0 ≡ ok t)

resolve-IsResolved :
    (s : Setting) (cfg : ReceiverConfig) (p : Purpose)
    → Emits (resolve s cfg) (λ r new. Never p new × ((w : World s.os) × ((resolve s cfg w).0 ≡ r)))
resolve-IsResolved s cfg p = record {
  at = λ w.
      let (new, e, q) =
        (Keeps-Stays p (λ e. false) nothing _ refl (resolve-Stays s nothing cfg)).at w in
      (new, e, (q, (w, refl)));
}

-- What a change and a replacement of the machine do is what the run does.
module _ (s : Setting) (p : Purpose) {I : Type 0} (a b : I → Event → Bool) (cfg : ReceiverConfig)
    (not_check : same_purpose p to_check ≡ false)
    (not_reconcile : same_purpose p to_reconcile ≡ false)
    (hb : (t : Target)
      → IsResolved s cfg t
      → (current : Text) (rejected : Option RejectedTargetState)
      → Orders p a b (become s cfg t.store_path current rejected))
    (hk : (t : Target)
      → IsResolved s cfg t
      → (bytes ceiling : ℕ) → Orders p a b (route_over_ceiling s cfg t bytes ceiling)) where
  stay_current-Quiet : (t : Target) (current : Text) → Quiet p (stay_current s cfg t current)
  unfolding stay_current current_gate fail
  stay_current-Quiet t current =
      Keeps-bind p _ _ _
        (Keeps-Returns p _ (λ q. same_purpose q to_check) _ not_check
          (run_health_gate-Returns s _ cfg.health_gate refl))
        (λ g. Keeps-bind p _ _ _ (gated g) (λ u.
          Keeps-bind p _ _ _
            (Keeps-Stays p _ (λ q. same_purpose q to_reconcile) _ not_reconcile
              (Emits-weaken _ _ (reconcile_boot_role-Bears s cfg t) (λ r new k. k.0)))
            (λ v. Keeps-pure p _ _)))
    where
      gated : (g : HealthGateOutcome) → Quiet p (current_gate s current g)
      gated passed = Keeps-pure p _ tt
      gated (gate_unavailable cmd e) = Keeps-exit p _ _
      gated (gate_failed cmd raw) = Keeps-exit p _ _

  change-Orders :
      (t : Target) (current : Text) (rejected : Option RejectedTargetState)
      → IsResolved s cfg t
      → Orders p a b (change s cfg t current rejected)
  unfolding change within_ceiling
  change-Orders t current rejected known =
      Orders-after p a b _ _ (Keeps-Stays p _ nothing _ refl (size-Stays s nothing t current))
        (λ d. sized_within cfg.max_inplace_delta_bytes d.bytes)
    where
      sized_within :
          (ceiling : Option ℕ) (bytes : ℕ)
          → Orders p a b (within_ceiling s cfg t current rejected ceiling bytes)
      sized_within none bytes = hb t known current rejected
      sized_within (some limit) bytes =
          Emits-if (exceeds_ceiling bytes (some limit)) _ _ (λ h. hk t known bytes limit)
            (λ h. hb t known current rejected)

  converge-Orders : Orders p a b (converge s cfg)
  unfolding converge
  converge-Orders =
      Emits-bind (λ r new. Never p new × ((w : World s.os) × ((resolve s cfg w).0 ≡ r))) _ _
        (resolve-IsResolved s cfg p) (λ e new h. inl h.0)
        (λ t old h.
          Emits-weaken (λ r new. Ordered p a b new) _ (resolved t h.1)
            (λ r new k. Ordered-after p a b new old h.0 k))
    where
      resolved :
          (t : Target)
          → IsResolved s cfg t
          → Orders p a b (
              with_error
                (λ e. failed Stage.activate (current_path_unread e))
                (current_path cfg.activation)
              >>= λ current.
                  with_error (λ e. failed Stage.state (state_error e)) (load_rejected_target s cfg)
                  >>= λ rejected. refuse_pinned s current t rejected >>= λ allowed.
                      if current == t.store_path
                      then stay_current s cfg t current
                      else change s cfg t current rejected)
      resolved t known =
          Orders-after p a b _ _
            (Keeps-with_error p _ _ _ (current_path-Stays nothing cfg.activation))
            (λ current.
              Orders-after p a b _ _
                (Keeps-with_error p _ _ _ (load_rejected_target-Stays s nothing cfg))
                (λ rejected.
                  Orders-after p a b _ _
                    (Keeps-Stays p _ nothing _ refl
                      (refuse_pinned-Stays s nothing current t rejected))
                    (λ allowed.
                      Emits-if (current == t.store_path) _ _
                        (λ h. Orders-Quiet p a b _ (stay_current-Quiet t current))
                        (λ h. change-Orders t current rejected known))))

  pub run_with-Orders : Orders p a b (run_with s (ok cfg))
  unfolding run_with run_configured
  run_with-Orders =
      Orders-after p a b _ _
        (Keeps-Returns p _ nothing _ refl
          (attempt-Returns nothing _ (load_reimage_owed-Stays s nothing cfg)))
        (λ loaded.
          Emits-result loaded _ _
            (λ owed e. Orders-after p a b _ _ (unlogged _) (λ begun.
              Orders-before p a b _ _
                (Emits-attempt _ (Emits-weaken _ _ converge-Orders (λ r new k. k)))
                (λ result.
                  Keeps-bind p _ _ _
                    (Keeps-Returns p _ nothing _ refl (settle_debt-Returns s nothing cfg _))
                    (λ u.
                      Keeps-bind p _ _ _
                        (Keeps-Returns p _ nothing _ refl (report-Returns s nothing _))
                        (λ v. Keeps-pure p _ _)))))
            (λ d e. Orders-Quiet p a b _ (
              Keeps-bind p _ _ _ (unlogged _) (λ begun.
                Keeps-bind p _ _ _ (Keeps-Returns p _ nothing _ refl (report-Returns s nothing _))
                  (λ told. Keeps-pure p _ _)))))
    where
      unlogged : (f : Measured → Measured) → Quiet p (measure {os = s.os} {E = Outcome} f)
      unlogged f = Keeps-Stays p _ nothing _ refl (Stays-measure nothing f)
