-- ===== src/Receive/Outcomes.antt =====
-- A whole run executes what its outcome permits.
use nixdeploy_corbet_ch.World.{Purpose, to_check, to_reconcile, to_reimage, Event, ◌>>=◌, pure}
use nixdeploy_corbet_ch.World.Emits.{
  Emits, Emits-pure, Emits-exit, Emits-ask, Emits-measure, Emits-or_exit, Emits-if, Emits-option,
  Emits-result, Emits-weaken, Emits-bind, Emits-with_error, Emits-attempt,
}
use nixdeploy_corbet_ch.Command.{
  succeeded, HealthGateOutcome, passed, gate_unavailable, gate_failed,
}
use nixdeploy_corbet_ch.Select.{Target}
use nixdeploy_corbet_ch.Manifest.{BootSpec}
use nixdeploy_corbet_ch.Outcome.{Outcome, already_current}
use nixdeploy_corbet_ch.Receive.{RoleCommand, ReceiverConfig, RejectedTargetState, Setting, fail}
use nixdeploy_corbet_ch.Receive.State.{persist_reimage_owed}
use nixdeploy_corbet_ch.Receive.Reimage.{report, reimage_verdict, ask_provider, route_over_ceiling}
use nixdeploy_corbet_ch.Receive.Recover.{reconcile_with, reconcile_boot_role}
use nixdeploy_corbet_ch.Receive.Converge.{
  outcome_of, current_gate, stay_current, within_ceiling, change, converge, settle_debt,
  run_configured, run_with,
}
use nixdeploy_corbet_ch.Receive.Log.{
  same_purpose, within, nothing, within-append, within_mono, Stays,
}
use nixdeploy_corbet_ch.Receive.Frame.{
  is_ok, Stays-or_exit, Stays-run_with_arguments, current_path-Stays, write_atomic-writes,
}
use nixdeploy_corbet_ch.Receive.Silent.{
  load_rejected_target-Stays, load_reimage_owed-Stays, report-Returns, resolve-Stays,
  refuse_pinned-Stays, size-Stays, settle_debt-Returns, run_health_gate-Returns,
}
use nixdeploy_corbet_ch.Receive.Permits.{
  detail_permits, permits, Fits, Bears, either, Fits-bind, Bears-Returns, Bears-Stays,
  Bears-with_error, Fits-pure, Fits-quiet, Bears-quiet, attempt-Returns,
}
use nixdeploy_corbet_ch.Base.{
  Bool-cases, Result, ok, err, ok_or, ℕ, ◌≡◌, refl, sym, ◌∙◌, inl, inr, Bool, true, false, Option,
  none, some, List, arith,
}
use nixdeploy_corbet_ch.Text.{Text, ◌==◌}
use nixdeploy_corbet_ch.Delta.{exceeds_ceiling}
use nixdeploy_corbet_ch.Backend.{BootRole}
use nixdeploy_corbet_ch.Receive.Executes.{become-Fits}

abbrev only : Purpose → Purpose → Bool
only q p = same_purpose p q

ok_or-err : {A E : Type 0} {x d : E} (o : Option A) → ok_or x o ≡ err d → x ≡ d
ok_or-err none h = cc
ok_or-err (some a) h = cc

module _ (s : Setting) where
  pub reconcile_boot_role-Bears :
      (cfg : ReceiverConfig) (t : Target)
      → Emits (reconcile_boot_role s cfg t) (λ r new.
        (within (only to_reconcile) new ≡ true)
        × Bears (either (only to_check) (only to_reconcile)) r)
  unfolding reconcile_boot_role reconcile_with within detail_permits
  reconcile_boot_role-Bears cfg t =
      Emits-option cfg.boot_role_reconcile _ _ (λ e. Emits-pure tt (refl, tt))
        (λ request e. with_boot request t.boot)
    where
      Q : {A : Type 0} → Result A Outcome → List Event → Type 0
      Q r new =
          (within (only to_reconcile) new ≡ true)
          × Bears (either (only to_check) (only to_reconcile)) r

      with_boot :
          (request : RoleCommand) (b : Option BootSpec) → Emits (reconcile_with s request b) Q
      with_boot request none = Emits-exit _ (refl, λ p h. h)
      with_boot request (some boot) =
          Emits-bind Q _ _
            (Emits-or_exit _ _ (λ a e. (refl, tt))
              (λ o e. (refl, λ p q. rw (sym (ok_or-err _ e)) q)))
            (λ o new h. h)
            (λ a old h.
              Emits-bind Q _ _
                (Bears-with_error _ (only to_reconcile) _ _
                  (Stays-run_with_arguments (only to_reconcile) to_reconcile request.command _ refl)
                  (λ d p k. k))
                (λ o new k. (within-append (only to_reconcile) new old ∙ rw (k.0, h.0), k.1))
                (λ raw ran k.
                  let clean = within-append (only to_reconcile) ran old ∙ rw (k.0, h.0) in
                  Emits-if (succeeded raw) _ _ (λ l. Emits-pure tt (clean, tt))
                    (λ l. Emits-exit _ (clean, λ p q. q))))

  stay_current-Fits :
      (cfg : ReceiverConfig) (t : Target) (current : Text)
      → Emits (stay_current s cfg t current) (Fits nothing)
  unfolding stay_current current_gate fail within detail_permits
  stay_current-Fits cfg t current =
      Fits-bind nothing (only to_check) _ _
        (Bears-Returns nothing _ _ (run_health_gate-Returns s (only to_check) cfg.health_gate refl))
        (λ g. Fits-quiet (only to_check) _ _ (gated g) (λ u.
          Fits-bind (only to_check) (only to_reconcile) _ _ (reconcile_boot_role-Bears cfg t)
            (λ v. Fits-pure _ (already_current current) (λ p h. h))))
    where
      gated :
          (g : HealthGateOutcome)
          → Emits
              (current_gate s current g)
              (λ r new. (within nothing new ≡ true) × Bears (only to_check) r)
      gated passed = Emits-pure tt (refl, tt)
      gated (gate_unavailable cmd e) = Emits-exit _ (refl, λ p h. ground arith)
      gated (gate_failed cmd raw) = Emits-exit _ (refl, λ p h. ground arith)

  ask_provider-Fits :
      (t : Target) (bytes ceiling : ℕ) (request : RoleCommand)
      → Emits (ask_provider s t bytes ceiling request) (Fits nothing)
  unfolding ask_provider reimage_verdict detail_permits
  ask_provider-Fits t bytes ceiling request =
      Fits-quiet nothing _ _ (Bears-Stays _ (Stays-or_exit nothing _ _)) (λ allowed.
        Fits-quiet nothing _ _ (Bears-Stays _ (Stays-or_exit nothing _ _)) (λ found.
          Fits-quiet nothing _ _ (Bears-quiet nothing _ (report-Returns s nothing _)) (λ told.
            Fits-bind nothing (only to_reimage) _ _
              (Bears-with_error _ (only to_reimage) _ _
                (Stays-run_with_arguments (only to_reimage) to_reimage request.command _ refl)
                (λ d p k. k))
              (λ raw.
                Fits-pure _ _
                  (λ p h. elim (Bool-cases (succeeded raw)) [ inl e ↦ rw e h | inr e ↦ rw e h ])))))

  pub persist_reimage_owed-Stays :
      (allows : Purpose → Bool) (cfg : ReceiverConfig) (role : BootRole) (target : Text)
      (artifact image : Option Text) (now : ℕ)
      → Stays allows (persist_reimage_owed s cfg role target artifact image now)
  unfolding persist_reimage_owed
  persist_reimage_owed-Stays allows cfg role target artifact image now =
      Emits-with_error _ _ (Emits-weaken _ _ (write_atomic-writes allows _ _ _) (λ r new k. k.0))

  route_over_ceiling-Fits :
      (cfg : ReceiverConfig) (t : Target) (bytes ceiling : ℕ)
      → Emits (route_over_ceiling s cfg t bytes ceiling) (Fits nothing)
  unfolding route_over_ceiling within
  route_over_ceiling-Fits cfg t bytes ceiling =
      Fits-quiet nothing _ _ (Emits-measure _ (refl, tt)) (λ owes.
        Fits-quiet nothing _ _ (Emits-ask _ (λ a. (refl, tt))) (λ now.
          Fits-quiet nothing _ _
            (Bears-with_error nothing nothing _ _
              (persist_reimage_owed-Stays nothing cfg _ _ _ _ now) (λ d p k. cc))
            (λ durable.
              Emits-option cfg.reimage _ _ (λ e. Fits-pure _ _ (λ p k. k))
                (λ request e. ask_provider-Fits t bytes ceiling request))))

  change-Fits :
      (cfg : ReceiverConfig) (t : Target) (current : Text) (rejected : Option RejectedTargetState)
      → Emits (change s cfg t current rejected) (Fits nothing)
  unfolding change within_ceiling
  change-Fits cfg t current rejected =
      Fits-quiet nothing _ _ (Bears-Stays _ (size-Stays s nothing t current))
        (λ d. sized_within cfg.max_inplace_delta_bytes d.bytes)
    where
      sized_within :
          (ceiling : Option ℕ) (bytes : ℕ)
          → Emits (within_ceiling s cfg t current rejected ceiling bytes) (Fits nothing)
      sized_within none bytes = become-Fits s cfg t.store_path current rejected
      sized_within (some limit) bytes =
          Emits-if (exceeds_ceiling bytes (some limit)) _ _
            (λ h. route_over_ceiling-Fits cfg t bytes limit)
            (λ h. become-Fits s cfg t.store_path current rejected)

  converge-Fits : (cfg : ReceiverConfig) → Emits (converge s cfg) (Fits nothing)
  unfolding converge
  converge-Fits cfg = Fits-quiet nothing _ _ (Bears-Stays _ (resolve-Stays s nothing cfg)) (λ t.
      Fits-quiet nothing _ _
        (Bears-with_error nothing nothing _ _ (current_path-Stays nothing cfg.activation)
          (λ d p k. cc))
        (λ current.
          Fits-quiet nothing _ _
            (Bears-with_error nothing nothing _ _ (load_rejected_target-Stays s nothing cfg)
              (λ d p k. cc))
            (λ rejected.
              Fits-quiet nothing _ _
                (Bears-Stays _ (refuse_pinned-Stays s nothing current t rejected))
                (λ allowed.
                  Emits-if (current == t.store_path) _ _ (λ h. stay_current-Fits cfg t current)
                    (λ h. change-Fits cfg t current rejected)))))

  -- Every command that a run executes is one that its outcome permits: nothing is activated by a run
  -- that ends in "already current", in a refusal, in a replacement request or before the change, and
  -- a replacement is asked for only by runs that end in it or in its failure.
  pub run_with-Fits :
      (loaded : Result ReceiverConfig Text)
      → Emits (run_with s loaded) (λ r new. within (permits (outcome_of r)) new ≡ true)
  unfolding run_with run_configured within
  run_with-Fits (err e) = Emits-pure _ refl
  run_with-Fits (ok cfg) =
      Emits-weaken (Fits nothing) _
        (Fits-quiet nothing _ _
          (Bears-quiet nothing _
            (attempt-Returns nothing _ (load_reimage_owed-Stays s nothing cfg)))
          (λ loaded.
            Emits-result loaded _ _
              (λ owed e. Fits-quiet nothing _ _ (Emits-measure _ (refl, tt)) (λ begun.
                Emits-bind Tried _ _
                  (Emits-attempt _
                    (Emits-weaken (Fits nothing) _ (converge-Fits cfg) (λ r new k. k.0)))
                  (λ o new k. cc)
                  (λ result old k.
                    Emits-weaken
                      (λ r new. (r ≡ ok (outcome_of result)) × (within nothing new ≡ true)) _
                      (finish_run result)
                      (λ r new q. (
                        rw q.0 (
                            within-append (permits (outcome_of result)) new old
                            ∙ rw (
                              k,
                              within_mono nothing (permits (outcome_of result)) new (λ p z. cc) q.1,
                            )),
                        λ p z. cc,
                      )))))
              (λ d e. Fits-quiet nothing _ _ (Emits-measure _ (refl, tt)) (λ begun.
                Fits-quiet nothing _ _ (Bears-quiet nothing _ (report-Returns s nothing _))
                  (λ told. Fits-pure _ _ (λ p k. cc))))))
        (λ r new k. k.0)
    where
      Tried : Result (Result Outcome Outcome) Outcome → List Event → Type 0
      Tried (ok r) new = within (permits (outcome_of r)) new ≡ true
      Tried (err o) new = ◌≡◌ {A = Bool} true false

      finish_run :
          (result : Result Outcome Outcome)
          → Emits
              (settle_debt s cfg (outcome_of result) >>= λ a.
                report s (outcome_of result) >>= λ b. pure (outcome_of result))
              (λ r new. (r ≡ ok (outcome_of result)) × (within nothing new ≡ true))
      finish_run result =
          Emits-bind (λ r new. (is_ok r ≡ true) × (within nothing new ≡ true)) _ _
            (settle_debt-Returns s nothing cfg (outcome_of result)) (λ o new k. cc (k.0))
            (λ a old h.
              Emits-bind (λ r new. (is_ok r ≡ true) × (within nothing new ≡ true)) _ _
                (report-Returns s nothing (outcome_of result)) (λ o new k. cc (k.0))
                (λ b told k. Emits-pure _ (refl, within-append nothing told old ∙ rw (k.1, h.1))))
