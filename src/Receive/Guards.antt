-- ===== src/Receive/Guards.antt =====
-- What is on record before a rollback or a replacement is started.
use nixdeploy_corbet_ch.World.{
  FilePath, Os, Purpose, to_activate, to_roll_back, to_check, to_reconcile, to_reimage, Event,
  fetched, observed, executed, wrote, removed, reported, Exec, ◌>>=◌, with_error, attempt,
}
use nixdeploy_corbet_ch.World.Emits.{
  Emits, Emits-ask, Emits-measured_now, Emits-weaken, Emits-bind, Emits-note, Emits-with_error,
  Emits-attempt,
}
use nixdeploy_corbet_ch.Select.{Target}
use nixdeploy_corbet_ch.Outcome.{
  StateError, write_failed, Stage, Detail, delta_exceeds_ceiling, Outcome, converged,
  already_current, refused, reimaged, failed,
}
use nixdeploy_corbet_ch.Receive.{RoleCommand, ReceiverConfig, Setting}
use nixdeploy_corbet_ch.Receive.State.{
  state_version_supported, rejected_target_path, reimage_owed_path, rejected_bytes,
  persist_rejected_target, owed_bytes, persist_reimage_owed,
}
use nixdeploy_corbet_ch.Receive.Reimage.{
  role_of, signed_artifact, artifact_path, image_of, report, ask_provider,
}
use nixdeploy_corbet_ch.Receive.Recover.{reject_and_rollback}
use nixdeploy_corbet_ch.Receive.Log.{
  same_purpose, within, nothing, guarded, guarded-behind, within-guarded, Stays, Stays-bind,
}
use nixdeploy_corbet_ch.Receive.Frame.{
  is_ok, Stays-pure, Stays-ask, Stays-or_exit, Stays-run_with_arguments, write_atomic-writes,
}
use nixdeploy_corbet_ch.Receive.Silent.{report-Returns}
use nixdeploy_corbet_ch.Receive.Executes.{rollback-Stays, persist_rejected_target-Stays}
use nixdeploy_corbet_ch.AtomicFile.{succeeds}
use nixdeploy_corbet_ch.Receive.Order.{Keeps, Keeps-bind, Keeps-Stays, Orders, Orders-after}
use nixdeploy_corbet_ch.Base.{
  any, Result, ok, err, map_err, ℕ, ◌≡◌, refl, inr, Bool, true, false, ◌&&◌, List, [], ◌∷◌, ◌++◌,
}
use nixdeploy_corbet_ch.Text.{Text, codes, ◌==◌}
use nixdeploy_corbet_ch.Text.Laws.{eq_refl}

abbrev pub same_path : FilePath → FilePath → Bool
same_path a b = a.dir == b.dir && a.name == b.name

-- An attempt to write the pin of the target, for this plane, as recorded at the time.
abbrev pub writes_pin : (s : Setting) → ReceiverConfig → Text → ℕ → Event → Bool
writes_pin s cfg target now (wrote path bytes done) =
    same_path path (rejected_target_path cfg)
    && bytes
      == s.rejected_form.encode (record {
        version = state_version_supported;
        plane = cfg.plane.name;
        target = target;
        rejected_at = now;
      })
        ++ codes "\n"
writes_pin s cfg target now (fetched url) = false
writes_pin s cfg target now (observed bin args c) = false
writes_pin s cfg target now (executed purpose bin args r) = false
writes_pin s cfg target now (removed path) = false
writes_pin s cfg target now (reported r) = false

-- The debt to the target, for this plane and the role that is asked for, with the role's signed artifact
-- and image, is durably written as recorded at the time.
abbrev pub writes_debt : (s : Setting) → ReceiverConfig → Target → ℕ → Event → Bool
writes_debt s cfg t now (wrote path bytes done) =
    done
    && (same_path path (reimage_owed_path cfg)
        && bytes
          == s.owed_form.encode (record {
            version = state_version_supported;
            plane = cfg.plane.name;
            role = role_of cfg.reimage;
            target = t.store_path;
            artifact = artifact_path (signed_artifact t.boot (role_of cfg.reimage));
            image = image_of (signed_artifact t.boot (role_of cfg.reimage));
            recorded_at = now;
          })
            ++ codes "\n")
writes_debt s cfg t now (fetched url) = false
writes_debt s cfg t now (observed bin args c) = false
writes_debt s cfg t now (executed purpose bin args r) = false
writes_debt s cfg t now (removed path) = false
writes_debt s cfg t now (reported r) = false

unfoldable pub last_is : Text → List Text → Bool
last_is target [] = false
last_is target (a ∷ []) = a == target
last_is target (a ∷ b ∷ args) = last_is target (b ∷ args)

pub last_is-append :
    (target : Text) (args : List Text) → last_is target (args ++ target ∷ []) ≡ true
unfolding last_is
last_is-append target [] = eq_refl target
last_is-append target (a ∷ []) = eq_refl target
last_is-append target (a ∷ b ∷ args) = last_is-append target (b ∷ args)

-- An activation command was run with the target after its own arguments.
abbrev pub activates : Text → Event → Bool
activates target (executed to_activate bin args r) = last_is target args
activates target (executed to_roll_back bin args r) = false
activates target (executed to_check bin args r) = false
activates target (executed to_reconcile bin args r) = false
activates target (executed to_reimage bin args r) = false
activates target (wrote path bytes done) = false
activates target (fetched url) = false
activates target (observed bin args c) = false
activates target (removed path) = false
activates target (reported r) = false

abbrev pub is_refusal : Outcome → Bool
is_refusal (refused reason bytes ceiling) = true
is_refusal (converged from to) = false
is_refusal (already_current rev) = false
is_refusal (reimaged role artifact image) = false
is_refusal (failed at_stage detail) = false

abbrev pub reports_refusal : Event → Bool
reports_refusal (reported r) = is_refusal r.outcome
reports_refusal (wrote path bytes done) = false
reports_refusal (fetched url) = false
reports_refusal (observed bin args c) = false
reports_refusal (executed purpose bin args r) = false
reports_refusal (removed path) = false

same_path_refl : (a : FilePath) → same_path a a ≡ true
same_path_refl a = rw (eq_refl a.dir, eq_refl a.name)

abbrev only : Purpose → Purpose → Bool
only q p = same_purpose p q

-- What a step leaves behind when it goes on, with the commands that it ran.
abbrev pub Leaves : {os : Os} {E A : Type 0} → (Event → Bool) → Exec os E A → Type 1
Leaves test m =
    Emits m (λ r new. (within nothing new ≡ true) × (is_ok r ≡ true → any test new ≡ true))

module _ {os : Os} {E : Type 0} (p : Purpose) (test : Event → Bool) where
  -- After a step that leaves a passing event, anything may run.
  pub Keeps-after :
      {A B : Type 0} (m : Exec os E A) (f : A → Exec os E B)
      → Leaves test m
      → ((a : A) → Stays (only p) (f a))
      → Keeps p test (m >>= f)
  Keeps-after m f hm hf =
      Emits-bind (λ r new. (within nothing new ≡ true) × (is_ok r ≡ true → any test new ≡ true)) m f
        hm (λ e new h. within-guarded nothing p test new refl h.0)
        (λ a old h.
          Emits-weaken (λ r new. within (only p) new ≡ true) (f a) (hf a)
            (λ r new k.
              guarded-behind p test new old (h.1 refl)
                (within-guarded nothing p test old refl h.0)))

module _ (s : Setting) where
  pin-Leaves :
      (cfg : ReceiverConfig) (target : Text) (now : ℕ)
      → Leaves
          (writes_pin s cfg target now)
          (attempt {E = Outcome} (persist_rejected_target s cfg target now))
  unfolding persist_rejected_target rejected_bytes
  pin-Leaves cfg target now = Emits-attempt _ (
      Emits-with_error _ _ (
        Emits-weaken _ _ (write_atomic-writes nothing _ _ _) (λ r new k. (
          k.0,
          λ h.
              k.1 (writes_pin s cfg target now)
                (rw (same_path_refl (rejected_target_path cfg)) (eq_refl _)),
        ))))

  pub debt-Leaves :
      (cfg : ReceiverConfig) (t : Target) (now : ℕ) (f : StateError → Outcome)
      → Leaves (writes_debt s cfg t now) (
          with_error f (
            persist_reimage_owed s cfg
              (role_of cfg.reimage)
              t.store_path
              (artifact_path (signed_artifact t.boot (role_of cfg.reimage)))
              (image_of (signed_artifact t.boot (role_of cfg.reimage)))
              now))
  unfolding persist_reimage_owed owed_bytes
  debt-Leaves cfg t now f = Emits-with_error _ _ (
      Emits-with_error _ _ (
        Emits-weaken _ _ (write_atomic-writes nothing _ _ _)
          (λ r new k. (k.0, λ h. done r new h k.1))))
    where
      done :
          (r : Result (Unit {0}) Text) (new : List Event)
          → is_ok (map_err f (map_err write_failed r)) ≡ true
          → ((test : Event → Bool)
              → test (
                  wrote
                    (reimage_owed_path cfg)
                    (owed_bytes s cfg
                      (role_of cfg.reimage)
                      t.store_path
                      (artifact_path (signed_artifact t.boot (role_of cfg.reimage)))
                      (image_of (signed_artifact t.boot (role_of cfg.reimage)))
                      now)
                    (succeeds r))
                ≡ true
              → any test new ≡ true)
          → any (writes_debt s cfg t now) new ≡ true
      done (ok a) new h k =
          k (writes_debt s cfg t now) (rw (same_path_refl (reimage_owed_path cfg)) (eq_refl _))
      done (err e) new h k = cc

  refusal-Leaves :
      (bytes ceiling : ℕ)
      → Leaves reports_refusal (report s (refused delta_exceeds_ceiling bytes ceiling))
  unfolding report within
  refusal-Leaves bytes ceiling =
      Emits-bind (λ r new. new ≡ []) _ _ (Emits-ask _ (λ a. refl)) (λ o new h. (rw h, λ q. cc))
        (λ now old h.
          Emits-bind (λ r new. new ≡ []) _ _ (Emits-measured_now (λ m. refl))
            (λ o new k. (rw (h, k), λ q. cc))
            (λ m more k. Emits-note _ (rw (h, k) refl, λ q. refl)))

  pub reject_and_rollback-Stays :
      (cfg : ReceiverConfig) (target previous : Text) (at_stage : Stage) (d : Detail)
      → Stays (only to_roll_back) (reject_and_rollback s cfg target previous at_stage d)
  unfolding reject_and_rollback
  reject_and_rollback-Stays cfg target previous at_stage d =
      Stays-bind _ _ _ (Stays-ask _ _) (λ now.
        Stays-bind _ _ _
          (Emits-attempt _ (
            Emits-weaken _ _ (persist_rejected_target-Stays s (only to_roll_back) cfg target now)
              (λ r new k. k)))
          (λ pin.
            Stays-bind _ _ _
              (Emits-attempt _
                (Emits-weaken _ _ (rollback-Stays cfg.activation previous) (λ r new k. k)))
              (λ rolled. Stays-pure _ _)))

  pub reject_and_rollback-pins :
      (cfg : ReceiverConfig) (target previous : Text) (at_stage : Stage) (d : Detail)
      → Orders to_roll_back
          (writes_pin s cfg target)
          (writes_pin s cfg target)
          (reject_and_rollback s cfg target previous at_stage d)
  unfolding reject_and_rollback
  reject_and_rollback-pins cfg target previous at_stage d =
      Orders-after _ _ _ _ _ (Keeps-Stays _ _ nothing _ refl (Stays-ask nothing _)) (λ now.
        Emits-weaken (λ r new. guarded to_roll_back (writes_pin s cfg target now) new ≡ true) _
          (Keeps-after _ _ _ _ (pin-Leaves cfg target now) (λ pin.
            Stays-bind _ _ _
              (Emits-attempt _
                (Emits-weaken _ _ (rollback-Stays cfg.activation previous) (λ r new k. k)))
              (λ rolled. Stays-pure _ _)))
          (λ r new k. inr (now, k, k)))

  pub ask_provider-Stays :
      (t : Target) (bytes ceiling : ℕ) (request : RoleCommand)
      → Stays (only to_reimage) (ask_provider s t bytes ceiling request)
  unfolding ask_provider
  ask_provider-Stays t bytes ceiling request =
      let allows = only to_reimage in
      Stays-bind allows _ _ (Stays-or_exit allows _ _) (λ allowed.
        Stays-bind allows _ _ (Stays-or_exit allows _ _) (λ found.
          Stays-bind allows _ _ (Emits-weaken _ _ (report-Returns s allows _) (λ r new k. k.1))
            (λ told.
              Stays-bind allows _ _
                (Emits-with_error _ _ (
                  Emits-weaken _ _
                    (Stays-run_with_arguments allows to_reimage request.command _ refl)
                    (λ r new k. k)))
                (λ raw. Stays-pure allows _))))

  pub ask_provider-tells :
      (t : Target) (bytes ceiling : ℕ) (request : RoleCommand)
      → Keeps to_reimage reports_refusal (ask_provider s t bytes ceiling request)
  unfolding ask_provider
  ask_provider-tells t bytes ceiling request =
      Keeps-bind _ _ _ _ (Keeps-Stays _ _ nothing _ refl (Stays-or_exit nothing _ _)) (λ allowed.
        Keeps-bind _ _ _ _ (Keeps-Stays _ _ nothing _ refl (Stays-or_exit nothing _ _)) (λ found.
          Keeps-after _ _ _ _ (refusal-Leaves bytes ceiling) (λ told.
            Stays-bind _ _ _
              (Emits-with_error _ _ (
                Emits-weaken _ _
                  (Stays-run_with_arguments (only to_reimage) to_reimage request.command _ refl)
                  (λ r new k. k)))
              (λ raw. Stays-pure _ _))))
