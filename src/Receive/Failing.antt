-- ===== src/Receive/Failing.antt =====
-- The steps of a run of src/receive.rs that cannot end it but in a failure.

use nixdeploy_corbet_ch.Artifact.{Artifact}
use nixdeploy_corbet_ch.Base.{
  Result, ok, err, map_err, ok_or, ◌≡◌, refl, ◌∙◌, Bool, true, not, Option, none, some, arith,
}
use nixdeploy_corbet_ch.Outcome.{Stage, Detail, no_boot_artifact, Outcome, failed, is_error}
use nixdeploy_corbet_ch.Receive.{RoleCommand, ReceiverConfig, RejectedTargetState, Setting, fail}
use nixdeploy_corbet_ch.Receive.Converge.{refuse_pinned, current_gate, size}
use nixdeploy_corbet_ch.Receive.Frame.{is_ok, Returns, Stays-run_with_arguments}
use nixdeploy_corbet_ch.Receive.Log.{same_purpose, nothing, Stays}
use nixdeploy_corbet_ch.Receive.Resolve.{check_target, check_artifact, check_compatibility, resolve}
use nixdeploy_corbet_ch.Receive.Silent.{fetch_and_verify-Stays}
use nixdeploy_corbet_ch.Select.{Target}
use nixdeploy_corbet_ch.Text.{Text, ◌==◌}
use nixdeploy_corbet_ch.World.{Os, Purpose, to_reconcile, Exec, ◌>>=◌, pure, or_exit, with_error}
use nixdeploy_corbet_ch.World.Emits.{
  Emits, Emits-pure, Emits-exit, Emits-ask, Emits-measure, Emits-or_exit, Emits-if, Emits-option,
  Emits-weaken, Emits-bind, Emits-with_error,
}
use nixdeploy_corbet_ch.Backend.{backend_eq, BootRole, option_eq}
use nixdeploy_corbet_ch.Command.{
  succeeded, HealthGateOutcome, passed, gate_unavailable, gate_failed,
}
use nixdeploy_corbet_ch.Manifest.{BootSpec}
use nixdeploy_corbet_ch.Receive.Recover.{reconcile_with, reconcile_boot_role}

failed-is_error :
    {A : Type 0} (at_stage : Stage) (d : Detail) (o : Outcome)
    → ◌≡◌ {A = Result A Outcome} (err (failed at_stage d)) (err o)
    → is_error o ≡ true
unfolding is_error
failed-is_error at_stage d o q = ground (arith, q)

-- A computation whose early returns are failures.
abbrev pub Fails : {os : Os} {A : Type 0} → Exec os Outcome A → Type 1
Fails m = Emits m (λ r new. (o : Outcome) → r ≡ err o → is_error o ≡ true)

module _ {os : Os} where
  pub Fails-bind :
      {A B : Type 0} (m : Exec os Outcome A) (f : A → Exec os Outcome B)
      → Fails m
      → ((a : A) → Fails (f a))
      → Fails (m >>= f)
  Fails-bind m f hm hf =
      Emits-bind (λ r new. (o : Outcome) → r ≡ err o → is_error o ≡ true) m f hm
        (λ e new h o q. h o (cc q)) (λ a old h. Emits-weaken _ (f a) (hf a) (λ r new k. k))

  pub Fails-pure : {A : Type 0} (a : A) → Fails (pure {os = os} a)
  Fails-pure a = Emits-pure a (λ o q. cc)

  Fails-fail :
      {A : Type 0} (at_stage : Stage) (d : Detail) → Fails (fail {os = os} {A = A} at_stage d)
  unfolding fail is_error
  Fails-fail at_stage d = Emits-exit _ (λ o q. failed-is_error at_stage d o q)

  pub Fails-or_exit :
      {A D : Type 0} (at_stage : Stage) (f : D → Detail) (r : Result A D)
      → Fails (or_exit {os = os} (λ d. failed at_stage (f d)) r)
  Fails-or_exit at_stage f r =
      Emits-or_exit _ r (λ a e o q. cc) (λ d e o q. failed-is_error at_stage (f d) o q)

  pub Fails-with_error :
      {A D : Type 0} (at_stage : Stage) (f : D → Detail) (allows : Purpose → Bool) (m : Exec os D A)
      → Stays allows m
      → Fails (with_error (λ d. failed at_stage (f d)) m)
  Fails-with_error {A = A} {D = D} at_stage f allows m h =
      Emits-with_error _ m (Emits-weaken _ m h (λ r new k. carried r))
    where
      carried :
          (r : Result A D) (o : Outcome)
          → map_err (λ d. failed at_stage (f d)) r ≡ err o
          → is_error o ≡ true
      carried (ok a) o q = cc
      carried (err d) o q = failed-is_error at_stage (f d) o q

  pub Fails-Returns :
      {A : Type 0} (allows : Purpose → Bool) (m : Exec os Outcome A) → Returns allows m → Fails m
  Fails-Returns {A = A} allows m h = Emits-weaken _ m h (λ r new k. never r k.0)
    where
      never :
          (r : Result A Outcome) → is_ok r ≡ true → (o : Outcome) → r ≡ err o → is_error o ≡ true
      never (ok a) h o q = cc
      never (err e) h o q = cc

module _ (s : Setting) where
  check_artifact-Fails : (t : Target) (a : Option Artifact) → Fails (check_artifact s t a)
  unfolding check_artifact
  check_artifact-Fails t none = Fails-pure tt
  check_artifact-Fails t (some a) = Fails-bind _ _ (Emits-ask _ (λ a o q. cc)) (λ k.
      Fails-bind _ _ (Fails-or_exit Stage.compatibility _ k)
        (λ f. Fails-or_exit Stage.compatibility _ _))

  check_target-Fails : (cfg : ReceiverConfig) (t : Target) → Fails (check_target s cfg t)
  unfolding check_target
  check_target-Fails cfg t =
      Emits-if (not (backend_eq t.backend cfg.plane.backend)) _ _ (λ h. Fails-fail _ _)
        (λ h.
          Emits-if (not (option_eq t.identity cfg.plane.identity)) _ _ (λ k. Fails-fail _ _)
            (λ k. Fails-pure tt))

  pub resolve-Fails : (cfg : ReceiverConfig) → Fails (resolve s cfg)
  unfolding resolve check_compatibility
  resolve-Fails cfg = Fails-bind _ _ (Emits-ask _ (λ a o q. cc)) (λ k.
      Fails-bind _ _ (Fails-or_exit Stage.manifest _ k) (λ h.
        Fails-bind _ _
          (Fails-with_error Stage.manifest _ nothing _ (fetch_and_verify-Stays s nothing _ _ h _))
          (λ t.
            Fails-bind _ _ (check_target-Fails cfg t)
              (λ f. Fails-bind _ _ (check_artifact-Fails t t.artifact) (λ c. Fails-pure t)))))

  pub refuse_pinned-Fails :
      (current : Text) (t : Target) (r : Option RejectedTargetState)
      → Fails (refuse_pinned s current t r)
  unfolding refuse_pinned
  refuse_pinned-Fails current t none = Fails-pure tt
  refuse_pinned-Fails current t (some r) =
      Emits-if (r.target == t.store_path) _ _ (λ h. Fails-fail _ _) (λ h. Fails-pure tt)

  pub size-Fails : (t : Target) (current : Text) → Fails (size s t current)
  unfolding size
  size-Fails t current = Fails-bind _ _ (Emits-ask _ (λ a o q. cc)) (λ k.
      Fails-bind _ _ (Fails-or_exit Stage.delta _ k) (λ sources.
        Fails-bind _ _ (Fails-or_exit Stage.delta (λ d. d) _) (λ u.
          Fails-bind _ _ (Fails-or_exit Stage.delta (λ d. d) _)
            (λ d. Fails-bind _ _ (Emits-measure _ (λ o q. cc)) (λ v. Fails-pure d)))))

  pub current_gate-Fails :
      (current : Text) (g : HealthGateOutcome) → Fails (current_gate s current g)
  unfolding current_gate
  current_gate-Fails current passed = Fails-pure tt
  current_gate-Fails current (gate_unavailable cmd e) = Fails-fail _ _
  current_gate-Fails current (gate_failed cmd raw) = Fails-fail _ _

  pub reconcile_boot_role-Fails :
      (cfg : ReceiverConfig) (t : Target) → Fails (reconcile_boot_role s cfg t)
  unfolding reconcile_boot_role reconcile_with
  reconcile_boot_role-Fails cfg t =
      Emits-option cfg.boot_role_reconcile _ _ (λ e. Fails-pure tt)
        (λ request e. with_boot request t.boot)
    where
      no_artifact :
          {A : Type 0} (role : BootRole) (a : Option A)
          → Fails {os = s.os}
              (or_exit (λ e. e) (ok_or (failed Stage.boot_reconcile (no_boot_artifact role)) a))
      no_artifact role none =
          Emits-or_exit _ _ (λ a e o q. cc)
            (λ d e o q. failed-is_error Stage.boot_reconcile (no_boot_artifact role) o (e ∙ q))
      no_artifact role (some a) = Emits-or_exit _ _ (λ a e o q. cc) (λ d e o q. cc)

      with_boot : (request : RoleCommand) (b : Option BootSpec) → Fails (reconcile_with s request b)
      with_boot request none = Emits-exit _ (λ o q. failed-is_error Stage.boot_reconcile _ o q)
      with_boot request (some boot) = Fails-bind _ _ (no_artifact request.role _) (λ a.
          Fails-bind _ _
            (Fails-with_error Stage.boot_reconcile _ (λ q. same_purpose q to_reconcile) _
              (Stays-run_with_arguments _ to_reconcile request.command _ refl))
            (λ raw.
              Emits-if (succeeded raw) _ _ (λ l. Fails-pure tt)
                (λ l. Emits-exit _ (λ o q. failed-is_error Stage.boot_reconcile _ o q))))
