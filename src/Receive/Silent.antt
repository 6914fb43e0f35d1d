-- ===== src/Receive/Silent.antt =====
-- The steps of a run that run no command of their own, and the ones that only check.
use nixdeploy_corbet_ch.World.{FilePath, Purpose, to_check, Exec}
use nixdeploy_corbet_ch.World.Emits.{
  Emits-pure, Emits-act, Emits-ask, Emits-measure, Emits-measured_now, Emits-if, Emits-option,
  Emits-result, Emits-weaken, Emits-bind, Emits-note, Emits-with_error, Emits-attempt,
}
use nixdeploy_corbet_ch.Backend.{backend_eq, option_eq}
use nixdeploy_corbet_ch.Command.{split_command}
use nixdeploy_corbet_ch.Activate.{run_raw, gate_command, run_health_gate}
use nixdeploy_corbet_ch.Outcome.{Stage, Detail, Outcome}
use nixdeploy_corbet_ch.Select.{Target}
use nixdeploy_corbet_ch.Artifact.{Artifact}
use nixdeploy_corbet_ch.Receive.{ReceiverConfig, RejectedTargetState, Setting, fail}
use nixdeploy_corbet_ch.Receive.State.{
  read_state, load_rejected_target, load_reimage_owed, clear_state, clear_reimage_owed,
}
use nixdeploy_corbet_ch.Receive.Resolve.{
  fetch, fetch_detached, fetch_and_verify, check_target, check_artifact, check_compatibility,
  resolve,
}
use nixdeploy_corbet_ch.Receive.Reimage.{report}
use nixdeploy_corbet_ch.Receive.Converge.{settles, refuse_pinned, size, settle_debt}
use nixdeploy_corbet_ch.Receive.Log.{within, within-append, Stays, Stays-bind}
use nixdeploy_corbet_ch.Receive.Frame.{
  is_ok, Returns, Stays-pure, Stays-exit, Stays-ask, Stays-or_exit, Stays-measure, Stays-act,
  Returns-bind,
}
use nixdeploy_corbet_ch.Base.{
  ◌≡◌, refl, ◌∙◌, Bool, true, not, ◌&&◌, Option, none, some, List, [], ◌∷◌,
}
use nixdeploy_corbet_ch.Text.{Text, ◌==◌}

module _ (s : Setting) (allows : Purpose → Bool) where
  run_raw-Returns :
      (purpose : Purpose) (bin : Text) (args : List Text)
      → allows purpose ≡ true
      → Returns allows (run_raw {os = s.os} {E = Outcome} purpose bin args)
  unfolding run_raw within
  run_raw-Returns purpose bin args h = Emits-act _ _ (λ r. (refl, rw h))

  Stays-fail :
      {A : Type 0} (at_stage : Stage) (d : Detail)
      → Stays allows (fail {os = s.os} {A = A} at_stage d)
  unfolding fail
  Stays-fail at_stage d = Stays-exit allows _

  Stays-read_state : (cfg : ReceiverConfig) (path : FilePath) → Stays allows (read_state s cfg path)
  unfolding read_state within
  Stays-read_state cfg path = Stays-bind allows _ _ (Stays-act allows _ _ (λ a. refl)) (λ r.
      Stays-bind allows _ _ (Stays-or_exit allows _ r) (λ u. Stays-act allows _ _ (λ a. refl)))

  pub load_rejected_target-Stays :
      (cfg : ReceiverConfig) → Stays allows (load_rejected_target s cfg)
  unfolding load_rejected_target
  load_rejected_target-Stays cfg =
      Stays-bind allows _ _ (Stays-read_state cfg _) (λ f. Stays-or_exit allows _ _)

  pub load_reimage_owed-Stays : (cfg : ReceiverConfig) → Stays allows (load_reimage_owed s cfg)
  unfolding load_reimage_owed
  load_reimage_owed-Stays cfg =
      Stays-bind allows _ _ (Stays-read_state cfg _) (λ f. Stays-or_exit allows _ _)

  pub clear_state-Stays : (path : FilePath) → Stays allows (clear_state s path)
  unfolding clear_state within
  clear_state-Stays path =
      Stays-bind allows _ _ (Stays-act allows _ _ (λ a. refl))
        (λ r. Stays-bind allows _ _ (Stays-or_exit allows _ r) (λ u. Stays-pure allows tt))

  pub report-Returns : (o : Outcome) → Returns allows (report s o)
  unfolding report within
  report-Returns o = Returns-bind allows _ _ (Emits-ask _ (λ a. (refl, refl))) (λ now.
      Returns-bind allows _ _ (Emits-measured_now (λ m. (refl, refl)))
        (λ m. Emits-note _ (refl, refl)))

  Stays-fetch : (url : Text) → Stays allows (fetch s url)
  unfolding fetch within
  Stays-fetch url =
      Stays-bind allows _ _ (Stays-act allows _ _ (λ a. refl)) (λ r. Stays-or_exit allows _ r)

  pub fetch_and_verify-Stays :
      (url public_key hostname plane : Text)
      → Stays allows (fetch_and_verify s url public_key hostname plane)
  unfolding fetch_and_verify fetch_detached
  fetch_and_verify-Stays url public_key hostname plane =
      Stays-bind allows _ _ (Stays-fetch url) (λ body.
        Emits-if (s.wire.has_envelope_version body) _ _ (λ h. Stays-or_exit allows _ _)
          (λ h. Stays-bind allows _ _ (Stays-fetch _) (λ t. Stays-or_exit allows _ _)))

  Stays-check_target : (cfg : ReceiverConfig) (t : Target) → Stays allows (check_target s cfg t)
  unfolding check_target
  Stays-check_target cfg t =
      Emits-if (not (backend_eq t.backend cfg.plane.backend)) _ _ (λ h. Stays-fail _ _)
        (λ h.
          Emits-if (not (option_eq t.identity cfg.plane.identity)) _ _ (λ k. Stays-fail _ _)
            (λ k. Stays-pure allows tt))

  Stays-check_artifact : (t : Target) (a : Option Artifact) → Stays allows (check_artifact s t a)
  unfolding check_artifact
  Stays-check_artifact t none = Stays-pure allows tt
  Stays-check_artifact t (some a) =
      Stays-bind allows _ _ (Stays-ask allows _)
        (λ k. Stays-bind allows _ _ (Stays-or_exit allows _ k) (λ f. Stays-or_exit allows _ _))

  pub resolve-Stays : (cfg : ReceiverConfig) → Stays allows (resolve s cfg)
  unfolding resolve check_compatibility
  resolve-Stays cfg = Stays-bind allows _ _ (Stays-ask allows _) (λ k.
      Stays-bind allows _ _ (Stays-or_exit allows _ k) (λ h.
        Stays-bind allows _ _
          (Emits-with_error _ _ (map_err-within (fetch_and_verify-Stays _ _ h _)))
          (λ t. Stays-bind allows _ _ (Stays-check_target cfg t) (λ f.
            Stays-bind allows _ _ (Stays-check_artifact t t.artifact) (λ c. Stays-pure allows t)))))
    where
      map_err-within : {E A : Type 0} {m : Exec s.os E A} → Stays allows m → Stays allows m
      map_err-within h = h

  pub refuse_pinned-Stays :
      (current : Text) (t : Target) (r : Option RejectedTargetState)
      → Stays allows (refuse_pinned s current t r)
  unfolding refuse_pinned
  refuse_pinned-Stays current t none = Stays-pure allows tt
  refuse_pinned-Stays current t (some r) =
      Emits-if (r.target == t.store_path) _ _ (λ h. Stays-fail _ _) (λ h. Stays-pure allows tt)

  pub size-Stays : (t : Target) (current : Text) → Stays allows (size s t current)
  unfolding size
  size-Stays t current = Stays-bind allows _ _ (Stays-ask allows _) (λ k.
      Stays-bind allows _ _ (Stays-or_exit allows _ k) (λ sources.
        Stays-bind allows _ _ (Stays-or_exit allows _ _) (λ u.
          Stays-bind allows _ _ (Stays-or_exit allows _ _)
            (λ d. Stays-bind allows _ _ (Stays-measure allows _) (λ v. Stays-pure allows d)))))

  -- Settling the debt never changes the outcome.
  pub settle_debt-Returns :
      (cfg : ReceiverConfig) (o : Outcome) → Returns allows (settle_debt s cfg o)
  unfolding settle_debt clear_reimage_owed within
  settle_debt-Returns cfg o = Returns-bind allows _ _ (Emits-measured_now (λ m. (refl, refl))) (λ m.
      Emits-if (settles o && m.reimage_owed) _ _
        (λ h.
          Returns-bind allows _ _
            (Emits-attempt _ (
              Emits-weaken (λ r new. within allows new ≡ true) _ (clear_state-Stays _)
                (λ r new k. (refl, k))))
            (λ c.
              Emits-result c _ _ (λ a e. Emits-measure _ (refl, refl))
                (λ d e. Emits-pure tt (refl, refl))))
        (λ h. Emits-pure tt (refl, refl)))

  Returns-gate_command :
      (cmd : Text)
      → allows to_check ≡ true
      → Returns allows (gate_command {os = s.os} {E = Outcome} cmd)
  unfolding gate_command within
  Returns-gate_command cmd h =
      Emits-result (split_command cmd) _ _
        (λ c e.
          Emits-bind (λ r new. (is_ok r ≡ true) × (within allows new ≡ true)) _ _
            (Emits-weaken (λ r new. (is_ok r ≡ true) × (within allows new ≡ true)) _
              (run_raw-Returns to_check c.0 c.1 h) (λ r new k. k))
            (λ d new k. k) (λ r old k. Emits-pure _ (refl, k.1)))
        (λ d e. Emits-pure _ (refl, refl))

  -- The health gate runs checks only, and always has a verdict.
  pub run_health_gate-Returns :
      (cmds : List Text)
      → allows to_check ≡ true
      → Returns allows (run_health_gate {os = s.os} {E = Outcome} cmds)
  unfolding run_health_gate within
  run_health_gate-Returns [] h = Emits-pure _ (refl, refl)
  run_health_gate-Returns (cmd ∷ cmds) h =
      Emits-bind (λ r new. (is_ok r ≡ true) × (within allows new ≡ true)) _ _
        (Returns-gate_command cmd h) (λ d new k. cc (k.0))
        (λ v old k.
          Emits-option v _ _
            (λ e.
              Emits-weaken (λ r new. (is_ok r ≡ true) × (within allows new ≡ true)) _
                (run_health_gate-Returns cmds h)
                (λ r new l. (l.0, within-append allows new old ∙ rw (l.1, k.1))))
            (λ o e. Emits-pure _ (refl, k.1)))
