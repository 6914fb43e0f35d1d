-- ===== src/Receive/Reached.antt =====
-- A run of src/receive.rs that says that it converged: what stands behind it.

use nixdeploy_corbet_ch.Base.{
  Bool-cases, Result, err, ℕ, ◌≡◌, refl, sym, ap, ◌∙◌, inl, inr, true, false, Option, none, some,
  List, [], ◌++◌, arith,
}
use nixdeploy_corbet_ch.Command.{succeeded}
use nixdeploy_corbet_ch.Delta.{exceeds_ceiling}
use nixdeploy_corbet_ch.Outcome.{Stage, Outcome, converged, is_error}
use nixdeploy_corbet_ch.Receive.{RoleCommand, ReceiverConfig, RejectedTargetState, Setting}
use nixdeploy_corbet_ch.Receive.Converge.{outcome_of, stay_current, become, within_ceiling, change}
use nixdeploy_corbet_ch.Receive.Converged.{become-Claims}
use nixdeploy_corbet_ch.Receive.Evidence.{Activated, GatePassed}
use nixdeploy_corbet_ch.Receive.Failing.{
  Fails, Fails-or_exit, Fails-with_error, Fails-Returns, size-Fails, current_gate-Fails,
  reconcile_boot_role-Fails,
}
use nixdeploy_corbet_ch.Receive.Frame.{Stays-run_with_arguments}
use nixdeploy_corbet_ch.Receive.Log.{same_purpose, nothing}
use nixdeploy_corbet_ch.Receive.Outcomes.{persist_reimage_owed-Stays}
use nixdeploy_corbet_ch.Receive.Reimage.{reimage_verdict, ask_provider, route_over_ceiling}
use nixdeploy_corbet_ch.Receive.Silent.{report-Returns, run_health_gate-Returns}
use nixdeploy_corbet_ch.Select.{Target}
use nixdeploy_corbet_ch.Text.{Text, ◌==◌}
use nixdeploy_corbet_ch.World.{to_check, to_reimage, Event, Exec, ◌>>=◌}
use nixdeploy_corbet_ch.World.Emits.{
  Emits, Emits-pure, Emits-ask, Emits-measure, Emits-if, Emits-option, Emits-weaken, Emits-bind,
}
use mathlib.Core.List.{append-nil, append_assoc}

-- The change of the machine to the target and its health gate, in the order of the events.
pub record IsChange (cfg : ReceiverConfig) (target : Text) (new : List Event) : Type 0 where
  pub late : List Event
  pub early : List Event
  pub before : List Event
  pub order : new ≡ late ++ (early ++ before)
  pub activation : Activated cfg.activation target early
  pub gate : GatePassed cfg.health_gate late

pub regroup :
    (late early before new old : List Event)
    → new ≡ late ++ (early ++ before)
    → new ++ old ≡ late ++ (early ++ (before ++ old))
regroup late early before new old e =
    ap (λ l. l ++ old) e
    ∙ append_assoc late (early ++ before) old
    ∙ ap (λ l. late ++ l) (append_assoc early before old)

IsChange-older :
    (cfg : ReceiverConfig) (target : Text) (new old : List Event)
    → IsChange cfg target new
    → IsChange cfg target (new ++ old)
IsChange-older cfg target new old h = record {
  late = h.late;
  early = h.early;
  before = h.before ++ old;
  order = regroup h.late h.early h.before new old h.order;
  activation = h.activation;
  gate = h.gate;
}

pub unconverged :
    {X : Type 0} (o : Outcome) (from to : Text) → is_error o ≡ true → o ≡ converged from to → X
unfolding is_error
unconverged o from to h q = absurd (ground (arith, h, q))

module _ (s : Setting) (cfg : ReceiverConfig) where
  abbrev pub Unconverged : Exec s.os Outcome Outcome → Type 1
  Unconverged m = Emits m (λ r new. (from to : Text) → ¬ (outcome_of r ≡ converged from to))

  Unconverged-bind :
      {A : Type 0} (m : Exec s.os Outcome A) (f : A → Exec s.os Outcome Outcome)
      → Fails m
      → ((a : A) → Unconverged (f a))
      → Unconverged (m >>= f)
  Unconverged-bind m f hm hf =
      Emits-bind (λ r new. (o : Outcome) → r ≡ err o → is_error o ≡ true) m f hm
        (λ o new h from to q. unconverged o from to (h o refl) q) (λ a old h. hf a)

  pub stay_current-Unconverged :
      (t : Target) (current : Text) → Unconverged (stay_current s cfg t current)
  unfolding stay_current
  stay_current-Unconverged t current =
      Unconverged-bind _ _
        (Fails-Returns (λ q. same_purpose q to_check) _
          (run_health_gate-Returns s _ cfg.health_gate refl))
        (λ g. Unconverged-bind _ _ (current_gate-Fails s current g) (λ u.
          Unconverged-bind _ _ (reconcile_boot_role-Fails s cfg t)
            (λ v. Emits-pure _ (λ from to q. cc))))

  ask_provider-Unconverged :
      (t : Target) (bytes ceiling : ℕ) (request : RoleCommand)
      → Unconverged (ask_provider s t bytes ceiling request)
  unfolding ask_provider reimage_verdict
  ask_provider-Unconverged t bytes ceiling request =
      Unconverged-bind _ _ (Fails-or_exit Stage.reimage (λ d. d) _) (λ allowed.
        Unconverged-bind _ _ (Fails-or_exit Stage.reimage (λ d. d) _) (λ found.
          Unconverged-bind _ _ (Fails-Returns nothing _ (report-Returns s nothing _)) (λ told.
            Unconverged-bind _ _
              (Fails-with_error Stage.reimage _ (λ q. same_purpose q to_reimage) _
                (Stays-run_with_arguments _ to_reimage request.command _ refl))
              (λ raw. Emits-pure _ (λ from to q. elim (Bool-cases (succeeded raw)) [
                | inl e ↦ cc (rw e at q)
                | inr e ↦ cc (rw e at q)
              ])))))

  route-Unconverged :
      (t : Target) (bytes ceiling : ℕ) → Unconverged (route_over_ceiling s cfg t bytes ceiling)
  unfolding route_over_ceiling
  route-Unconverged t bytes ceiling = Unconverged-bind _ _ (Emits-measure _ (λ o q. cc)) (λ owes.
      Unconverged-bind _ _ (Emits-ask _ (λ a o q. cc)) (λ now.
        Unconverged-bind _ _
          (Fails-with_error Stage.state _ nothing _
            (persist_reimage_owed-Stays s nothing cfg _ _ _ _ now))
          (λ durable.
            Emits-option cfg.reimage _ _ (λ e. Emits-pure _ (λ from to q. cc))
              (λ request e. ask_provider-Unconverged t bytes ceiling request))))

  -- What is known of a change from one path to another.
  abbrev pub Changes : Text → Text → Result Outcome Outcome → List Event → Type 0
  Changes current target r new =
      (from to : Text)
      → outcome_of r ≡ converged from to
      → (from ≡ current) × (to ≡ target) × ((current == target) ≡ false) × IsChange cfg target new

  pub Changes-bind :
      {A : Type 0} (current target : Text) (m : Exec s.os Outcome A)
      (f : A → Exec s.os Outcome Outcome)
      → Fails m
      → ((a : A) → Emits (f a) (Changes current target))
      → Emits (m >>= f) (Changes current target)
  Changes-bind current target m f hm hf =
      Emits-bind (λ r new. (o : Outcome) → r ≡ err o → is_error o ≡ true) m f hm
        (λ o new h from to q. unconverged o from to (h o refl) q)
        (λ a old h. Emits-weaken _ (f a) (hf a) (λ r new k from to q.
          let c = k from to q in (c.0, c.1, c.2, IsChange-older cfg target new old c.3)))

  become-Changes :
      (target current : Text) (rejected : Option RejectedTargetState)
      → (current == target) ≡ false
      → Emits (become s cfg target current rejected) (Changes current target)
  become-Changes target current rejected d =
      Emits-weaken _ _ (become-Claims s cfg target current rejected) (λ r new k from to q.
        let c = k from to q in
        (
          c.left,
          c.reached,
          d,
          record {
            late = c.late;
            early = c.early;
            before = [];
            order = c.order ∙ ap (λ l. c.late ++ l) (sym (append-nil c.early));
            activation = c.activation;
            gate = c.gate;
          },
        ))

  pub change-Changes :
      (t : Target) (current : Text) (rejected : Option RejectedTargetState)
      → (current == t.store_path) ≡ false
      → Emits (change s cfg t current rejected) (Changes current t.store_path)
  unfolding change within_ceiling
  change-Changes t current rejected d =
      Changes-bind current t.store_path _ _ (size-Fails s t current)
        (λ size. sized_within cfg.max_inplace_delta_bytes size.bytes)
    where
      sized_within :
          (ceiling : Option ℕ) (bytes : ℕ)
          → Emits
              (within_ceiling s cfg t current rejected ceiling bytes)
              (Changes current t.store_path)
      sized_within none bytes = become-Changes t.store_path current rejected d
      sized_within (some limit) bytes =
          Emits-if (exceeds_ceiling bytes (some limit)) _ _
            (λ h.
              Emits-weaken _ _ (route-Unconverged t bytes limit)
                (λ r new k from to q. absurd (k from to q)))
            (λ h. become-Changes t.store_path current rejected d)
