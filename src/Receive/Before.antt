-- ===== src/Receive/Before.antt =====
-- The order of a run's effects: the pin before the rollback, the debt and the refusal before the
-- replacement.
use nixdeploy_corbet_ch.World.{Os, Purpose, to_roll_back, to_reimage, Event}
use nixdeploy_corbet_ch.World.Emits.{
  Emits, Emits-pure, Emits-act, Emits-or_exit, Emits-option, Emits-result, Emits-weaken, Emits-bind,
  Emits-with_error, Emits-attempt,
}
use nixdeploy_corbet_ch.Select.{Target}
use nixdeploy_corbet_ch.Receive.{ReceiverConfig, RejectedTargetState, Setting, fail}
use nixdeploy_corbet_ch.Receive.Reimage.{route_over_ceiling}
use nixdeploy_corbet_ch.Receive.Log.{
  same_purpose, within, nothing, guarded, any-append, any-prefix, guarded-append, within-guarded,
  Stays, Stays-bind,
}
use nixdeploy_corbet_ch.Receive.Frame.{
  is_ok, Stays-pure, Stays-ask, Stays-measure, current_path-Stays,
}
use nixdeploy_corbet_ch.Receive.Order.{
  Keeps-Stays, Keeps-pure, Keeps-exit, Never, Ordered, Orders, Ordered-behind, Orders-Quiet,
  Orders-after,
}
use nixdeploy_corbet_ch.Receive.Converge.{not_activated, become, run_with}
use nixdeploy_corbet_ch.Receive.Outcomes.{persist_reimage_owed-Stays}
use nixdeploy_corbet_ch.Receive.Guards.{
  writes_pin, writes_debt, last_is-append, activates, reports_refusal, debt-Leaves,
  reject_and_rollback-Stays, reject_and_rollback-pins, ask_provider-Stays, ask_provider-tells,
}
use nixdeploy_corbet_ch.Base.{
  any, Result, ok, err, ℕ, ◌≡◌, refl, ap, ◌∙◌, inl, inr, Bool, true, false, Option, List, ◌++◌,
}
use nixdeploy_corbet_ch.Text.{Text}
use nixdeploy_corbet_ch.Command.{
  RawCommandResult, ActivationError, prepare, observe, ActivationAdapter, ActivationAttempt,
}
use nixdeploy_corbet_ch.Activate.{run_raw, activate}
use nixdeploy_corbet_ch.Outcome.{Stage, Detail, Outcome}
use nixdeploy_corbet_ch.Receive.Recover.{reject_and_rollback}
use nixdeploy_corbet_ch.Receive.Changed.{not_activated-Orders, after_attempt-Orders, become-Orders}
use nixdeploy_corbet_ch.Receive.Whole.{IsResolved, run_with-Orders}

abbrev only : Purpose → Purpose → Bool
only q p = same_purpose p q

-- The activation command has run, whether or not what it did could be observed.
abbrev fired : Result ActivationAttempt ActivationError → Bool
fired (ok a) = true
fired (err (prepare e)) = false
fired (err (observe raw e)) = true

abbrev Fires : Text → Result ActivationAttempt ActivationError → List Event → Type 0
Fires target r new = Never to_roll_back new × (fired r ≡ true → any (activates target) new ≡ true)

activate-Fires :
    {os : Os} (adapter : ActivationAdapter) (target : Text)
    → Emits (activate {os = os} adapter target) (Fires target)
unfolding activate run_raw guarded
activate-Fires adapter target =
    Emits-bind First _ _ (Emits-or_exit _ _ (λ c e. refl) (λ d e. (refl, λ q. cc))) (λ e new h. h)
      (λ c old h.
        Emits-bind Second _ _ (Emits-act _ _ (λ raw. (refl, rw (last_is-append target c.1) refl)))
          (λ e new k. absurd k)
          (λ raw more k.
            Emits-bind (λ r new. Never to_roll_back new) _ _
              (Emits-with_error _ _ (
                Emits-weaken _ _ (current_path-Stays nothing adapter)
                  (λ r new l. within-guarded nothing to_roll_back (λ x. false) new refl l)))
              (λ e new l. behind new more old l k h)
              (λ path new l. Emits-pure _ (behind new more old l k h))))
  where
    First : Result (Text × List Text) ActivationError → List Event → Type 0
    First (ok c) new = Never to_roll_back new
    First (err e) new = Fires target (err e) new

    Second : Result RawCommandResult ActivationError → List Event → Type 0
    Second (ok raw) new = Never to_roll_back new × (any (activates target) new ≡ true)
    Second (err e) new = ⊥

    behind :
        {F : Type 0} (new more old : List Event)
        → Never to_roll_back new
        → Never to_roll_back more × (any (activates target) more ≡ true)
        → Never to_roll_back old
        → Never to_roll_back (new ++ more ++ old)
          × (F → any (activates target) (new ++ more ++ old) ≡ true)
    behind new more old l k h = (
      guarded-append to_roll_back (λ e. false) (new ++ more) old
          (guarded-append to_roll_back (λ e. false) new more l k.0) h,
      λ q.
          any-prefix (activates target) (new ++ more) old
            (any-append (activates target) new more k.1),
    )

module _ (s : Setting) (cfg : ReceiverConfig) where
  route-Stays :
      (t : Target) (bytes ceiling : ℕ)
      → Stays (only to_reimage) (route_over_ceiling s cfg t bytes ceiling)
  unfolding route_over_ceiling
  route-Stays t bytes ceiling = Stays-bind _ _ _ (Stays-measure _ _) (λ owes.
      Stays-bind _ _ _ (Stays-ask _ _) (λ now.
        Stays-bind _ _ _
          (Emits-with_error _ _ (
            Emits-weaken _ _ (persist_reimage_owed-Stays s (only to_reimage) cfg _ _ _ _ now)
              (λ r new k. k)))
          (λ durable.
            Emits-option cfg.reimage _ _ (λ e. Stays-pure _ _)
              (λ request e. ask_provider-Stays s t bytes ceiling request))))

  become-pins :
      (target current : Text) (rejected : Option RejectedTargetState)
      → Orders to_roll_back
          (writes_pin s cfg target)
          (λ now. activates target)
          (become s cfg target current rejected)
  unfolding become not_activated fail
  become-pins target current rejected =
      Emits-bind Tried _ _
        (Emits-attempt _ (Emits-weaken _ _ (activate-Fires cfg.activation target) (λ r new k. k)))
        (λ o new h. absurd h)
        (λ tried old h.
          Emits-result tried _ _
            (λ a e.
              Emits-weaken _ _
                (after_attempt-Orders s to_roll_back pins pins cfg target current refl rolled
                  rejected a)
                (λ r new k. behind new old h.0 (h.1 (ap fired e)) k))
            (λ d e. not_run d old h.0 (λ q. h.1 (ap fired e ∙ q))))
    where
      pins : ℕ → Event → Bool
      pins = writes_pin s cfg target

      rolled :
          (at_stage : Stage) (d : Detail)
          → Orders to_roll_back pins pins (reject_and_rollback s cfg target current at_stage d)
      rolled at_stage d = reject_and_rollback-pins s cfg target current at_stage d

      Tried : Result (Result ActivationAttempt ActivationError) Outcome → List Event → Type 0
      Tried (ok t) new = Fires target t new
      Tried (err o) new = ⊥

      behind :
          (new old : List Event)
          → Never to_roll_back old
          → any (activates target) old ≡ true
          → Ordered to_roll_back pins pins new
          → Ordered to_roll_back pins (λ now. activates target) (new ++ old)
      behind new old n h (inl k) = inl (guarded-append _ _ new old k n)
      behind new old n h (inr (now, f, g)) =
          Ordered-behind to_roll_back pins (λ now. activates target) now new old n h f

      not_run :
          (d : ActivationError) (old : List Event)
          → Never to_roll_back old
          → (fired (err d) ≡ true → any (activates target) old ≡ true)
          → Emits
              (not_activated s cfg target current d)
              (λ r new. Ordered to_roll_back pins (λ now. activates target) (new ++ old))
      not_run (prepare e) old n h =
          Emits-weaken _ _ (Keeps-exit to_roll_back _ _)
            (λ r new k. inl (guarded-append _ _ new old k n))
      not_run (observe raw e) old n h =
          Emits-weaken _ _
            (not_activated-Orders s to_roll_back pins pins cfg target current refl rolled
              (observe raw e))
            (λ r new k. behind new old n (h refl) k)

  route-Orders :
      (t : Target) (bytes ceiling : ℕ)
      → Orders to_reimage
          (λ (now : ℕ). reports_refusal)
          (λ now. writes_debt s cfg t now)
          (route_over_ceiling s cfg t bytes ceiling)
  unfolding route_over_ceiling
  route-Orders t bytes ceiling =
      Orders-after _ _ _ _ _ (Keeps-Stays _ _ nothing _ refl (Stays-measure nothing _)) (λ owes.
        Orders-after _ _ _ _ _ (Keeps-Stays _ _ nothing _ refl (Stays-ask nothing _)) (λ now.
          Emits-bind
            (λ r new.
              (within nothing new ≡ true)
              × (is_ok r ≡ true → any (writes_debt s cfg t now) new ≡ true))
            _ _ (debt-Leaves s cfg t now _)
            (λ o new h. inl (within-guarded nothing to_reimage _ new refl h.0))
            (λ durable old h.
              Emits-weaken (λ r new. guarded to_reimage reports_refusal new ≡ true) _
                (Emits-option cfg.reimage _ _ (λ e. Keeps-pure _ _ _)
                  (λ request e. ask_provider-tells s t bytes ceiling request))
                (λ r new k.
                  Ordered-behind to_reimage (λ (i : ℕ). reports_refusal)
                    (λ i. writes_debt s cfg t i) now new old
                    (within-guarded nothing to_reimage _ old refl h.0) (h.1 refl) k))))

  -- A target that the run resolves, and a time.
  abbrev pub Moment : Type 0
  Moment = (t : Target) × IsResolved s cfg t × ℕ

  -- A run that starts a rollback has before that run the activation command with a target that it
  -- resolved, and tried to write the pin of that target.
  pub run_with-pins : Emits (run_with s (ok cfg)) (λ r new.
      Ordered {I = Moment} to_roll_back
        (λ i. writes_pin s cfg i.0.store_path i.2)
        (λ i. activates i.0.store_path)
        new)
  run_with-pins =
      run_with-Orders s to_roll_back (λ (i : Moment). writes_pin s cfg i.0.store_path i.2)
        (λ i. activates i.0.store_path) cfg refl refl
        (λ t known current rejected.
          Emits-weaken _ _ (become-pins t.store_path current rejected)
            (λ r new k. elim k [ inl n ↦ inl n | inr q ↦ inr ((t, known, q.0), q.1, q.2) ]))
        (λ t known bytes ceiling.
          Orders-Quiet _ _ _ _
            (Keeps-Stays _ _ (only to_reimage) _ refl (route-Stays t bytes ceiling)))

  -- A run that asks for its machine's replacement has before that durably written the debt to a target
  -- that it resolved, and reported the refusal.
  pub run_with-owes : Emits (run_with s (ok cfg)) (λ r new.
      Ordered {I = Moment} to_reimage (λ i. reports_refusal) (λ i. writes_debt s cfg i.0 i.2) new)
  run_with-owes =
      run_with-Orders s to_reimage (λ (i : Moment). reports_refusal)
        (λ i. writes_debt s cfg i.0 i.2) cfg refl refl
        (λ t known current rejected.
          become-Orders s to_reimage (λ (i : Moment). reports_refusal)
            (λ i. writes_debt s cfg i.0 i.2) cfg t.store_path current refl
            (λ at_stage d. Orders-Quiet _ _ _ _ (
              Keeps-Stays _ _ (only to_roll_back) _ refl
                (reject_and_rollback-Stays s cfg t.store_path current at_stage d)))
            rejected refl)
        (λ t known bytes ceiling.
          Emits-weaken _ _ (route-Orders t bytes ceiling)
            (λ r new k. elim k [ inl n ↦ inl n | inr q ↦ inr ((t, known, q.0), q.1, q.2) ]))
