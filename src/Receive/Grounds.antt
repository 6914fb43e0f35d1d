-- ===== src/Receive/Grounds.antt =====
-- What a run of src/receive.rs rests on when it says that it converged.
use nixdeploy_corbet_ch.Activate.{current_path}
use nixdeploy_corbet_ch.Base.{
  Result, ok, err, map_err, ◌≡◌, refl, sym, ap, subst, ◌∙◌, true, false, List, ◌++◌,
}
use nixdeploy_corbet_ch.Command.{AdapterError}
use nixdeploy_corbet_ch.Outcome.{Stage, current_path_unread, Outcome, converged, failed, is_error}
use nixdeploy_corbet_ch.Receive.{ReceiverConfig, Setting}
use nixdeploy_corbet_ch.Receive.Converge.{
  outcome_of, converge, settle_debt, run_configured, run_with,
}
use nixdeploy_corbet_ch.Receive.Evidence.{
  In-append, IsObserved, Activated, GatePassed, IsObserved-prefix, GatePassed-append,
}
use nixdeploy_corbet_ch.Receive.Failing.{
  Fails, Fails-with_error, Fails-Returns, resolve-Fails, refuse_pinned-Fails,
}
use nixdeploy_corbet_ch.Receive.Frame.{is_ok}
use nixdeploy_corbet_ch.Receive.Log.{within, nothing}
use nixdeploy_corbet_ch.Receive.Reached.{
  IsChange, regroup, unconverged, stay_current-Unconverged, Changes, Changes-bind, change-Changes,
}
use nixdeploy_corbet_ch.Receive.Reimage.{report}
use nixdeploy_corbet_ch.Receive.Resolve.{resolve}
use nixdeploy_corbet_ch.Receive.Shows.{Shown, current_path-Shows}
use nixdeploy_corbet_ch.Receive.Silent.{
  load_rejected_target-Stays, load_reimage_owed-Stays, report-Returns, settle_debt-Returns,
}
use nixdeploy_corbet_ch.Receive.Whole.{IsResolved}
use nixdeploy_corbet_ch.Select.{Target}
use nixdeploy_corbet_ch.Text.{Text, ◌==◌}
use nixdeploy_corbet_ch.World.{Event, World, Exec, ◌>>=◌, pure, with_error}
use nixdeploy_corbet_ch.World.Emits.{
  Emits, Emits-pure, Emits-measure, Emits-if, Emits-result, Emits-weaken, Emits-bind,
  Emits-with_error, Emits-attempt,
}
use nixdeploy_corbet_ch.Receive.Permits.{attempt-Returns}
use mathlib.Core.List.{append_assoc}

-- In the order of the events: currentPath named the path that the run left, another one than the target
-- that it resolved; the activation command was run with the target, after which currentPath named it;
-- and then the health gate passed.
pub record IsReached (s : Setting) (cfg : ReceiverConfig) (from to : Text) (new : List Event)
    : Type 0 where
  pub resolved : (t : Target) × IsResolved s cfg t × (t.store_path ≡ to)
  pub differs : (from == to) ≡ false
  pub late : List Event
  pub early : List Event
  pub before : List Event
  pub order : new ≡ late ++ (early ++ before)
  pub start : IsObserved cfg.activation from before
  pub activation : Activated cfg.activation to early
  pub gate : GatePassed cfg.health_gate late

IsReached-older :
    (s : Setting) (cfg : ReceiverConfig) (from to : Text) (new old : List Event)
    → IsReached s cfg from to new
    → IsReached s cfg from to (new ++ old)
IsReached-older s cfg from to new old h = record {
  resolved = h.resolved;
  differs = h.differs;
  late = h.late;
  early = h.early;
  before = h.before ++ old;
  order = regroup h.late h.early h.before new old h.order;
  start = IsObserved-prefix cfg.activation from h.before old h.start;
  activation = h.activation;
  gate = h.gate;
}

IsReached-newer :
    (s : Setting) (cfg : ReceiverConfig) (from to : Text) (new old : List Event)
    → IsReached s cfg from to old
    → IsReached s cfg from to (new ++ old)
IsReached-newer s cfg from to new old h = record {
  resolved = h.resolved;
  differs = h.differs;
  late = new ++ h.late;
  early = h.early;
  before = h.before;
  order = ap (λ l. new ++ l) h.order ∙ sym (append_assoc new h.late (h.early ++ h.before));
  start = h.start;
  activation = h.activation;
  gate = GatePassed-append cfg.health_gate new h.late h.gate;
}

module _ (s : Setting) (cfg : ReceiverConfig) where
  reached :
      (t : Target) (current from to : Text) (new seen : List Event)
      → IsResolved s cfg t
      → IsObserved cfg.activation current seen
      → (from ≡ current)
        × (to ≡ t.store_path)
        × ((current == t.store_path) ≡ false)
        × IsChange cfg t.store_path new
      → IsReached s cfg from to (new ++ seen)
  reached t current from to new seen known o (left, gone, differ, c) = record {
    resolved = (t, known, sym gone);
    differs = rw (left, gone) differ;
    late = c.late;
    early = c.early;
    before = c.before ++ seen;
    order = regroup c.late c.early c.before new seen c.order;
    start =
        subst (λ x. IsObserved cfg.activation x (c.before ++ seen)) (sym left)
          (record {
            bin = o.bin;
            args = o.args;
            command = o.command;
            captured = o.captured;
            text = o.text;
            seen = In-append _ c.before seen o.seen;
          });
    activation = subst (λ x. Activated cfg.activation x c.early) (sym gone) c.activation;
    gate = c.gate;
  }

  abbrev pub Reaches : Result Outcome Outcome → List Event → Type 0
  Reaches r new = (from to : Text) → outcome_of r ≡ converged from to → IsReached s cfg from to new

  Reaches-bind :
      {A : Type 0} (m : Exec s.os Outcome A) (f : A → Exec s.os Outcome Outcome)
      → Fails m
      → ((a : A) → Emits (f a) Reaches)
      → Emits (m >>= f) Reaches
  Reaches-bind m f hm hf =
      Emits-bind (λ r new. (o : Outcome) → r ≡ err o → is_error o ≡ true) m f hm
        (λ o new h from to q. unconverged o from to (h o refl) q)
        (λ a old h.
          Emits-weaken _ (f a) (hf a)
            (λ r new k from to q. IsReached-older s cfg from to new old (k from to q)))

  Named : Result Text Outcome → List Event → Type 0
  Named (ok path) new = IsObserved cfg.activation path new
  Named (err o) new = is_error o ≡ true

  current_path-Named :
      Emits
        (with_error
          (λ e. failed Stage.activate (current_path_unread e))
          (current_path {os = s.os} cfg.activation))
        Named
  unfolding Named is_error
  current_path-Named =
      Emits-with_error _ _
        (Emits-weaken _ _ (current_path-Shows cfg.activation) (λ r new k. carried r new k))
    where
      carried :
          (r : Result Text AdapterError) (new : List Event)
          → Shown (λ path new. IsObserved cfg.activation path new) r new
          → Named (map_err (λ e. failed Stage.activate (current_path_unread e)) r) new
      carried (ok path) new k = k
      carried (err e) new k = refl

  converge-Reaches : Emits (converge s cfg) Reaches
  unfolding converge Named
  converge-Reaches =
      Emits-bind Resolves _ _ resolves (λ o new h from to q. unconverged o from to (h.0 o refl) q)
        (λ t old h.
          Emits-bind Named _ _ current_path-Named (λ o new k from to q. unconverged o from to k q)
            (λ current seen o.
              Emits-weaken (Changes s cfg current t.store_path) _
                (Changes-bind s cfg current t.store_path _ _
                  (Fails-with_error Stage.state _ nothing _
                    (load_rejected_target-Stays s nothing cfg))
                  (λ rejected.
                    Changes-bind s cfg current t.store_path _ _
                      (refuse_pinned-Fails s current t rejected)
                      (λ allowed.
                        Emits-if (current == t.store_path) _ _
                          (λ e.
                            Emits-weaken _ _ (stay_current-Unconverged s cfg t current)
                              (λ r new k from to q. absurd (k from to q)))
                          (λ e. change-Changes s cfg t current rejected e))))
                (λ r new k from to q.
                  IsReached-older s cfg from to (new ++ seen) old
                    (reached t current from to new seen h.1 o (k from to q)))))
    where
      Resolves : Result Target Outcome → List Event → Type 0
      Resolves r new =
          ((o : Outcome) → r ≡ err o → is_error o ≡ true)
          × ((w : World s.os) × ((resolve s cfg w).0 ≡ r))

      resolves : Emits (resolve s cfg) Resolves
      resolves = record {
        at = λ w. let (new, e, q) = (resolve-Fails s cfg).at w in (new, e, (q, (w, refl)));
      }

  pub run_with-Reaches : Emits (run_with s (ok cfg)) Reaches
  unfolding run_with run_configured
  run_with-Reaches =
      Reaches-bind _ _
        (Fails-Returns nothing _
          (attempt-Returns nothing _ (load_reimage_owed-Stays s nothing cfg)))
        (λ loaded.
          Emits-result loaded _ _
            (λ owed e. Reaches-bind _ _ (Emits-measure _ (λ o q. cc)) (λ begun.
              Emits-bind Tried _ _
                (Emits-attempt _ (Emits-weaken _ _ converge-Reaches (λ r new k. k)))
                (λ o new k. absurd k)
                (λ result old k.
                  Emits-weaken (λ r new. r ≡ ok (outcome_of result)) _ (finish_run result)
                    (λ r new e from to q.
                      IsReached-newer s cfg from to new old
                        (k from to (sym (ap outcome_of e) ∙ q))))))
            (λ d e. Reaches-bind _ _ (Emits-measure _ (λ o q. cc)) (λ begun.
              Reaches-bind _ _ (Fails-Returns nothing _ (report-Returns s nothing _))
                (λ told. Emits-pure _ (λ from to q. cc)))))
    where
      Tried : Result (Result Outcome Outcome) Outcome → List Event → Type 0
      Tried (ok r) new = Reaches r new
      Tried (err o) new = ⊥

      finish_run :
          (result : Result Outcome Outcome)
          → Emits
              (settle_debt s cfg (outcome_of result) >>= λ a.
                report s (outcome_of result) >>= λ b. pure (outcome_of result))
              (λ r new. r ≡ ok (outcome_of result))
      finish_run result =
          Emits-bind (λ r new. (is_ok r ≡ true) × (within nothing new ≡ true)) _ _
            (settle_debt-Returns s nothing cfg (outcome_of result)) (λ o new k. cc (k.0))
            (λ a old h.
              Emits-bind (λ r new. (is_ok r ≡ true) × (within nothing new ≡ true)) _ _
                (report-Returns s nothing (outcome_of result)) (λ o new k. cc (k.0))
                (λ b told k. Emits-pure _ refl))
