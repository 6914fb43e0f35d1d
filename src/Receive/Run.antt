-- ===== src/Receive/Run.antt =====
-- What the log of a run says, when the run starts with an empty one.
use mathlib.Core.List.{append-nil}
use nixdeploy_corbet_ch.Outcome.{converged}
use nixdeploy_corbet_ch.Receive.{ReceiverConfig, Setting}
use nixdeploy_corbet_ch.Receive.Converge.{outcome_of, run_with}
use nixdeploy_corbet_ch.Receive.Guards.{writes_pin, writes_debt, activates, reports_refusal}
use nixdeploy_corbet_ch.Receive.Log.{within}
use nixdeploy_corbet_ch.Receive.Grounds.{IsReached, run_with-Reaches}
use nixdeploy_corbet_ch.Receive.Order.{Ordered}
use nixdeploy_corbet_ch.Receive.Outcomes.{run_with-Fits}
use nixdeploy_corbet_ch.Receive.Permits.{permits}
use nixdeploy_corbet_ch.World.{Os, to_roll_back, to_reimage, Event, World, Exec}
use nixdeploy_corbet_ch.World.Emits.{Emits, Emits-weaken}
use nixdeploy_corbet_ch.Receive.Before.{Moment, run_with-pins, run_with-owes}
use nixdeploy_corbet_ch.Base.{Result, ok, ◌≡◌, sym, ap, subst, ◌∙◌, true, List, [], ◌++◌}
use nixdeploy_corbet_ch.Text.{Text}

at_start :
    {os : Os} {E A : Type 0} (Q : Result A E → List Event → Type 0) (m : Exec os E A)
    → Emits m Q
    → (w : World os) → w.events ≡ []
    → Q (m w).0 (m w).1.events
at_start Q m h w e =
    let (new, eq, q) = h.at w in
    subst (λ es. Q (m w).0 es) (sym (eq ∙ ap (λ l. new ++ l) e ∙ append-nil new)) q

-- Every command that a run executes is one that its outcome permits. Converged: activations and health
-- checks. Already current: checks and the reconciliation of the boot role. Replacement asked for: that
-- command alone. Refused: none. Failed, by what the failure tells: none before the change, that is while
-- reading the configuration, the manifest, the current path or the state, on a pinned or an incompatible
-- target, or while sizing; checks alone when the gate fails on the current path; checks and the
-- reconciliation when that fails; the activation alone when that fails; also checks when these or the
-- clearing of the pin fail after it; also the rollback if one followed such a failure; and the
-- replacement command alone when that fails.
pub run_with-permits :
    (s : Setting) (loaded : Result ReceiverConfig Text) (w : World s.os)
    → w.events ≡ []
    → within (permits (outcome_of (run_with s loaded w).0)) (run_with s loaded w).1.events ≡ true
run_with-permits s loaded w e =
    at_start (λ r new. within (permits (outcome_of r)) new ≡ true) (run_with s loaded)
      (run_with-Fits s loaded) w e

-- A run either asks for no replacement of its machine, or each time it has before that durably written
-- the debt to a target that it resolved: for its plane and the role that is asked for, with the signed
-- artifact and image of that role; and it has reported the refusal.
pub run_with-debt_first :
    (s : Setting) (cfg : ReceiverConfig) (w : World s.os)
    → w.events ≡ []
    → Ordered {I = Moment s cfg} to_reimage
        (λ i. reports_refusal)
        (λ i. writes_debt s cfg i.0 i.2)
        (run_with s (ok cfg) w).1.events
run_with-debt_first s cfg w e =
    at_start
      (λ r new.
        Ordered {I = Moment s cfg} to_reimage (λ i. reports_refusal)
          (λ i. writes_debt s cfg i.0 i.2) new)
      (run_with s (ok cfg)) (run_with-owes s cfg) w e

-- A run either starts no rollback, or each time it has before that run the activation command with a
-- target that it resolved, and tried to write the pin of just that target for its plane.
pub run_with-pin_first :
    (s : Setting) (cfg : ReceiverConfig) (w : World s.os)
    → w.events ≡ []
    → Ordered {I = Moment s cfg} to_roll_back
        (λ i. writes_pin s cfg i.0.store_path i.2)
        (λ i. activates i.0.store_path)
        (run_with s (ok cfg) w).1.events
run_with-pin_first s cfg w e =
    at_start
      (λ r new.
        Ordered {I = Moment s cfg} to_roll_back (λ i. writes_pin s cfg i.0.store_path i.2)
          (λ i. activates i.0.store_path) new)
      (run_with s (ok cfg)) (run_with-pins s cfg) w e

-- A run that answers "converged" from a path to another rests on what its log shows, in this order:
-- currentPath named the first path; the activation command was run with the second, the target that the
-- run resolved and another path than the first, and succeeded, after which currentPath named it; and
-- then each command of the health gate succeeded.
pub run_with-IsReached :
    (s : Setting) (cfg : ReceiverConfig) (w : World s.os) (from to : Text)
    → w.events ≡ []
    → outcome_of (run_with s (ok cfg) w).0 ≡ converged from to
    → IsReached s cfg from to (run_with s (ok cfg) w).1.events
run_with-IsReached s cfg w from to e =
    at_start (λ r new. outcome_of r ≡ converged from to → IsReached s cfg from to new)
      (run_with s (ok cfg)) (Emits-weaken _ _ (run_with-Reaches s cfg) (λ r new k. k from to)) w e
