-- ===== src/Receive/Shows.antt =====
-- The activation and the health gate leave the evidence of what they answer.
use mathlib.Core.List.{append-nil, append_assoc}
use nixdeploy_corbet_ch.World.{
  Os, to_activate, to_check, Event, observed, executed, Exec, ◌>>=◌, or_exit, with_error,
}
use nixdeploy_corbet_ch.World.Emits.{
  Emits, Emits-pure, Emits-act, Emits-or_exit, Emits-option, Emits-result, Emits-weaken, Emits-bind,
  Emits-with_error,
}
use nixdeploy_corbet_ch.Command.{
  RawCommandResult, ran, could_not_run, succeeded, ActivationAdapter, attempt_succeeded,
  HealthGateOutcome, passed, split_command,
}
use nixdeploy_corbet_ch.Outcome.{Outcome}
use nixdeploy_corbet_ch.Activate.{
  gate_verdict, run_raw, run_capturing, current_path, activate, gate_command, run_health_gate,
}
use nixdeploy_corbet_ch.Base.{
  Result, ok, err, map_err, ◌≡◌, refl, ap, subst, ◌∙◌, inl, true, false, ◌&&◌, Option, none, some,
  List, [], ◌∷◌, ◌++◌, arith,
}
use nixdeploy_corbet_ch.Text.{Text, ◌==◌}
use nixdeploy_corbet_ch.Text.Laws.{eq_sound}
use nixdeploy_corbet_ch.Receive.Evidence.{
  In, In-prefix, IsObserved, IsDone, Activated, GatePassed, IsDone-append, GatePassed-prefix,
}

activated :
    (adapter : ActivationAdapter) (target path : Text) (raw : RawCommandResult)
    (new seen early : List Event)
    → new ≡ seen ++ early
    → (succeeded raw ≡ true → IsDone to_activate adapter.activate (target ∷ []) early)
    → IsObserved adapter path seen
    → (succeeded raw && path == target) ≡ true
    → Activated adapter target new
activated adapter target path raw new seen early e h o q = (
  seen,
  early,
  e,
  subst (λ t. IsObserved adapter t seen) (eq_sound path target (ground arith)) o,
  h (ground arith),
)

-- One check of the gate passes only if its command succeeded, and is never itself the verdict
-- "passed".
verdict-IsDone :
    (cmd : Text) (c : Text × List Text) (raw : RawCommandResult) (new : List Event)
    → split_command cmd ≡ ok c
    → In (executed to_check c.0 c.1 raw) new
    → (gate_verdict cmd raw ≡ none → IsDone to_check cmd [] new)
      × ¬ (gate_verdict cmd raw ≡ some passed)
unfolding gate_verdict succeeded
verdict-IsDone cmd c (could_not_run e) new h i = (λ q. cc, λ q. cc)
verdict-IsDone cmd c (ran code false) new h i = (λ q. cc, λ q. cc)
verdict-IsDone cmd c (ran code true) new h i = (
  λ q. record {
    bin = c.0;
    args = c.1;
    command = h;
    raw = ran code true;
    success = refl;
    run = rw append-nil i;
  },
  λ q. cc,
)

abbrev pub Shown : {E A : Type 0} → (A → List Event → Type 0) → Result A E → List Event → Type 0
Shown Q (ok a) new = Q a new
Shown Q (err e) new = Unit {0}

-- The computation goes on with a value, and the events say so.
abbrev pub Certain : {E A : Type 0} → (A → List Event → Type 0) → Result A E → List Event → Type 0
Certain Q (ok a) new = Q a new
Certain Q (err e) new = ⊥

-- If the computation goes on with a value, then the events say so.
abbrev pub Shows : {os : Os} {E A : Type 0} → (A → List Event → Type 0) → Exec os E A → Type 1
Shows Q m = Emits m (Shown Q)

module _ {os : Os} {E : Type 0} where
  Shows-bind :
      {A B : Type 0} (Q : A → List Event → Type 0) {R : B → List Event → Type 0} (m : Exec os E A)
      (f : A → Exec os E B)
      → Shows Q m
      → ((a : A) (old : List Event) → Q a old → Emits (f a) (λ r new. Shown R r (new ++ old)))
      → Shows R (m >>= f)
  Shows-bind Q m f hm hf = Emits-bind (Shown Q) m f hm (λ e new h. tt) hf

  Shows-or_exit :
      {A D : Type 0} (f : D → E) (r : Result A D)
      → Shows (λ a new. r ≡ ok a) (or_exit {os = os} f r)
  Shows-or_exit f r = Emits-or_exit f r (λ a e. e) (λ d e. tt)

  Shows-with_error :
      {A D : Type 0} (Q : A → List Event → Type 0) (f : D → E) (m : Exec os D A)
      → Shows Q m
      → Shows Q (with_error f m)
  Shows-with_error {A = A} {D = D} Q f m h =
      Emits-with_error f m (Emits-weaken (Shown Q) m h (λ r new k. carried r new k))
    where
      carried : (r : Result A D) (new : List Event) → Shown Q r new → Shown Q (map_err f r) new
      carried (ok a) new k = k
      carried (err d) new k = tt

module _ {os : Os} where
  pub current_path-Shows :
      (adapter : ActivationAdapter)
      → Shows (λ path new. IsObserved adapter path new) (current_path {os = os} adapter)
  unfolding current_path run_capturing
  current_path-Shows adapter =
      Shows-bind (λ c new. split_command adapter.current_path ≡ ok c) _ _ (Shows-or_exit _ _)
        (λ c old h.
          Emits-bind (Shown (λ k new. In (observed c.0 c.1 k) new)) _ _
            (Emits-act _ _ (λ k. inl refl)) (λ d new k. tt)
            (λ k more i.
              Emits-or_exit _ _
                (λ path e. record {
                  bin = c.0;
                  args = c.1;
                  command = h;
                  captured = k;
                  text = e;
                  seen = In-prefix _ more old i;
                })
                (λ d e. tt)))

  pub activate-Shows :
      (adapter : ActivationAdapter) (target : Text)
      → Shows
          (λ a new. attempt_succeeded a ≡ true → Activated adapter target new)
          (activate {os = os} adapter target)
  unfolding activate run_raw attempt_succeeded
  activate-Shows adapter target =
      Shows-bind (λ c new. split_command adapter.activate ≡ ok c) _ _ (Shows-or_exit _ _)
        (λ c old h.
          Emits-bind (Shown (λ raw new. In (executed to_activate c.0 (c.1 ++ target ∷ []) raw) new))
            _ _ (Emits-act _ _ (λ raw. inl refl)) (λ d new k. tt)
            (λ raw more i.
              Emits-bind (Shown (λ path new. IsObserved adapter path new)) _ _
                (Shows-with_error (λ path new. IsObserved adapter path new) _ _
                  (current_path-Shows adapter))
                (λ d new k. tt)
                (λ path seen o. Emits-pure _ (λ q.
                  activated adapter target path raw _ seen (more ++ old)
                    (append_assoc seen more old)
                    (λ z. record {
                      bin = c.0;
                      args = c.1;
                      command = h;
                      raw = raw;
                      success = z;
                      run = In-prefix _ more old i;
                    })
                    o q))))

  -- The gate always has a verdict.
  pub gate-Shows :
      (cmds : List Text)
      → Emits
          (run_health_gate {os = os} {E = Outcome} cmds)
          (Certain (λ g new. g ≡ passed → GatePassed cmds new))
  unfolding run_health_gate gate_command run_raw
  gate-Shows [] = Emits-pure _ (λ h. tt)
  gate-Shows (cmd ∷ cmds) =
      Emits-bind (Certain Q) _ _
        (Emits-result (split_command cmd) _ _
          (λ c e.
            Emits-bind (Certain (λ raw new. In (executed to_check c.0 c.1 raw) new)) _ _
              (Emits-act _ _ (λ raw. inl refl)) (λ o new k. k)
              (λ raw old i. Emits-pure _ (verdict-IsDone cmd c raw old e i)))
          (λ d e. Emits-pure _ (λ q. cc, λ q. cc)))
        (λ o new k. k)
        (λ v old h.
          Emits-option v _ _
            (λ e.
              Emits-weaken (Certain (λ g new. g ≡ passed → GatePassed cmds new)) _ (gate-Shows cmds)
                (λ r new k. joined r new old (h.0 e) k))
            (λ o e. Emits-pure _ (λ q. absurd (h.1 (e ∙ ap (λ z. some z) q)))))
    where
      Q : Option HealthGateOutcome → List Event → Type 0
      Q v new = (v ≡ none → IsDone to_check cmd [] new) × ¬ (v ≡ some passed)

      joined :
          (r : Result HealthGateOutcome Outcome) (new old : List Event)
          → IsDone to_check cmd [] old
          → Certain (λ g new. g ≡ passed → GatePassed cmds new) r new
          → Certain (λ g new. g ≡ passed → GatePassed (cmd ∷ cmds) new) r (new ++ old)
      joined (ok g) new old h k =
          λ q. (IsDone-append _ _ _ new old h, GatePassed-prefix cmds new old (k q))
      joined (err o) new old h k = k
