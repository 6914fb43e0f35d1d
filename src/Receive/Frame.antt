-- ===== src/Receive/Frame.antt =====
-- Which commands each part of a run may run: the rest of src/receive.rs runs none of them.
use nixdeploy_corbet_ch.World.{
  FilePath, Os, Purpose, Event, wrote, Measured, Exec, ◌>>=◌, pure, exit, act, ask, measure,
  measured_now, or_exit,
}
use nixdeploy_corbet_ch.World.Emits.{
  Emits, Emits-pure, Emits-exit, Emits-act, Emits-ask, Emits-measure, Emits-measured_now,
  Emits-or_exit, Emits-weaken, Emits-bind, Emits-note, Emits-attempt,
}
use nixdeploy_corbet_ch.AtomicFile.{temp_path, succeeds, call, write_steps, clean_up, write_atomic}
use nixdeploy_corbet_ch.Command.{ActivationAdapter}
use nixdeploy_corbet_ch.Activate.{run_raw, run_capturing, current_path, run_with_arguments}
use nixdeploy_corbet_ch.Receive.Log.{within, within-append, Stays, Stays-bind}
use nixdeploy_corbet_ch.Base.{
  any, Result, ok, err, ℕ, ◌≡◌, refl, ◌∙◌, Bool, true, false, List, [], ◌∷◌, ◌++◌,
}
use nixdeploy_corbet_ch.Text.{Text}

abbrev pub is_ok : {E A : Type 0} → Result A E → Bool
is_ok (ok a) = true
is_ok (err e) = false

-- A computation that does not return early, and runs commands for allowed purposes only.
abbrev pub Returns : {os : Os} {E A : Type 0} → (Purpose → Bool) → Exec os E A → Type 1
Returns allows m = Emits m (λ r new. (is_ok r ≡ true) × (within allows new ≡ true))

module _ {os : Os} {E : Type 0} (allows : Purpose → Bool) where
  pub Stays-pure : {A : Type 0} (a : A) → Stays allows (pure {os = os} {E = E} a)
  unfolding within
  Stays-pure a = Emits-pure a refl

  pub Stays-exit : {A : Type 0} (e : E) → Stays allows (exit {os = os} {A = A} e)
  unfolding within
  Stays-exit e = Emits-exit e refl

  pub Stays-ask : {A : Type 0} (f : os.Machine → A) → Stays allows (ask {os = os} {E = E} f)
  unfolding within
  Stays-ask f = Emits-ask f (λ a. refl)

  pub Stays-or_exit :
      {A D : Type 0} (f : D → E) (r : Result A D) → Stays allows (or_exit {os = os} f r)
  unfolding within
  Stays-or_exit f r = Emits-or_exit f r (λ a h. refl) (λ d h. refl)

  pub Stays-measure : (f : Measured → Measured) → Stays allows (measure {os = os} {E = E} f)
  unfolding within
  Stays-measure f = Emits-measure f refl

  pub Stays-measured_now : Stays allows (measured_now {os = os} {E = E})
  unfolding within
  Stays-measured_now = Emits-measured_now (λ m. refl)

  pub Stays-act :
      {A : Type 0} (op : os.Machine → A × os.Machine) (event : A → List Event)
      → ((a : A) → within allows (event a) ≡ true)
      → Stays allows (act {os = os} {E = E} op event)
  Stays-act op event h = Emits-act op event h

  pub Stays-run_raw :
      (purpose : Purpose) (bin : Text) (args : List Text)
      → allows purpose ≡ true
      → Stays allows (run_raw {os = os} {E = E} purpose bin args)
  unfolding run_raw within
  Stays-run_raw purpose bin args h = Stays-act _ _ (λ r. rw h)

module _ {os : Os} where
  pub Stays-run_with_arguments :
      (allows : Purpose → Bool) (purpose : Purpose) (cmd : Text) (arguments : List Text)
      → allows purpose ≡ true
      → Stays allows (run_with_arguments {os = os} purpose cmd arguments)
  unfolding run_with_arguments
  Stays-run_with_arguments allows purpose cmd arguments h =
      Stays-bind allows _ _ (Stays-or_exit allows _ _)
        (λ c. Stays-run_raw allows purpose c.0 (c.1 ++ arguments) h)

  pub current_path-Stays :
      (allows : Purpose → Bool) (adapter : ActivationAdapter)
      → Stays allows (current_path {os = os} adapter)
  unfolding current_path run_capturing within
  current_path-Stays allows adapter = Stays-bind allows _ _ (Stays-or_exit allows _ _) (λ c.
      Stays-bind allows _ _ (Stays-act allows _ _ (λ a. refl)) (λ t. Stays-or_exit allows _ _))

  pub Stays-call :
      {A : Type 0} (allows : Purpose → Bool) (op : os.Machine → Result A Text × os.Machine)
      → Stays allows (call {os = os} op)
  unfolding call within
  Stays-call allows op =
      Stays-bind allows _ _ (Stays-act allows _ _ (λ a. refl)) (λ r. Stays-or_exit allows _ r)

  -- Cleaning up never returns early.
  clean_up-Returns :
      (allows : Purpose → Bool) (tmp : FilePath) (r : Result (Unit {0}) Text)
      → Emits (clean_up {os = os} tmp r) (λ q new. (is_ok q ≡ true) × (within allows new ≡ true))
  unfolding clean_up within
  clean_up-Returns allows tmp (ok a) = Emits-pure tt (refl, refl)
  clean_up-Returns allows tmp (err e) =
      Emits-bind (λ q new. (is_ok q ≡ true) × (within allows new ≡ true)) _ _
        (Emits-act _ _ (λ a. (refl, refl))) (λ e new h. h) (λ a old h. Emits-pure tt (refl, h.1))

  pub Stays-write_steps :
      (allows : Purpose → Bool) (tmp path : FilePath) (bytes : List ℕ) (mode : ℕ)
      → Stays allows (write_steps {os = os} tmp path bytes mode)
  unfolding write_steps
  Stays-write_steps allows tmp path bytes mode = Stays-bind allows _ _ (Stays-call allows _) (λ a.
      Stays-bind allows _ _ (Stays-call allows _) (λ b.
        Stays-bind allows _ _ (Stays-call allows _)
          (λ c. Stays-bind allows _ _ (Stays-call allows _) (λ d. Stays-call allows _))))

  -- An atomic write logs itself last, with whether it was done.
  pub write_atomic-writes :
      (allows : Purpose → Bool) (path : FilePath) (bytes : List ℕ) (mode : ℕ)
      → Emits (write_atomic {os = os} path bytes mode) (λ r new.
        (within allows new ≡ true)
        × ((test : Event → Bool)
            → test (wrote path bytes (succeeds r)) ≡ true
            → any test new ≡ true))
  unfolding write_atomic within
  write_atomic-writes allows path bytes mode =
      let tmp = temp_path os.process_id path in
      Emits-bind (λ q new. (is_ok q ≡ true) × (within allows new ≡ true)) _ _
        (Emits-attempt _ (
          Emits-weaken (λ q new. within allows new ≡ true) _
            (Stays-write_steps allows tmp path bytes mode) (λ q new h. (refl, h))))
        (λ e new h. cc (h.0))
        (λ r old h.
          Emits-bind (λ q new. (is_ok q ≡ true) × (within allows new ≡ true)) _ _
            (clean_up-Returns allows tmp r) (λ e new k. cc (k.0))
            (λ u cleaned k.
              Emits-bind (λ q new. (is_ok q ≡ true) × (new ≡ wrote path bytes (succeeds r) ∷ [])) _
                _ (Emits-note _ (refl, refl)) (λ e new l. cc (l.0))
                (λ v noted l.
                  let clean : within allows (noted ++ cleaned ++ old) ≡ true =
                    rw l.1 (rw (within-append allows cleaned old, k.1, h.1)) in
                  Emits-or_exit _ r (λ a e. (clean, λ test q. rw (l.1, e, q)))
                    (λ d e. (clean, λ test q. rw (l.1, e, q))))))

module _ {os : Os} {E : Type 0} where
  pub Returns-bind :
      {A B : Type 0} (allows : Purpose → Bool) (m : Exec os E A) (f : A → Exec os E B)
      → Returns allows m
      → ((a : A) → Returns allows (f a))
      → Returns allows (m >>= f)
  Returns-bind allows m f hm hf =
      Emits-bind (λ r new. (is_ok r ≡ true) × (within allows new ≡ true)) m f hm (λ e new h. h)
        (λ a old h.
          Emits-weaken (λ r new. (is_ok r ≡ true) × (within allows new ≡ true)) (f a) (hf a)
            (λ r new k. (k.0, within-append allows new old ∙ rw (h.1, k.1))))
