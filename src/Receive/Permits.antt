-- ===== src/Receive/Permits.antt =====
-- Which commands stand behind which outcome.
use nixdeploy_corbet_ch.World.{
  Os, Purpose, to_activate, to_roll_back, to_check, to_reconcile, to_reimage, Event, Exec, ◌>>=◌,
  pure, with_error, attempt,
}
use nixdeploy_corbet_ch.World.Emits.{
  Emits, Emits-pure, Emits-exit, Emits-weaken, Emits-bind, Emits-with_error, Emits-attempt,
}
use nixdeploy_corbet_ch.Outcome.{
  Stage, Detail, gate_unavailable_current, gate_failed_current, no_boot_authority, no_boot_artifact,
  reconciler_not_run, reconciler_failed, observation_failed, activate_not_run,
  activation_incomplete, pin_not_cleared, gate_unavailable_after, gate_failed_after, rolled_back,
  rolled_back_unpinned, rollback_incomplete, rollback_missing, rollback_not_run, reimage_not_run,
  reimage_rejected, Outcome, converged, already_current, refused, reimaged, failed,
}
use nixdeploy_corbet_ch.Receive.{fail}
use nixdeploy_corbet_ch.Receive.Converge.{outcome_of}
use nixdeploy_corbet_ch.Receive.Log.{
  same_purpose, within, nothing, within-append, within_mono, Stays,
}
use nixdeploy_corbet_ch.Receive.Frame.{is_ok, Returns}
use nixdeploy_corbet_ch.Base.{
  Result, ok, err, map_err, ◌≡◌, refl, ◌∙◌, Bool, true, false, ◌||◌, List, arith,
}

-- The commands that a run may have run when it ends with this failure: none for one from before the
-- change.
unfoldable pub detail_permits : Detail → Purpose → Bool
detail_permits (gate_unavailable_current cmd current e) p = same_purpose p to_check
detail_permits (gate_failed_current cmd current raw) p = same_purpose p to_check
detail_permits (no_boot_authority role) p = same_purpose p to_check || same_purpose p to_reconcile
detail_permits (no_boot_artifact role) p = same_purpose p to_check || same_purpose p to_reconcile
detail_permits (reconciler_not_run role e) p =
    same_purpose p to_check || same_purpose p to_reconcile
detail_permits (reconciler_failed role raw artifact) p =
    same_purpose p to_check || same_purpose p to_reconcile
detail_permits (activate_not_run e) p = same_purpose p to_activate
detail_permits (observation_failed raw e) p = same_purpose p to_activate
detail_permits (activation_incomplete raw path target) p = same_purpose p to_activate
detail_permits (gate_unavailable_after cmd e target) p =
    same_purpose p to_activate || same_purpose p to_check
detail_permits (gate_failed_after cmd raw) p = same_purpose p to_activate || same_purpose p to_check
detail_permits (pin_not_cleared current target e) p =
    same_purpose p to_activate || same_purpose p to_check
detail_permits (rolled_back d rb target) p = detail_permits d p || same_purpose p to_roll_back
detail_permits (rolled_back_unpinned d rb target e) p =
    detail_permits d p || same_purpose p to_roll_back
detail_permits (rollback_incomplete d rb previous e) p =
    detail_permits d p || same_purpose p to_roll_back
detail_permits (rollback_missing d target e) p = detail_permits d p || same_purpose p to_roll_back
detail_permits (rollback_not_run d a e) p = detail_permits d p || same_purpose p to_roll_back
detail_permits (reimage_not_run bytes ceiling e) p = same_purpose p to_reimage
detail_permits (reimage_rejected bytes ceiling raw) p = same_purpose p to_reimage
detail_permits d p = false

-- The commands that a run with this outcome may have run.
abbrev pub permits : Outcome → Purpose → Bool
permits (converged from to) p = same_purpose p to_activate || same_purpose p to_check
permits (already_current rev) p = same_purpose p to_check || same_purpose p to_reconcile
permits (refused reason bytes ceiling) p = false
permits (reimaged role artifact image) p = same_purpose p to_reimage
permits (failed at_stage detail) p = detail_permits detail p

-- Both the commands run and those of `earlier` are permitted.
abbrev pub Fits : (Purpose → Bool) → Result Outcome Outcome → List Event → Type 0
Fits earlier r new =
    (within (permits (outcome_of r)) new ≡ true)
    × ((p : Purpose) → earlier p ≡ true → permits (outcome_of r) p ≡ true)

-- An early return permits those of `earlier`.
abbrev pub Bears : {A : Type 0} → (Purpose → Bool) → Result A Outcome → Type 0
Bears earlier (ok a) = Unit {0}
Bears earlier (err o) = (p : Purpose) → earlier p ≡ true → permits o p ≡ true

abbrev pub either : (Purpose → Bool) → (Purpose → Bool) → Purpose → Bool
either a b p = a p || b p

or_left : (a b : Bool) → a ≡ true → (a || b) ≡ true
or_left a b h = ground (arith, h)

or_right : (a b : Bool) → b ≡ true → (a || b) ≡ true
or_right a b h = ground (arith, h)

module _ {os : Os} where
  pub Fits-bind :
      {A : Type 0} (earlier more : Purpose → Bool) (m : Exec os Outcome A)
      (f : A → Exec os Outcome Outcome)
      → Emits m (λ r new. (within more new ≡ true) × Bears (either earlier more) r)
      → ((a : A) → Emits (f a) (Fits (either earlier more)))
      → Emits (m >>= f) (Fits earlier)
  Fits-bind earlier more m f hm hf =
      Emits-bind (λ r new. (within more new ≡ true) × Bears (either earlier more) r) m f hm
        (λ o new h. (
          within_mono more (permits o) new (λ p q. h.1 p (or_right (earlier p) (more p) q)) h.0,
          λ p q. h.1 p (or_left (earlier p) (more p) q),
        ))
        (λ a old h. Emits-weaken (Fits (either earlier more)) (f a) (hf a) (λ r new k. (
          within-append (permits (outcome_of r)) new old
              ∙ rw (
                k.0,
                within_mono more (permits (outcome_of r)) old
                    (λ p q. k.1 p (or_right (earlier p) (more p) q)) h.0,
              ),
          λ p q. k.1 p (or_left (earlier p) (more p) q),
        )))

  pub Bears-Returns :
      {A : Type 0} (earlier more : Purpose → Bool) (m : Exec os Outcome A)
      → Returns more m
      → Emits m (λ r new. (within more new ≡ true) × Bears (either earlier more) r)
  Bears-Returns {A = A} earlier more m h =
      Emits-weaken (λ r new. (is_ok r ≡ true) × (within more new ≡ true)) m h
        (λ r new k. (k.1, never r k.0))
    where
      never : (r : Result A Outcome) → is_ok r ≡ true → Bears (either earlier more) r
      never (ok a) h = tt
      never (err o) h = cc

  -- Before any command has run, nothing is asked of an early return.
  pub Bears-Stays :
      {A : Type 0} (m : Exec os Outcome A)
      → Stays nothing m
      → Emits m (λ r new. (within nothing new ≡ true) × Bears (either nothing nothing) r)
  Bears-Stays {A = A} m h =
      Emits-weaken (λ r new. within nothing new ≡ true) m h (λ r new k. (k, trivial r))
    where
      trivial : (r : Result A Outcome) → Bears (either nothing nothing) r
      trivial (ok a) = tt
      trivial (err o) = λ p q. cc

  pub Bears-with_error :
      {A D : Type 0} (earlier more : Purpose → Bool) (f : D → Outcome) (m : Exec os D A)
      → Stays more m
      → ((d : D) (p : Purpose) → earlier p ≡ true → permits (f d) p ≡ true)
      → Emits (with_error f m) (λ r new. (within more new ≡ true) × Bears earlier r)
  Bears-with_error {A = A} {D = D} earlier more f m h g =
      Emits-with_error f m
        (Emits-weaken (λ r new. within more new ≡ true) m h (λ r new k. (k, carried r)))
    where
      carried : (r : Result A D) → Bears earlier (map_err f r)
      carried (ok a) = tt
      carried (err d) = g d

  pub Fits-pure :
      (earlier : Purpose → Bool) (o : Outcome)
      → ((p : Purpose) → earlier p ≡ true → permits o p ≡ true)
      → Emits (pure {os = os} o) (Fits earlier)
  unfolding within
  Fits-pure earlier o h = Emits-pure o (refl, h)

  pub Fits-fail :
      (earlier : Purpose → Bool) (at_stage : Stage) (d : Detail)
      → ((p : Purpose) → earlier p ≡ true → detail_permits d p ≡ true)
      → Emits (fail {os = os} at_stage d) (Fits earlier)
  unfolding within fail
  Fits-fail earlier at_stage d h = Emits-exit _ (refl, h)

  -- A step that runs no command leaves the rest as it is.
  pub Fits-quiet :
      {A : Type 0} (earlier : Purpose → Bool) (m : Exec os Outcome A)
      (f : A → Exec os Outcome Outcome)
      → Emits m (λ r new. (within nothing new ≡ true) × Bears earlier r)
      → ((a : A) → Emits (f a) (Fits earlier))
      → Emits (m >>= f) (Fits earlier)
  Fits-quiet earlier m f hm hf =
      Emits-bind (λ r new. (within nothing new ≡ true) × Bears earlier r) m f hm
        (λ o new h. (within_mono nothing (permits o) new (λ p q. cc) h.0, h.1))
        (λ a old h. Emits-weaken (Fits earlier) (f a) (hf a) (λ r new k. (
          within-append (permits (outcome_of r)) new old
              ∙ rw (k.0, within_mono nothing (permits (outcome_of r)) old (λ p q. cc) h.0),
          k.1,
        )))

  pub Bears-quiet :
      {A : Type 0} (earlier : Purpose → Bool) (m : Exec os Outcome A)
      → Returns nothing m
      → Emits m (λ r new. (within nothing new ≡ true) × Bears earlier r)
  Bears-quiet {A = A} earlier m h =
      Emits-weaken (λ r new. (is_ok r ≡ true) × (within nothing new ≡ true)) m h
        (λ r new k. (k.1, never r k.0))
    where
      never : (r : Result A Outcome) → is_ok r ≡ true → Bears earlier r
      never (ok a) h = tt
      never (err o) h = cc

  pub attempt-Returns :
      {A D : Type 0} (allows : Purpose → Bool) (m : Exec os D A)
      → Stays allows m
      → Returns allows (attempt {E = Outcome} m)
  attempt-Returns allows m h =
      Emits-attempt m (Emits-weaken (λ r new. within allows new ≡ true) m h (λ r new k. (refl, k)))
