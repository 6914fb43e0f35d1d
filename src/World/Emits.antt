-- ===== src/World/Emits.antt =====
-- What a computation logs and returns: a rule for each way to build one.
use mathlib.Core.List.{append_assoc}
use nixdeploy_corbet_ch.World.{
  Os, Event, Measured, World, Exec, continue, ◌>>=◌, pure, exit, act, ask, measure, measured_now,
  or_exit, note, with_error, attempt,
}
use nixdeploy_corbet_ch.Base.{
  if◌then◌else◌, Result, ok, err, map_err, ◌≡◌, refl, sym, ap, ◌∙◌, Bool, true, false, Option, none,
  some, List, [], ◌++◌,
}

-- From any world, `m` puts some events in front of the log, and these and its result satisfy `Q`.
pub record Emits {os : Os} {E A : Type 0} (m : Exec os E A) (Q : Result A E → List Event → Type 0)
    : Type 1 where
  pub at : (w : World os) → (new : List Event) × ((m w).1.events ≡ new ++ w.events) × Q (m w).0 new

module _ {os : Os} {E : Type 0} where
  pub Emits-pure :
      {A : Type 0} {Q : Result A E → List Event → Type 0} (a : A)
      → Q (ok a) []
      → Emits (pure {os = os} a) Q
  unfolding pure
  Emits-pure a q = record { at = λ w. ([], refl, q) }

  pub Emits-exit :
      {A : Type 0} {Q : Result A E → List Event → Type 0} (e : E)
      → Q (err e) []
      → Emits (exit {os = os} {A = A} e) Q
  unfolding exit
  Emits-exit e q = record { at = λ w. ([], refl, q) }

  pub Emits-act :
      {A : Type 0} {Q : Result A E → List Event → Type 0} (op : os.Machine → A × os.Machine)
      (event : A → List Event)
      → ((a : A) → Q (ok a) (event a))
      → Emits (act {os = os} {E = E} op event) Q
  unfolding act
  Emits-act op event q = record { at = λ w. (event (op w.machine).0, refl, q (op w.machine).0) }

  pub Emits-ask :
      {A : Type 0} {Q : Result A E → List Event → Type 0} (f : os.Machine → A)
      → ((a : A) → Q (ok a) [])
      → Emits (ask {os = os} {E = E} f) Q
  unfolding ask
  Emits-ask f q = record { at = λ w. ([], refl, q (f w.machine)) }

  pub Emits-measure :
      {Q : Result (Unit {0}) E → List Event → Type 0} (f : Measured → Measured)
      → Q (ok tt) []
      → Emits (measure {os = os} {E = E} f) Q
  unfolding measure
  Emits-measure f q = record { at = λ w. ([], refl, q) }

  pub Emits-measured_now :
      {Q : Result Measured E → List Event → Type 0}
      → ((m : Measured) → Q (ok m) [])
      → Emits (measured_now {os = os} {E = E}) Q
  unfolding measured_now
  Emits-measured_now q = record { at = λ w. ([], refl, q w.measured) }

  pub Emits-or_exit :
      {A D : Type 0} {Q : Result A E → List Event → Type 0} (f : D → E) (r : Result A D)
      → ((a : A) → r ≡ ok a → Q (ok a) [])
      → ((d : D) → r ≡ err d → Q (err (f d)) [])
      → Emits (or_exit {os = os} f r) Q
  unfolding or_exit
  Emits-or_exit f (ok a) qa qe = record { at = λ w. ([], refl, qa a refl) }
  Emits-or_exit f (err d) qa qe = record { at = λ w. ([], refl, qe d refl) }

  pub Emits-if :
      {A : Type 0} {Q : Result A E → List Event → Type 0} (b : Bool) (m n : Exec os E A)
      → (b ≡ true → Emits m Q)
      → (b ≡ false → Emits n Q)
      → Emits (if b then m else n) Q
  Emits-if true m n hm hn = hm refl
  Emits-if false m n hm hn = hn refl

  pub Emits-option :
      {A B : Type 0} {Q : Result A E → List Event → Type 0} (o : Option B) (n : Exec os E A)
      (f : B → Exec os E A)
      → (o ≡ none → Emits n Q)
      → ((b : B) → o ≡ some b → Emits (f b) Q)
      → Emits (elim o [ none ↦ n | some b ↦ f b ]) Q
  Emits-option none n f hn hs = hn refl
  Emits-option (some b) n f hn hs = hs b refl

  pub Emits-result :
      {A B D : Type 0} {Q : Result A E → List Event → Type 0} (r : Result B D) (f : B → Exec os E A)
      (g : D → Exec os E A)
      → ((b : B) → r ≡ ok b → Emits (f b) Q)
      → ((d : D) → r ≡ err d → Emits (g d) Q)
      → Emits (elim r [ ok b ↦ f b | err d ↦ g d ]) Q
  Emits-result (ok b) f g hf hg = hf b refl
  Emits-result (err d) f g hf hg = hg d refl

  pub Emits-weaken :
      {A : Type 0} (Q : Result A E → List Event → Type 0) {R : Result A E → List Event → Type 0}
      (m : Exec os E A)
      → Emits m Q
      → ((r : Result A E) (new : List Event) → Q r new → R r new)
      → Emits m R
  Emits-weaken Q m h f = record { at = λ w. let (new, e, q) = h.at w in (new, e, f _ new q) }

  -- The second computation runs only if the first did not return early, and logs after it.
  pub Emits-bind :
      {A B : Type 0} (Q : Result A E → List Event → Type 0) {R : Result B E → List Event → Type 0}
      (m : Exec os E A) (f : A → Exec os E B)
      → Emits m Q
      → ((e : E) (new : List Event) → Q (err e) new → R (err e) new)
      → ((a : A) (old : List Event) → Q (ok a) old → Emits (f a) (λ r new. R r (new ++ old)))
      → Emits (m >>= f) R
  unfolding ◌>>=◌
  Emits-bind {A = A} {B = B} Q {R} m f hm he hf = record {
    at = λ w. let (old, e, q) = hm.at w in go w (m w).0 (m w).1 old e q;
  }
    where
      go :
          (w : World os) (r : Result A E) (w' : World os) (old : List Event)
          → w'.events ≡ old ++ w.events
          → Q r old
          → (new : List Event) × ((continue r f w').1.events ≡ new ++ w.events)
            × R (continue r f w').0 new
      go w (ok a) w' old e q =
          let (new, e', q') = (hf a old q).at w' in
          (new ++ old, e' ∙ ap (λ l. new ++ l) e ∙ sym (append_assoc new old w.events), q')
      go w (err x) w' old e q = (old, e, he x old q)

  pub Emits-note :
      {Q : Result (Unit {0}) E → List Event → Type 0} (new : List Event)
      → Q (ok tt) new
      → Emits (note {os = os} {E = E} new) Q
  unfolding note
  Emits-note new q = record { at = λ w. (new, refl, q) }

  pub Emits-with_error :
      {A D : Type 0} {Q : Result A E → List Event → Type 0} (f : D → E) (m : Exec os D A)
      → Emits m (λ r new. Q (map_err f r) new)
      → Emits (with_error f m) Q
  unfolding with_error
  Emits-with_error f m h = record { at = λ w. h.at w }

  pub Emits-attempt :
      {A D : Type 0} {Q : Result (Result A D) E → List Event → Type 0} (m : Exec os D A)
      → Emits m (λ r new. Q (ok r) new)
      → Emits (attempt {E = E} m) Q
  unfolding attempt
  Emits-attempt m h = record { at = λ w. h.at w }
