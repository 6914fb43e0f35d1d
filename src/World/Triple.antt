-- ===== src/World/Triple.antt =====
-- What a computation does to the machine: a rule for each way to build one.
use nixdeploy_corbet_ch.World.{
  Os, Event, World, Exec, continue, ◌>>=◌, pure, exit, act, ask, or_exit, note, with_error, attempt,
}
use nixdeploy_corbet_ch.Base.{
  if◌then◌else◌, Result, ok, err, map_err, ◌≡◌, refl, subst, Bool, true, false, Option, none, some,
  List,
}

-- The answer of a computation: `Q` of a value and `X` of an early return, with the machine then.
abbrev pub Ends : {M E A : Type 0} → (A → M → Type 0) → (E → M → Type 0) → Result A E → M → Type 0
Ends Q X (ok a) s = Q a s
Ends Q X (err e) s = X e s

pub Ends-value :
    {M E A : Type 0} (Q : A → M → Type 0) (X : E → M → Type 0) (r : Result A E) (s : M) (a : A)
    → Ends Q X r s
    → r ≡ ok a
    → Q a s
Ends-value Q X (ok b) s a h e = let same : b ≡ a = cc in subst (λ x. Q x s) same h
Ends-value Q X (err d) s a h e = absurd cc

pub Ends-always :
    {M E A : Type 0} (Q : A → M → Type 0) (X : M → Type 0) (r : Result A E) (s : M)
    → Ends (λ a t. X t × Q a t) (λ e. X) r s
    → X s
Ends-always Q X (ok a) s h = h.0
Ends-always Q X (err e) s h = h

-- From a machine with `P`, `m` ends in `Q` or returns early in `X`.
pub record Triple {os : Os} {E A : Type 0} (P : os.Machine → Type 0) (m : Exec os E A)
    (Q : A → os.Machine → Type 0) (X : E → os.Machine → Type 0) : Type 1 where
  pub at : (w : World os) → P w.machine → Ends Q X (m w).0 (m w).1.machine

module _ {os : Os} {E : Type 0} {P : os.Machine → Type 0} {X : E → os.Machine → Type 0} where
  pub Triple-pure :
      {A : Type 0} {Q : A → os.Machine → Type 0} (a : A)
      → ((s : os.Machine) → P s → Q a s)
      → Triple {os = os} P (pure a) Q X
  unfolding pure
  Triple-pure a h = record { at = λ w p. h w.machine p }

  pub Triple-exit :
      {A : Type 0} {Q : A → os.Machine → Type 0} (e : E)
      → ((s : os.Machine) → P s → X e s)
      → Triple {os = os} P (exit e) Q X
  unfolding exit
  Triple-exit e h = record { at = λ w p. h w.machine p }

  pub Triple-act :
      {A : Type 0} {Q : A → os.Machine → Type 0} (op : os.Machine → A × os.Machine)
      (event : A → List Event)
      → ((s : os.Machine) → P s → Q (op s).0 (op s).1)
      → Triple {os = os} P (act op event) Q X
  unfolding act
  Triple-act op event h = record { at = λ w p. h w.machine p }

  pub Triple-ask :
      {A : Type 0} {Q : A → os.Machine → Type 0} (f : os.Machine → A)
      → ((s : os.Machine) → P s → Q (f s) s)
      → Triple {os = os} P (ask f) Q X
  unfolding ask
  Triple-ask f h = record { at = λ w p. h w.machine p }

  pub Triple-note :
      {Q : Unit {0} → os.Machine → Type 0} (new : List Event)
      → ((s : os.Machine) → P s → Q tt s)
      → Triple {os = os} P (note new) Q X
  unfolding note
  Triple-note new h = record { at = λ w p. h w.machine p }

  pub Triple-or_exit :
      {A D : Type 0} {Q : A → os.Machine → Type 0} (f : D → E) (r : Result A D)
      → ((a : A) → r ≡ ok a → (s : os.Machine) → P s → Q a s)
      → ((d : D) → r ≡ err d → (s : os.Machine) → P s → X (f d) s)
      → Triple {os = os} P (or_exit f r) Q X
  unfolding or_exit
  Triple-or_exit f (ok a) qa qe = record { at = λ w p. qa a refl w.machine p }
  Triple-or_exit f (err d) qa qe = record { at = λ w p. qe d refl w.machine p }

  -- `m?` where the answer `r` of a call is known with its machine.
  pub Triple-answer :
      {A D : Type 0} {Q : A → os.Machine → Type 0} {Y : D → os.Machine → Type 0} (f : D → E)
      (r : Result A D)
      → ((s : os.Machine) → P s → Ends Q Y r s)
      → ((d : D) (s : os.Machine) → Y d s → X (f d) s)
      → Triple {os = os} P (or_exit f r) Q X
  unfolding or_exit
  Triple-answer f (ok a) h hx = record { at = λ w p. h w.machine p }
  Triple-answer f (err d) h hx = record { at = λ w p. hx d w.machine (h w.machine p) }

  pub Triple-if :
      {A : Type 0} {Q : A → os.Machine → Type 0} (b : Bool) (m n : Exec os E A)
      → (b ≡ true → Triple P m Q X)
      → (b ≡ false → Triple P n Q X)
      → Triple P (if b then m else n) Q X
  Triple-if true m n hm hn = hm refl
  Triple-if false m n hm hn = hn refl

  pub Triple-bind :
      {A B : Type 0} (R : A → os.Machine → Type 0) {Q : B → os.Machine → Type 0} (m : Exec os E A)
      (f : A → Exec os E B)
      → Triple P m R X
      → ((a : A) → Triple (R a) (f a) Q X)
      → Triple P (m >>= f) Q X
  unfolding ◌>>=◌
  Triple-bind {A = A} {B = B} R {Q} m f hm hf = record {
    at = λ w p. go (m w).0 (m w).1 (hm.at w p);
  }
    where
      go :
          (r : Result A E) (w' : World os)
          → Ends R X r w'.machine
          → Ends Q X (continue r f w').0 (continue r f w').1.machine
      go (ok a) w' h = (hf a).at w' h
      go (err e) w' h = h

  pub Triple-with_error :
      {A D : Type 0} {Q : A → os.Machine → Type 0} (f : D → E) (m : Exec os D A)
      → Triple P m Q (λ d. X (f d))
      → Triple P (with_error f m) Q X
  unfolding with_error
  Triple-with_error {A = A} {D = D} {Q = Q} f m h = record {
    at = λ w p. go (m w).0 (m w).1 (h.at w p);
  }
    where
      go :
          (r : Result A D) (w' : World os)
          → Ends Q (λ d. X (f d)) r w'.machine
          → Ends Q X (map_err f r) w'.machine
      go (ok a) w' q = q
      go (err d) w' q = q

  pub Triple-attempt :
      {A D : Type 0} {Q : A → os.Machine → Type 0} {Y : D → os.Machine → Type 0} (m : Exec os D A)
      → Triple P m Q Y
      → Triple P (attempt m) (Ends Q Y) X
  unfolding attempt
  Triple-attempt m h = record { at = λ w p. h.at w p }

module _ {os : Os} {E A : Type 0} where
  -- A stronger precondition, weaker postconditions.
  pub Triple-weaken :
      {P P' : os.Machine → Type 0} (Q : A → os.Machine → Type 0) {Q' : A → os.Machine → Type 0}
      (X : E → os.Machine → Type 0) {X' : E → os.Machine → Type 0} (m : Exec os E A)
      → Triple P m Q X
      → ((s : os.Machine) → P' s → P s)
      → ((a : A) (s : os.Machine) → Q a s → Q' a s)
      → ((e : E) (s : os.Machine) → X e s → X' e s)
      → Triple P' m Q' X'
  Triple-weaken Q {Q'} X {X'} m h hp hq hx = record {
    at = λ w p. go (m w).0 (m w).1.machine (h.at w (hp w.machine p));
  }
    where
      go : (r : Result A E) (s : os.Machine) → Ends Q X r s → Ends Q' X' r s
      go (ok a) s q = hq a s q
      go (err e) s q = hx e s q

  pub Triple-option :
      {B : Type 0} {P : os.Machine → Type 0} {Q : A → os.Machine → Type 0}
      {X : E → os.Machine → Type 0} (o : Option B) (n : Exec os E A) (f : B → Exec os E A)
      → (o ≡ none → Triple P n Q X)
      → ((b : B) → o ≡ some b → Triple P (f b) Q X)
      → Triple P (elim o [ none ↦ n | some b ↦ f b ]) Q X
  Triple-option none n f hn hs = hn refl
  Triple-option (some b) n f hn hs = hs b refl

  -- A fact that does not depend on the machine.
  pub Triple-given :
      {P : os.Machine → Type 0} {F : Type 0} {Q : A → os.Machine → Type 0}
      {X : E → os.Machine → Type 0} (m : Exec os E A)
      → (F → Triple P m Q X)
      → Triple (λ s. P s × F) m Q X
  Triple-given m h = record { at = λ w p. (h p.1).at w p.0 }
