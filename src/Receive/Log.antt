-- ===== src/Receive/Log.antt =====
-- Reading the log of a run: what was executed, and what stands before it.
use nixdeploy_corbet_ch.World.{
  Os, Purpose, to_activate, to_roll_back, to_check, to_reconcile, to_reimage, Event, fetched,
  observed, executed, wrote, removed, reported, Exec, ◌>>=◌,
}
use nixdeploy_corbet_ch.World.Emits.{Emits, Emits-weaken, Emits-bind}
use nixdeploy_corbet_ch.Base.{
  Bool-cases, any, ◌≡◌, refl, ◌∙◌, inl, inr, Bool, true, false, not, ◌&&◌, ◌||◌, Option, none, some,
  List, [], ◌∷◌, ◌++◌, arith,
}

-- The purpose of an event, if it is a command that was run for one.
abbrev pub purpose_of : Event → Option Purpose
purpose_of (executed purpose bin args r) = some purpose
purpose_of (fetched url) = none
purpose_of (observed bin args c) = none
purpose_of (wrote path bytes done) = none
purpose_of (removed path) = none
purpose_of (reported r) = none

abbrev pub same_purpose : Purpose → Purpose → Bool
same_purpose to_activate to_activate = true
same_purpose to_roll_back to_roll_back = true
same_purpose to_check to_check = true
same_purpose to_reconcile to_reconcile = true
same_purpose to_reimage to_reimage = true
same_purpose p q = false

abbrev pub passes : (Purpose → Bool) → Option Purpose → Bool
passes allows none = true
passes allows (some p) = allows p

-- Each command that was run is for an allowed purpose.
unfoldable pub within : (Purpose → Bool) → List Event → Bool
within allows [] = true
within allows (e ∷ es) = passes allows (purpose_of e) && within allows es

abbrev pub nothing : Purpose → Bool
nothing p = false

abbrev pub is_for : Option Purpose → Purpose → Bool
is_for none p = false
is_for (some q) p = same_purpose q p

-- Before each command that was run for the purpose, the log has an event that passes the test. The
-- log is newest first.
unfoldable pub guarded : Purpose → (Event → Bool) → List Event → Bool
guarded p test [] = true
guarded p test (e ∷ es) = (not (is_for (purpose_of e) p) || any test es) && guarded p test es

pub within-append :
    (allows : Purpose → Bool) (new old : List Event)
    → within allows (new ++ old) ≡ (within allows new && within allows old)
unfolding within
within-append allows [] old = refl
within-append allows (e ∷ new) old = ground (arith, within-append allows new old)

passes_mono :
    (p q : Purpose → Bool) (o : Option Purpose)
    → ((a : Purpose) → p a ≡ true → q a ≡ true)
    → passes p o ≡ true
    → passes q o ≡ true
passes_mono p q none f h = refl
passes_mono p q (some a) f h = f a h

pub within_mono :
    (p q : Purpose → Bool) (es : List Event)
    → ((a : Purpose) → p a ≡ true → q a ≡ true)
    → within p es ≡ true
    → within q es ≡ true
unfolding within
within_mono p q [] f h = refl
within_mono p q (e ∷ es) f h =
    ground
      (arith, passes_mono p q (purpose_of e) f (ground arith), within_mono p q es f (ground arith))

pub any-append :
    (test : Event → Bool) (new old : List Event)
    → any test old ≡ true
    → any test (new ++ old) ≡ true
any-append test [] old h = h
any-append test (e ∷ new) old h = ground (arith, any-append test new old h)

pub any-prefix :
    (test : Event → Bool) (new old : List Event)
    → any test new ≡ true
    → any test (new ++ old) ≡ true
any-prefix test [] old h = cc
any-prefix test (e ∷ new) old h = elim (Bool-cases (test e)) [
  | inl t ↦ rw t
  | inr t ↦ rw t (any-prefix test new old (rw t at h))
]

pub guarded-append :
    (p : Purpose) (test : Event → Bool) (new old : List Event)
    → guarded p test new ≡ true
    → guarded p test old ≡ true
    → guarded p test (new ++ old) ≡ true
unfolding guarded
guarded-append p test [] old hn ho = ho
guarded-append p test (e ∷ new) old hn ho =
    let rest = guarded-append p test new old (ground arith) ho in
    elim (Bool-cases (is_for (purpose_of e) p)) [
      | inl t ↦ rw (t, any-prefix test new old (ground arith)) rest
      | inr t ↦ rw t rest
    ]

-- Whatever comes after a passing event is guarded.
pub guarded-behind :
    (p : Purpose) (test : Event → Bool) (new old : List Event)
    → any test old ≡ true
    → guarded p test old ≡ true
    → guarded p test (new ++ old) ≡ true
unfolding guarded
guarded-behind p test [] old h ho = ho
guarded-behind p test (e ∷ new) old h ho =
    ground (arith, any-append test new old h, guarded-behind p test new old h ho)

unrelated :
    (allows : Purpose → Bool) (p : Purpose) (o : Option Purpose)
    → allows p ≡ false
    → passes allows o ≡ true
    → is_for o p ≡ false
unrelated allows p none h q = refl
unrelated allows to_activate (some r) h q = ground arith
unrelated allows to_roll_back (some r) h q = ground arith
unrelated allows to_check (some r) h q = ground arith
unrelated allows to_reconcile (some r) h q = ground arith
unrelated allows to_reimage (some r) h q = ground arith

pub within-guarded :
    (allows : Purpose → Bool) (p : Purpose) (test : Event → Bool) (es : List Event)
    → allows p ≡ false
    → within allows es ≡ true
    → guarded p test es ≡ true
unfolding guarded within
within-guarded allows p test [] h w = refl
within-guarded allows p test (e ∷ es) h w =
    rw (unrelated allows p (purpose_of e) h (ground arith))
      (within-guarded allows p test es h (ground arith))

-- A computation that runs commands for allowed purposes only.
abbrev pub Stays : {os : Os} {E A : Type 0} → (Purpose → Bool) → Exec os E A → Type 1
Stays allows m = Emits m (λ r new. within allows new ≡ true)

module _ {os : Os} {E : Type 0} where
  pub Stays-bind :
      {A B : Type 0} (allows : Purpose → Bool) (m : Exec os E A) (f : A → Exec os E B)
      → Stays allows m
      → ((a : A) → Stays allows (f a))
      → Stays allows (m >>= f)
  Stays-bind allows m f hm hf =
      Emits-bind (λ r new. within allows new ≡ true) m f hm (λ e new h. h)
        (λ a old h.
          Emits-weaken (λ r new. within allows new ≡ true) (f a) (hf a)
            (λ r new k. within-append allows new old ∙ rw (h, k)))

  pub Stays-mono :
      {A : Type 0} (p q : Purpose → Bool) (m : Exec os E A)
      → ((a : Purpose) → p a ≡ true → q a ≡ true)
      → Stays p m
      → Stays q m
  Stays-mono p q m f h =
      Emits-weaken (λ r new. within p new ≡ true) m h (λ r new k. within_mono p q new f k)
