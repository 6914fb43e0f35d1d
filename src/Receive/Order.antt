-- ===== src/Receive/Order.antt =====
-- Commands that must not run before something else is done, in a whole run.
use nixdeploy_corbet_ch.World.{Os, Purpose, Event, Exec, ◌>>=◌, pure, exit, with_error}
use nixdeploy_corbet_ch.World.Emits.{
  Emits, Emits-pure, Emits-exit, Emits-weaken, Emits-bind, Emits-with_error,
}
use nixdeploy_corbet_ch.Receive.Log.{
  within, nothing, guarded, guarded-append, guarded-behind, within-guarded, Stays,
}
use nixdeploy_corbet_ch.Receive.Frame.{is_ok, Returns}
use nixdeploy_corbet_ch.Base.{
  any, ◌≡◌, refl, ◌⊎◌, inl, inr, Bool, true, false, List, [], ◌∷◌, ◌++◌, arith,
}

abbrev pub Keeps : {os : Os} {E A : Type 0} → Purpose → (Event → Bool) → Exec os E A → Type 1
Keeps p test m = Emits m (λ r new. guarded p test new ≡ true)

module _ {os : Os} {E : Type 0} (p : Purpose) (test : Event → Bool) where
  pub Keeps-bind :
      {A B : Type 0} (m : Exec os E A) (f : A → Exec os E B)
      → Keeps p test m
      → ((a : A) → Keeps p test (f a))
      → Keeps p test (m >>= f)
  Keeps-bind m f hm hf =
      Emits-bind (λ r new. guarded p test new ≡ true) m f hm (λ e new h. h)
        (λ a old h.
          Emits-weaken (λ r new. guarded p test new ≡ true) (f a) (hf a)
            (λ r new k. guarded-append p test new old k h))

  pub Keeps-Stays :
      {A : Type 0} (allows : Purpose → Bool) (m : Exec os E A)
      → allows p ≡ false
      → Stays allows m
      → Keeps p test m
  Keeps-Stays allows m h hm =
      Emits-weaken (λ r new. within allows new ≡ true) m hm
        (λ r new k. within-guarded allows p test new h k)

  pub Keeps-Returns :
      {A : Type 0} (allows : Purpose → Bool) (m : Exec os E A)
      → allows p ≡ false
      → Returns allows m
      → Keeps p test m
  Keeps-Returns allows m h hm =
      Emits-weaken (λ r new. (is_ok r ≡ true) × (within allows new ≡ true)) m hm
        (λ r new k. within-guarded allows p test new h k.1)

  pub Keeps-with_error :
      {A D : Type 0} (f : D → E) (m : Exec os D A) → Stays nothing m → Keeps p test (with_error f m)
  Keeps-with_error f m h = Emits-with_error f m (
      Emits-weaken (λ r new. within nothing new ≡ true) m h
        (λ r new k. within-guarded nothing p test new refl k))

  pub Keeps-pure : {A : Type 0} (a : A) → Keeps p test (pure {os = os} {E = E} a)
  unfolding guarded
  Keeps-pure a = Emits-pure a refl

  pub Keeps-exit : {A : Type 0} (e : E) → Keeps p test (exit {os = os} {A = A} e)
  unfolding guarded
  Keeps-exit e = Emits-exit e refl

-- No command was run for the purpose.
abbrev pub Never : Purpose → List Event → Type 0
Never p es = guarded p (λ e. false) es ≡ true

any-never : (es : List Event) → any (λ e. false) es ≡ false
any-never [] = refl
any-never (e ∷ es) = any-never es

pub Never-guarded :
    (p : Purpose) (test : Event → Bool) (es : List Event) → Never p es → guarded p test es ≡ true
unfolding guarded
Never-guarded p test [] h = refl
Never-guarded p test (e ∷ es) h =
    ground (arith, h, any-never es, Never-guarded p test es (ground (arith, h)))

-- Either no command was run for the purpose, or before each such command the log has, for one and the
-- same index, an event that passes the first test and one that passes the second.
abbrev pub Ordered :
    {I : Type 0} → Purpose → (I → Event → Bool) → (I → Event → Bool) → List Event → Type 0
Ordered {I} p a b es =
    Never p es ⊎ ((i : I) × (guarded p (a i) es ≡ true) × (guarded p (b i) es ≡ true))

abbrev pub Orders :
    {I : Type 0} {os : Os} {E A : Type 0}
    → Purpose
    → (I → Event → Bool)
    → (I → Event → Bool)
    → Exec os E A
    → Type 1
Orders p a b m = Emits m (λ r new. Ordered p a b new)

abbrev pub Quiet : {os : Os} {E A : Type 0} → Purpose → Exec os E A → Type 1
Quiet p m = Keeps p (λ e. false) m

module _ {I : Type 0} (p : Purpose) (a b : I → Event → Bool) where
  pub Ordered-after :
      (new old : List Event) → Never p old → Ordered p a b new → Ordered p a b (new ++ old)
  Ordered-after new old n (inl h) = inl (guarded-append p _ new old h n)
  Ordered-after new old n (inr (i, f, g)) = inr (
    i,
    guarded-append p _ new old f (Never-guarded p _ old n),
    guarded-append p _ new old g (Never-guarded p _ old n),
  )

  Ordered-before :
      (new old : List Event) → Ordered p a b old → Never p new → Ordered p a b (new ++ old)
  Ordered-before new old (inl h) n = inl (guarded-append p _ new old n h)
  Ordered-before new old (inr (i, f, g)) n = inr (
    i,
    guarded-append p _ new old (Never-guarded p _ new n) f,
    guarded-append p _ new old (Never-guarded p _ new n) g,
  )

  -- What passes the second test has come first.
  pub Ordered-behind :
      (i : I) (new old : List Event)
      → Never p old
      → any (b i) old ≡ true
      → guarded p (a i) new ≡ true
      → Ordered p a b (new ++ old)
  Ordered-behind i new old n h k = inr (
    i,
    guarded-append p _ new old k (Never-guarded p _ old n),
    guarded-behind p _ new old h (Never-guarded p _ old n),
  )

  module _ {os : Os} {E : Type 0} where
    pub Orders-Quiet : {A : Type 0} (m : Exec os E A) → Quiet p m → Orders p a b m
    Orders-Quiet m h = Emits-weaken _ m h (λ r new k. inl k)

    pub Orders-after :
        {A B : Type 0} (m : Exec os E A) (f : A → Exec os E B)
        → Quiet p m
        → ((x : A) → Orders p a b (f x))
        → Orders p a b (m >>= f)
    Orders-after m f hm hf =
        Emits-bind (λ r new. Never p new) m f hm (λ e new h. inl h)
          (λ x old h. Emits-weaken _ (f x) (hf x) (λ r new k. Ordered-after new old h k))

    pub Orders-before :
        {A B : Type 0} (m : Exec os E A) (f : A → Exec os E B)
        → Orders p a b m
        → ((x : A) → Quiet p (f x))
        → Orders p a b (m >>= f)
    Orders-before m f hm hf =
        Emits-bind (λ r new. Ordered p a b new) m f hm (λ e new h. h)
          (λ x old h. Emits-weaken _ (f x) (hf x) (λ r new k. Ordered-before new old h k))
