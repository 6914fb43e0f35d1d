-- ===== src/Text/Laws.antt =====
-- Laws of the text functions.
use nixdeploy_corbet_ch.Base.{
  eqb, all, ℕ, Ordering, ◌≡◌, refl, ◌≢◌, ◌↔◌, true, false, not, some, [], ◌∷◌, ◌++◌, arith,
}
use nixdeploy_corbet_ch.Text.{Text, ◌==◌, compare_text, strip_prefix, split_once}

pub eq_sound : (s t : Text) → (s == t) ≡ true → s ≡ t
unfolding ◌==◌
eq_sound [] [] h = refl
eq_sound [] (d ∷ t) h = cc
eq_sound (c ∷ s) [] h = cc
eq_sound (c ∷ s) (d ∷ t) h = ground (arith, eq_sound s t)

pub eq_refl : (s : Text) → (s == s) ≡ true
unfolding ◌==◌
eq_refl [] = refl
eq_refl (c ∷ s) = ground (arith, eq_refl s)

pub eq_iff : (s t : Text) → ((s == t) ≡ true) ↔ (s ≡ t)
eq_iff s t = (eq_sound s t, λ e. rw e (eq_refl t))

pub ne_false : (s t : Text) → s ≢ t → (s == t) ≡ false
ne_false s t h = ground (arith, eq_iff s t)

pub compare_text-eq : (s t : Text) → compare_text s t ≡ Ordering.eq → s ≡ t
unfolding compare_text
compare_text-eq [] [] h = refl
compare_text-eq [] (d ∷ t) h = cc
compare_text-eq (c ∷ s) [] h = cc
compare_text-eq (c ∷ s) (d ∷ t) h = ground (arith, compare_text-eq s t)

pub compare_text_refl : (s : Text) → compare_text s s ≡ Ordering.eq
unfolding compare_text
compare_text_refl [] = refl
compare_text_refl (c ∷ s) = ground (arith, compare_text_refl s)

-- What `split_once` cuts apart is the text.
pub split_once-append :
    (s : Text) (sep : ℕ) (a b : Text) → split_once s sep ≡ some (a, b) → s ≡ a ++ sep ∷ b
unfolding split_once
split_once-append [] sep a b h = cc
split_once-append (c ∷ s) sep [] b h = ground arith
split_once-append (c ∷ s) sep (d ∷ a) b h = ground (arith, split_once-append s sep a b)

pub strip_prefix-append : (s p r : Text) → strip_prefix s p ≡ some r → s ≡ p ++ r
unfolding strip_prefix
strip_prefix-append s [] r h = cc
strip_prefix-append [] (d ∷ p) r h = cc
strip_prefix-append (c ∷ s) (d ∷ p) r h = ground (arith, strip_prefix-append s p r)

pub ==-compare_text :
    (s t : Text) → (s == t) ≡ elim (compare_text s t) [ Ordering.eq ↦ true | _ ↦ false ]
unfolding ◌==◌ compare_text
==-compare_text [] [] = refl
==-compare_text [] (d ∷ t) = refl
==-compare_text (c ∷ s) [] = refl
==-compare_text (c ∷ s) (d ∷ t) = ground (arith, ==-compare_text s t)

pub strip_prefix-append_self : (p r : Text) → strip_prefix (p ++ r) p ≡ some r
unfolding strip_prefix
strip_prefix-append_self [] [] = refl
strip_prefix-append_self [] (c ∷ r) = refl
strip_prefix-append_self (c ∷ p) r = ground (arith, strip_prefix-append_self p r)

-- A text with no separator comes back whole as the first part.
pub split_once-append_self :
    (a : Text) (sep : ℕ) (b : Text)
    → all (λ c. not (eqb c sep)) a ≡ true
    → split_once (a ++ sep ∷ b) sep ≡ some (a, b)
unfolding split_once
split_once-append_self [] sep b h = ground arith
split_once-append_self (c ∷ a) sep b h = ground (arith, split_once-append_self a sep b)

-- The last code point of a text.
abbrev pub final : Text → ℕ
final [] = 0
final (c ∷ []) = c
final (c ∷ d ∷ s) = final (d ∷ s)

pub final-append : (s : Text) (c : ℕ) (t : Text) → final (s ++ c ∷ t) ≡ final (c ∷ t)
final-append [] c t = refl
final-append (b ∷ []) c t = refl
final-append (b ∷ d ∷ s) c t = final-append (d ∷ s) c t
