-- ===== src/Digits/Width.antt =====
-- A number that fits its width is written with exactly the digits of that width.
use mathlib.Core.List.{append_assoc}
use nixdeploy_corbet_ch.Digits.{digits_of, show, zeros, show_padded}
use nixdeploy_corbet_ch.Base.{
  ltb, Bool-cases, length, length-append, ℕ, zero, suc, ◌+◌, ◌-◌, ◌/◌, ◌%◌, ◌^◌, ◌≤◌, ◌<◌, ◌≡◌,
  refl, sym, ap, ◌∙◌, inl, inr, [], ◌∷◌, ◌++◌, arith,
}
use nixdeploy_corbet_ch.Text.{Text}

abbrev pub digit : ℕ → ℕ
digit n = b'0' + n % 10

-- The last digits of a number.
unfoldable pub last_digits : ℕ → ℕ → Text
last_digits zero n = []
last_digits (suc width) n = last_digits width (n / 10) ++ digit n ∷ []

last_digits-zeros : (width : ℕ) → last_digits width 0 ≡ zeros width
unfolding last_digits zeros
last_digits-zeros zero = refl
last_digits-zeros (suc width) = rw (last_digits-zeros width) (zeros_last width)
  where
    zeros_last : (n : ℕ) → zeros n ++ b'0' ∷ [] ≡ b'0' ∷ zeros n
    zeros_last zero = refl
    zeros_last (suc n) = rw (zeros_last n) refl

one_digit : (fuel n : ℕ) → n < 10 → digits_of (suc fuel) n ≡ digit n ∷ []
unfolding digits_of
one_digit fuel n h = ground arith

more_digits :
    (fuel n : ℕ) → 10 ≤ n → digits_of (suc fuel) n ≡ digits_of fuel (n / 10) ++ digit n ∷ []
unfolding digits_of
more_digits fuel n h = ground arith

abbrev padded : ℕ → Text → Text
padded width s = zeros (width - length s) ++ s

padded-last :
    (width : ℕ) (s : Text) (c : ℕ) → padded (suc width) (s ++ c ∷ []) ≡ padded width s ++ c ∷ []
padded-last width s c = rw (length-append s (c ∷ [])) (
    let room : suc width - (length s + 1) ≡ width - length s = omega arith in
    rw room (sym (append_assoc (zeros (width - length s)) s (c ∷ []))))

padded-one_digit :
    (width n : ℕ) → padded (suc width) (digit n ∷ []) ≡ last_digits width 0 ++ digit n ∷ []
padded-one_digit width n =
    let room : suc width - 1 ≡ width = omega arith in rw room (rw (last_digits-zeros width) refl)

padded-digits_of :
    (width fuel n : ℕ)
    → n < 10 ^ suc width
    → width ≤ fuel
    → padded (suc width) (digits_of (suc fuel) n) ≡ last_digits (suc width) n
unfolding last_digits
padded-digits_of zero fuel n h k = rw (one_digit fuel n (omega (arith, h))) (padded-one_digit 0 n)
padded-digits_of (suc width) zero n h k = absurd (omega arith)
padded-digits_of (suc width) (suc fuel) n h k = elim (Bool-cases (ltb n 10)) [
  | inl small ↦
      let none_left : n / 10 ≡ 0 = ground (arith, small) in
      rw (one_digit (suc fuel) n (ground (arith, small))) (
        padded-one_digit (suc width) n
        ∙ ap (λ m. last_digits (suc width) m ++ digit n ∷ []) (sym none_left))
  | inr large ↦ rw (more_digits (suc fuel) n (ground (arith, large))) (
      padded-last (suc width) (digits_of (suc fuel) (n / 10)) (digit n)
      ∙ ap (λ t. t ++ digit n ∷ [])
          (padded-digits_of width fuel (n / 10) (omega (arith, h)) (omega (arith, k))))
]

-- `{:0width$}` of a number that fits, for a width of at most 20.
pub show_padded-last_digits :
    (width n : ℕ)
    → n < 10 ^ suc width
    → width ≤ 19
    → show_padded (suc width) n ≡ last_digits (suc width) n
unfolding show_padded show
show_padded-last_digits width n h k = padded-digits_of width 19 n h k
