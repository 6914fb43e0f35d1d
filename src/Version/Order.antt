-- ===== src/Version/Order.antt =====
-- The comparison of versions is the lexicographic order on versions padded with zeros.
use nixdeploy_corbet_ch.Version.{component_at, find_difference, version_less_than}
use Prim.Native.Nat.{max}
use nixdeploy_corbet_ch.Base.{
  ltb, eqb, length, ℕ, zero, suc, ◌≤◌, ◌≡◌, refl, ◌∙◌, Bool, true, false, ◌&&◌, ◌||◌, Option, none,
  some, List, [], ◌∷◌, arith,
}

-- The order, read off the lists.
unfoldable pub below : List ℕ → List ℕ → Bool
below [] [] = false
below [] (r ∷ rs) = ltb 0 r || below [] rs
below (a ∷ as') [] = eqb a 0 && below as' []
below (a ∷ as') (r ∷ rs) = ltb a r || (eqb a r && below as' rs)

abbrev verdict : Option (ℕ × ℕ) → Bool
verdict none = false
verdict (some (a, r)) = ltb a r

abbrev rest : List ℕ → List ℕ
rest [] = []
rest (n ∷ v) = v

component_at-rest : (v : List ℕ) (i : ℕ) → component_at v (suc i) ≡ component_at (rest v) i
component_at-rest [] i = refl
component_at-rest (n ∷ v) i = refl

-- From the next index on, the walk is the walk over the rests.
find_difference-rest :
    (rounds index : ℕ) (actual required : List ℕ)
    → find_difference rounds (suc index) actual required
      ≡ find_difference rounds index (rest actual) (rest required)
unfolding find_difference
find_difference-rest zero index actual required = refl
find_difference-rest (suc rounds) index actual required = rw (
  component_at-rest actual index,
  component_at-rest required index,
  find_difference-rest rounds (suc index) actual required,
)

find_difference-below :
    (n : ℕ) (actual required : List ℕ)
    → length actual ≤ n
    → length required ≤ n
    → verdict (find_difference n 0 actual required) ≡ below actual required
unfolding find_difference below
find_difference-below zero [] [] h k = refl
find_difference-below zero [] (r ∷ rs) h k = absurd (omega arith)
find_difference-below zero (a ∷ as') required h k = absurd (omega arith)
find_difference-below (suc n) [] [] h k =
    ground (arith, find_difference-rest n 0 [] [], find_difference-below n [] [])
find_difference-below (suc n) [] (r ∷ rs) h k =
    ground (arith, find_difference-rest n 0 [] (r ∷ rs), find_difference-below n [] rs)
find_difference-below (suc n) (a ∷ as') [] h k =
    ground (arith, find_difference-rest n 0 (a ∷ as') [], find_difference-below n as' [])
find_difference-below (suc n) (a ∷ as') (r ∷ rs) h k =
    ground (arith, find_difference-rest n 0 (a ∷ as') (r ∷ rs), find_difference-below n as' rs)

version_less_than-verdict :
    (actual required : List ℕ)
    → version_less_than actual required
      ≡ verdict (find_difference (max (length actual) (length required)) 0 actual required)
unfolding version_less_than
version_less_than-verdict actual required = ground arith

-- The walk over the indices of the longer version is the lexicographic order of the versions, the
-- shorter one filled with zeros.
pub version_less_than-below :
    (actual required : List ℕ) → version_less_than actual required ≡ below actual required
version_less_than-below actual required =
    version_less_than-verdict actual required
    ∙ find_difference-below (max (length actual) (length required)) actual required (omega arith)
        (omega arith)

pub below_trans : (a b c : List ℕ) → below a b ≡ false → below b c ≡ false → below a c ≡ false
unfolding below
below_trans [] [] [] h k = refl
below_trans [] [] (z ∷ c) h k = ground (arith, below_trans [] [] c)
below_trans [] (y ∷ b) [] h k = refl
below_trans [] (y ∷ b) (z ∷ c) h k = ground (arith, below_trans [] b c)
below_trans (x ∷ a) [] [] h k = ground (arith, below_trans a [] [])
below_trans (x ∷ a) [] (z ∷ c) h k = ground (arith, below_trans a [] c)
below_trans (x ∷ a) (y ∷ b) [] h k = ground (arith, below_trans a b [])
below_trans (x ∷ a) (y ∷ b) (z ∷ c) h k = ground (arith, below_trans a b c)

pub below_asym : (a b : List ℕ) → below a b ≡ true → below b a ≡ false
unfolding below
below_asym [] [] h = refl
below_asym [] (r ∷ b) h = ground (arith, below_asym [] b)
below_asym (x ∷ a) [] h = ground (arith, below_asym a [])
below_asym (x ∷ a) (r ∷ b) h = ground (arith, below_asym a b)
