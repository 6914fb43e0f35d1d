-- ===== src/Version.antt =====
-- Store daemon versions of src/release.rs: `parse_version` and `version_less_than`.
pub mod Order
use nixdeploy_corbet_ch.Base.{
  ltb, leb, eqb, if◌then◌else◌, length, is_empty, ℕ, zero, suc, ◌+◌, ◌-◌, ◌*◌, Bool, false, Option,
  none, some, List, [], ◌∷◌,
}
use Prim.Native.Nat.{max}
use nixdeploy_corbet_ch.Text.{Text, is_ascii_digit, split, take_while, u64_mod}

-- `digits.parse::<u64>()` on a non-empty text of digits: an overflow is an error.
unfoldable pub decimal : ℕ → Text → ℕ
decimal n [] = n
decimal n (c ∷ s) = decimal (n * 10 + (c - b'0')) s

unfoldable pub parse_u64 : Text → Option ℕ
unfolding decimal
parse_u64 digits = let n = decimal 0 digits in if ltb n u64_mod then some n else none

unfoldable pub parse_component : Text → Option ℕ
unfolding parse_u64 take_while
parse_component component =
    let digits = take_while is_ascii_digit component in
    if is_empty digits then none else parse_u64 digits

abbrev and_push : Option ℕ → Option (List ℕ) → Option (List ℕ)
and_push none rest = none
and_push (some n) none = none
and_push (some n) (some ns) = some (n ∷ ns)

unfoldable pub parse_components : List Text → Option (List ℕ)
unfolding parse_component
parse_components [] = some []
parse_components (c ∷ cs) = and_push (parse_component c) (parse_components cs)

unfoldable pub parse_version : Text → Option (List ℕ)
unfolding parse_components split
parse_version value = elim (parse_components (split value b'.')) [
  | none ↦ none
  | some parsed ↦ if leb 2 (length parsed) then some parsed else none
]

-- `v.get(index).copied().unwrap_or(0)`
abbrev pub component_at : List ℕ → ℕ → ℕ
component_at [] index = 0
component_at (n ∷ v) zero = n
component_at (n ∷ v) (suc index) = component_at v index

-- The first index at which the padded versions differ, of `rounds` indices from `index` on.
unfoldable pub find_difference : ℕ → ℕ → List ℕ → List ℕ → Option (ℕ × ℕ)
find_difference zero index actual required = none
find_difference (suc rounds) index actual required =
    let further = find_difference rounds (suc index) actual required in
    if eqb (component_at actual index) (component_at required index)
    then further
    else some (component_at actual index, component_at required index)

unfoldable pub version_less_than : List ℕ → List ℕ → Bool
unfolding find_difference
version_less_than actual required =
    elim (find_difference (max (length actual) (length required)) 0 actual required) [
      | none ↦ false
      | some (a, r) ↦ ltb a r
    ]
