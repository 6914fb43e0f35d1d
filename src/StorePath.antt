-- ===== src/StorePath.antt =====
-- The textual forms that the crate accepts: Nix store paths and UTC timestamps (src/manifest.rs),
-- deployment-set IDs and Git revisions (src/release.rs), and the narinfo hash of a store path
-- (src/delta.rs).
pub mod Accepts
use nixdeploy_corbet_ch.Base.{
  eqb, if◌then◌else◌, length, get_elem?, is_empty, all, ℕ, Bool, false, not, ◌&&◌, ◌||◌, Option,
  none, some, List, [], ◌∷◌,
}
use nixdeploy_corbet_ch.Text.{
  Text, codes, as_bytes, is_ascii_digit, is_ascii_alphanumeric, is_ascii_hexdigit, strip_prefix,
  contains_char, split_once,
}

abbrev pub nix_base32 : Text
nix_base32 = codes "0123456789abcdfghijklmnpqrsvwxyz"

abbrev pub is_hash_char : ℕ → Bool
is_hash_char c = contains_char nix_base32 c

abbrev pub is_name_char : ℕ → Bool
is_name_char c = is_ascii_alphanumeric c || contains_char (codes "+_.?=-") c

-- The test on the parts of a base name, after the split at the first dash.
unfoldable pub hash_and_name : Text → Text → Bool
unfolding as_bytes
hash_and_name hash name =
    eqb (length (as_bytes hash)) 32
    && all is_hash_char hash
    && not (is_empty name)
    && all is_name_char name

unfoldable pub base_name_ok : Option (Text × Text) → Bool
unfolding hash_and_name
base_name_ok none = false
base_name_ok (some (hash, name)) = hash_and_name hash name

unfoldable pub looks_like_store_path : Text → Bool
unfolding base_name_ok
looks_like_store_path value = elim (strip_prefix value (codes "/nix/store/")) [
  | none ↦ false
  | some rest ↦ base_name_ok (split_once rest b'-')
]

-- `b[i]` of a byte list that is long enough: out of range Rust panics, and here the test fails.
abbrev pub byte_is : (ℕ → Bool) → List ℕ → ℕ → Bool
byte_is p b i = elim (get_elem? b i) [ none ↦ false | some c ↦ p c ]

abbrev pub digit_positions : List ℕ
digit_positions = 0 ∷ 1 ∷ 2 ∷ 3 ∷ 5 ∷ 6 ∷ 8 ∷ 9 ∷ 11 ∷ 12 ∷ 14 ∷ 15 ∷ 17 ∷ 18 ∷ []

abbrev pub literal_positions : List (ℕ × ℕ)
literal_positions = (4, b'-') ∷ (7, b'-') ∷ (10, b'T') ∷ (13, b':') ∷ (16, b':') ∷ (19, b'Z') ∷ []

unfoldable pub is_timestamp_bytes : List ℕ → Bool
is_timestamp_bytes b =
    eqb (length b) 20
    && (all (λ i. byte_is is_ascii_digit b i) digit_positions
        && all (λ p. byte_is (λ c. eqb c p.1) b p.0) literal_positions)

unfoldable pub looks_like_timestamp : Text → Bool
unfolding is_timestamp_bytes
looks_like_timestamp value = is_timestamp_bytes (as_bytes value)

unfoldable pub looks_like_id : Text → Bool
looks_like_id value = elim (strip_prefix value (codes "sha256:")) [
  | none ↦ false
  | some hex ↦ eqb (length (as_bytes hex)) 64 && all is_ascii_hexdigit hex
]

unfoldable pub looks_like_git_revision : Text → Bool
looks_like_git_revision value =
    (eqb (length (as_bytes value)) 40 || eqb (length (as_bytes value)) 64)
    && all is_ascii_hexdigit value

-- The narinfo hash of a store path under `store_dir`.
hash_of : Option (Text × Text) → Option Text
hash_of none = none
hash_of (some (hash, rest)) = if eqb (length (as_bytes hash)) 32 then some hash else none

after_dir : Option Text → Option Text
unfolding hash_of
after_dir none = none
after_dir (some base) = elim (strip_prefix base (b'/' ∷ [])) [
  | none ↦ none
  | some name ↦ hash_of (split_once name b'-')
]

unfoldable pub store_hash : Text → Text → Option Text
unfolding after_dir
store_hash store_path store_dir = after_dir (strip_prefix store_path store_dir)
