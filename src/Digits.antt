-- ===== src/Digits.antt =====
-- Decimal digits, as `format!` of src/atomicfile.rs, src/release.rs and src/publish.rs writes them.
pub mod Width
use nixdeploy_corbet_ch.Base.{
  ltb, if◌then◌else◌, length, ℕ, zero, suc, ◌+◌, ◌-◌, ◌/◌, ◌%◌, [], ◌∷◌, ◌++◌,
}
use nixdeploy_corbet_ch.Text.{Text}

-- Fuel for the digits of a u64 is 20.
unfoldable pub digits_of : ℕ → ℕ → Text
digits_of zero n = []
digits_of (suc fuel) n =
    let more = digits_of fuel (n / 10) in (if ltb n 10 then [] else more) ++ (b'0' + n % 10) ∷ []

-- `format!("{}", n)`
unfoldable pub show : ℕ → Text
unfolding digits_of
show n = digits_of 20 n

unfoldable pub zeros : ℕ → Text
zeros zero = []
zeros (suc n) = b'0' ∷ zeros n

-- `format!("{:0width$}", n)`
unfoldable pub show_padded : ℕ → ℕ → Text
unfolding zeros show
show_padded width n = zeros (width - length (show n)) ++ show n
