-- ===== src/Publish/Calendar/Stamps.antt =====
-- `iso8601_utc` of src/publish.rs writes what `looks_like_timestamp` of src/manifest.rs accepts.
use nixdeploy_corbet_ch.StorePath.{is_timestamp_bytes, looks_like_timestamp}
use nixdeploy_corbet_ch.Digits.Width.{digit, last_digits, show_padded-last_digits}
use nixdeploy_corbet_ch.Digits.{show_padded}
use nixdeploy_corbet_ch.Publish.Calendar.Gregorian.{
  days_in_month, days_before_year, days_before_year-closed,
}
use nixdeploy_corbet_ch.Publish.Calendar.Exact.{day_number-civil_from_days}
use nixdeploy_corbet_ch.Publish.Calendar.{civil_from_days, iso8601_utc}
use nixdeploy_corbet_ch.Base.{
  ltb, leb, Bool-cases, all, ℕ, zero, suc, ◌/◌, ◌%◌, ◌≤◌, ◌<◌, ◌≡◌, refl, ◌∙◌, inl, inr, true, [],
  ◌∷◌, arith,
}
use nixdeploy_corbet_ch.Text.{Text, utf8, as_bytes, is_ascii_digit}

as_bytes-ascii : (s : Text) → all (λ c. ltb c 0x80) s ≡ true → as_bytes s ≡ s
unfolding as_bytes utf8
as_bytes-ascii [] h = refl
as_bytes-ascii (c ∷ s) h = ground (arith, as_bytes-ascii s)

digit-ltb : (n : ℕ) → ltb (digit n) 0x80 ≡ true
digit-ltb n = ground arith

digit-is_ascii_digit : (n : ℕ) → is_ascii_digit (digit n) ≡ true
digit-is_ascii_digit n = ground arith

last_digits-two : (n : ℕ) → last_digits 2 n ≡ digit (n / 10) ∷ digit n ∷ []
unfolding last_digits
last_digits-two n = refl

last_digits-four :
    (n : ℕ)
    → last_digits 4 n
      ≡ digit (n / 10 / 10 / 10) ∷ digit (n / 10 / 10) ∷ digit (n / 10) ∷ digit n ∷ []
unfolding last_digits
last_digits-four n = refl

show_padded-two : (n : ℕ) → n < 100 → show_padded 2 n ≡ digit (n / 10) ∷ digit n ∷ []
show_padded-two n h = show_padded-last_digits 1 n h (omega arith) ∙ last_digits-two n

show_padded-four :
    (n : ℕ)
    → n < 10000
    → show_padded 4 n
      ≡ digit (n / 10 / 10 / 10) ∷ digit (n / 10 / 10) ∷ digit (n / 10) ∷ digit n ∷ []
show_padded-four n h = show_padded-last_digits 3 n h (omega arith) ∙ last_digits-four n

-- Digits where digits belong, with the signs between them.
abbrev stamp : (y mo d h mi s : ℕ) → Text
stamp y mo d h mi s =
    digit (y / 10 / 10 / 10)
    ∷ digit (y / 10 / 10)
    ∷ digit (y / 10)
    ∷ digit y
    ∷ b'-'
    ∷ digit (mo / 10)
    ∷ digit mo
    ∷ b'-'
    ∷ digit (d / 10)
    ∷ digit d
    ∷ b'T'
    ∷ digit (h / 10)
    ∷ digit h
    ∷ b':'
    ∷ digit (mi / 10)
    ∷ digit mi
    ∷ b':'
    ∷ digit (s / 10)
    ∷ digit s
    ∷ b'Z'
    ∷ []

looks_like_timestamp-stamp : (y mo d h mi s : ℕ) → looks_like_timestamp (stamp y mo d h mi s) ≡ true
unfolding looks_like_timestamp is_timestamp_bytes
looks_like_timestamp-stamp y mo d h mi s =
    rw (as_bytes-ascii (stamp y mo d h mi s) (simp digit-ltb)) (simp digit-is_ascii_digit)

ten_thousand_years : (y : ℕ) → 9999 ≤ y → 3652059 ≤ days_before_year (suc y)
ten_thousand_years y h = omega (arith, h, days_before_year-closed y)

early_year : (y : ℕ) → days_before_year y ≤ 3652058 → y ≤ 9999
early_year zero h = omega arith
early_year (suc y) h = elim (Bool-cases (leb 9999 y)) [
  | inl e ↦ absurd (omega (arith, h, ten_thousand_years y (ground (arith, e))))
  | inr e ↦ ground (arith, e)
]

month_days_bound : (y m : ℕ) → days_in_month y m ≤ 31
month_days_bound y m = ground arith

-- Up to the end of the year 9999, which is the second 253402300799, the publisher's time is one that
-- the receivers' check accepts.
pub looks_like_timestamp-iso8601_utc :
    (unix_seconds : ℕ)
    → unix_seconds ≤ 253402300799
    → looks_like_timestamp (iso8601_utc unix_seconds) ≡ true
unfolding iso8601_utc
looks_like_timestamp-iso8601_utc unix_seconds bound =
    let days = unix_seconds / 86400 in
    let secs = unix_seconds % 86400 in
    let ((_, _, m_high, d_low, d_high), number) = day_number-civil_from_days days in
    let (y, m, d) = civil_from_days days in
    let year_ok : y ≤ 9999 = early_year y (omega (arith, number, bound)) in
    let day_ok : d ≤ 31 = omega (arith, d_high, month_days_bound y m) in
    rw
      (
        show_padded-four y (omega (arith, year_ok)),
        show_padded-two m (omega (arith, m_high)),
        show_padded-two d (omega (arith, day_ok)),
        show_padded-two (secs / 3600) (omega arith),
        show_padded-two (secs % 3600 / 60) (omega arith),
        show_padded-two (secs % 60) (omega arith),
      )
      (looks_like_timestamp-stamp y m d (secs / 3600) (secs % 3600 / 60) (secs % 60))
