-- ===== src/Publish/Calendar/Gregorian.antt =====
-- The arithmetic of `civil_from_days` against the calendar: a day's date is the one that is reached
-- by counting the days of years and months.
use nixdeploy_corbet_ch.Publish.Calendar.{Civil}
use nixdeploy_corbet_ch.Base.{
  eqb, if◌then◌else◌, ℕ, zero, suc, ◌+◌, ◌-◌, ◌*◌, ◌/◌, ◌%◌, ◌≤◌, ◌≡◌, refl, Bool, not, ◌&&◌, ◌||◌,
  arith,
}

abbrev pub is_leap : ℕ → Bool
is_leap y = eqb (y % 4) 0 && (not (eqb (y % 100) 0) || eqb (y % 400) 0)

abbrev pub days_in_year : ℕ → ℕ
days_in_year y = if is_leap y then 366 else 365

abbrev pub days_in_month : ℕ → ℕ → ℕ
days_in_month y m =
    if eqb m 2
    then (if is_leap y then 29 else 28)
    else if eqb m 4 || eqb m 6 || eqb m 9 || eqb m 11
    then 30
    else 31

-- The days of the years before a year, from year 1.
unfoldable pub days_before_year : ℕ → ℕ
days_before_year zero = 0
days_before_year (suc zero) = 0
days_before_year (suc (suc y)) = days_before_year (suc y) + days_in_year (suc y)

-- The days of the months before a month of a year, from month 1.
unfoldable pub days_before_month : ℕ → ℕ → ℕ
days_before_month y zero = 0
days_before_month y (suc zero) = 0
days_before_month y (suc (suc m)) = days_before_month y (suc m) + days_in_month y (suc m)

-- A date of the calendar.
abbrev pub IsDate : Civil → Type 0
IsDate (y, m, d) = (1 ≤ y) × (1 ≤ m) × (m ≤ 12) × (1 ≤ d) × (d ≤ days_in_month y m)

-- The number of a date, from 1 January of year 1.
abbrev pub day_number : Civil → ℕ
day_number (y, m, d) = days_before_year y + (days_before_month y m + (d - 1))

pub days_before_year-closed :
    (y : ℕ) → days_before_year (suc y) ≡ 365 * y + y / 4 - y / 100 + y / 400
unfolding days_before_year
days_before_year-closed zero = refl
days_before_year-closed (suc y) = ground (arith, days_before_year-closed y)
