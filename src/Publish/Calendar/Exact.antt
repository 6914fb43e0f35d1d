-- ===== src/Publish/Calendar/Exact.antt =====
-- `civil_from_days` of src/publish.rs is exact.
use nixdeploy_corbet_ch.Publish.Calendar.{year_of_era, day_of_year, civil_from_days}
use nixdeploy_corbet_ch.Publish.Calendar.Gregorian.{is_leap, IsDate, day_number}
use nixdeploy_corbet_ch.Publish.Calendar.March.{march-IsDate, march_day_number}
use nixdeploy_corbet_ch.Base.{
  if◌then◌else◌, ℕ, ◌+◌, ◌-◌, ◌*◌, ◌/◌, ◌%◌, ◌≤◌, ◌≡◌, refl, Bool, true, false, arith,
}

-- The numbers of `civil_from_days` within an era.
year_of_era_bound : (doe : ℕ) → doe ≤ 146096 → year_of_era doe ≤ 399
unfolding year_of_era
year_of_era_bound doe h = omega arith

year_started :
    (doe : ℕ)
    → doe ≤ 146096
    → 365 * year_of_era doe + year_of_era doe / 4 - year_of_era doe / 100 ≤ doe
unfolding year_of_era
year_started doe h = omega arith

-- A March-based year ends with February, which has a 29th day only before the end of a leap year.
year_not_over :
    (doe : ℕ)
    → doe ≤ 146096
    → doe
      ≤ 365 * year_of_era doe
        + year_of_era doe / 4
        - year_of_era doe / 100
        + 364
        + (if is_leap (year_of_era doe + 1) then 1 else 0)
unfolding year_of_era
year_not_over doe h = ground arith

is_leap-era : (yoe era : ℕ) → is_leap (yoe + era * 400 + 1) ≡ is_leap (yoe + 1)
is_leap-era yoe era =
    let four : (yoe + era * 400 + 1) % 4 ≡ (yoe + 1) % 4 = omega arith in
    let hundred : (yoe + era * 400 + 1) % 100 ≡ (yoe + 1) % 100 = omega arith in
    let all_four : (yoe + era * 400 + 1) % 400 ≡ (yoe + 1) % 400 = omega arith in
    rw (four, hundred, all_four) refl

at_most_one : (b : Bool) → (if b then 1 else 0) ≤ 1
at_most_one true = omega arith
at_most_one false = omega arith

-- Days of the years of all eras.
era_sum :
    (yoe era doe doy : ℕ)
    → yoe ≤ 399
    → 365 * yoe + yoe / 4 - yoe / 100 ≤ doe
    → doy ≡ doe - (365 * yoe + yoe / 4 - yoe / 100)
    → let y = yoe + era * 400 in 365 * y + y / 4 - y / 100 + y / 400 + doy ≡ doe + era * 146097
era_sum yoe era doe doy h k e = omega (arith, h, k, e)

-- The date of a day is a date of the calendar, and counting the days of the years and months before
-- it gives the day back: 719162 days come before 1970.
pub day_number-civil_from_days :
    (days : ℕ) → IsDate (civil_from_days days) × (day_number (civil_from_days days) ≡ days + 719162)
unfolding civil_from_days day_of_year
day_number-civil_from_days days =
    let z = days + 719468 in
    let era = z / 146097 in
    let doe = z - era * 146097 in
    let in_era : doe ≤ 146096 = omega arith in
    let yoe = year_of_era doe in
    let y = yoe + era * 400 in
    let doy = doe - (365 * yoe + yoe / 4 - yoe / 100) in
    let bound = year_of_era_bound doe in_era in
    let started = year_started doe in_era in
    let over = year_not_over doe in_era in
    let leap = is_leap-era yoe era in
    let positive : 1 ≤ y = omega arith in
    let short : doy ≤ 364 + (if is_leap (y + 1) then 1 else 0) =
      rw leap (omega (arith, over, started)) in
    let long : doy ≤ 365 = omega (arith, short, at_most_one (is_leap (y + 1))) in
    (
      march-IsDate y doy positive short,
      omega
          (arith, march_day_number y doy positive long, era_sum yoe era doe doy bound started refl),
    )
