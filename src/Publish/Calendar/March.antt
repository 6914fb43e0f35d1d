-- ===== src/Publish/Calendar/March.antt =====
-- A year that starts in March, in `civil_from_days` of src/publish.rs.
use nixdeploy_corbet_ch.Publish.Calendar.{month_from_march, day_of_month, month_of}
use nixdeploy_corbet_ch.Publish.Calendar.Gregorian.{
  is_leap, days_in_year, days_in_month, days_before_year, days_before_month, IsDate, day_number,
  days_before_year-closed,
}
use nixdeploy_corbet_ch.Base.{
  leb, eqb, if◌then◌else◌, Bool-cases, ℕ, zero, suc, ◌+◌, ◌-◌, ◌*◌, ◌/◌, ◌≤◌, ◌≡◌, refl, ◌∙◌, inl,
  inr, true, false, arith,
}

-- The date within a year that starts in March, by its month.
pub march-IsDate :
    (y doy : ℕ)
    → 1 ≤ y
    → doy ≤ 364 + (if is_leap (y + 1) then 1 else 0)
    → let mp = month_from_march doy in
      IsDate (if leb (month_of mp) 2 then y + 1 else y, month_of mp, day_of_month doy mp)
unfolding month_from_march month_of day_of_month
march-IsDate y doy p h = ground arith

days_before_month-suc :
    (y m : ℕ) → 1 ≤ m → days_before_month y (suc m) ≡ days_before_month y m + days_in_month y m
unfolding days_before_month
days_before_month-suc y zero h = absurd (omega arith)
days_before_month-suc y (suc m) h = refl

march_month_length :
    (y mp : ℕ) → mp ≤ 8 → days_in_month y (mp + 3) + (153 * mp + 2) / 5 ≡ (153 * (mp + 1) + 2) / 5
march_month_length y mp h = ground arith

days_before_march : (y : ℕ) → days_before_month y 3 ≡ 59 + (if is_leap y then 1 else 0)
unfolding days_before_month
days_before_march y = ground arith

days_before_month-march :
    (y mp : ℕ)
    → mp ≤ 9
    → days_before_month y (mp + 3) ≡ (153 * mp + 2) / 5 + (59 + (if is_leap y then 1 else 0))
days_before_month-march y zero h = days_before_march y ∙ omega arith
days_before_month-march y (suc mp) h =
    let earlier = days_before_month-march y mp (omega (arith, h)) in
    let length_of = march_month_length y mp (omega (arith, h)) in
    let step = days_before_month-suc y (mp + 3) (omega arith) in
    let next : suc mp + 3 ≡ suc (mp + 3) = omega arith in
    rw (next, step, earlier) (omega (arith, length_of))

days_before_february : (y : ℕ) → days_before_month y 2 ≡ 31
unfolding days_before_month
days_before_february y = refl

days_before_january : (y : ℕ) → days_before_month y 1 ≡ 0
unfolding days_before_month
days_before_january y = refl

days_in_year-leap : (y : ℕ) → days_in_year y ≡ 365 + (if is_leap y then 1 else 0)
days_in_year-leap y = ground arith

days_before_year-suc :
    (y : ℕ) → days_before_year (suc (suc y)) ≡ days_before_year (suc y) + days_in_year (suc y)
unfolding days_before_year
days_before_year-suc y = refl

-- The date from March on, and that of January and February, in a year that starts in March.
march_number :
    (y doy mp : ℕ)
    → 1 ≤ y
    → mp ≤ 9
    → (153 * mp + 2) / 5 ≤ doy
    → day_number (y, mp + 3, day_of_month doy mp) + 306 ≡ 365 * y + y / 4 - y / 100 + y / 400 + doy
unfolding day_of_month
march_number zero doy mp p h k = absurd (omega arith)
march_number (suc y) doy mp p h k = rw (days_before_month-march (suc y) mp h) (
    omega (
      arith,
      days_before_year-closed (suc y),
      days_before_year-suc y,
      days_in_year-leap (suc y),
      k,
    ))

january_number :
    (y doy mp : ℕ)
    → 10 ≤ mp
    → mp ≤ 11
    → (153 * mp + 2) / 5 ≤ doy
    → day_number (y + 1, mp - 9, day_of_month doy mp) + 306
      ≡ 365 * y + y / 4 - y / 100 + y / 400 + doy
unfolding day_of_month
january_number y doy mp p h k =
    let next : y + 1 ≡ suc y = omega arith in
    elim (Bool-cases (eqb mp 10)) [
      | inl e ↦
          let ten : mp ≡ 10 = ground (arith, e) in
          rw (ten, next, days_before_january, days_before_year-closed y) (omega (arith, k, ten))
      | inr e ↦
          let eleven : mp ≡ 11 = ground (arith, e) in
          rw (eleven, next, days_before_february, days_before_year-closed y)
            (omega (arith, k, eleven))
    ]

month_of_early : (mp : ℕ) → mp ≤ 9 → month_of mp ≡ mp + 3
unfolding month_of
month_of_early mp h = ground arith

month_of_late : (mp : ℕ) → 10 ≤ mp → month_of mp ≡ mp - 9
unfolding month_of
month_of_late mp h = ground arith

month_started : (doy : ℕ) → (153 * month_from_march doy + 2) / 5 ≤ doy
unfolding month_from_march
month_started doy = omega arith

month_bound : (doy : ℕ) → doy ≤ 365 → month_from_march doy ≤ 11
unfolding month_from_march
month_bound doy h = omega arith

pub march_day_number :
    (y doy : ℕ)
    → 1 ≤ y
    → doy ≤ 365
    → let mp = month_from_march doy in
      day_number (if leb (month_of mp) 2 then y + 1 else y, month_of mp, day_of_month doy mp) + 306
      ≡ 365 * y + y / 4 - y / 100 + y / 400 + doy
march_day_number y doy p h =
    let mp = month_from_march doy in
    elim (Bool-cases (leb mp 9)) [
      | inl e ↦
          let early : mp ≤ 9 = ground (arith, e) in
          let keeps : leb (mp + 3) 2 ≡ false = ground arith in
          rw (month_of_early mp early)
            (rw keeps (march_number y doy mp p early (month_started doy)))
      | inr e ↦
          let late : 10 ≤ mp = ground (arith, e) in
          let bound = month_bound doy h in
          let moves : leb (mp - 9) 2 ≡ true = ground (arith, bound) in
          rw (month_of_late mp late)
            (rw moves (january_number y doy mp late bound (month_started doy)))
    ]
