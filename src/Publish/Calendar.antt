-- ===== src/Publish/Calendar.antt =====
-- `iso8601_utc` and `civil_from_days` of src/publish.rs. A day is a quotient of a u64 and never
-- negative, so the branch of `era` for days before the epoch is never taken.
pub mod Gregorian
pub mod March
pub mod Exact
pub mod Stamps
use nixdeploy_corbet_ch.Digits.{show_padded}
use nixdeploy_corbet_ch.Base.{ltb, leb, if◌then◌else◌, ℕ, ◌+◌, ◌-◌, ◌*◌, ◌/◌, ◌%◌, [], ◌∷◌, ◌++◌}
use nixdeploy_corbet_ch.Text.{Text}

-- The year of an era of 400 years, which starts in March, at a day of it.
unfoldable pub year_of_era : ℕ → ℕ
year_of_era doe = (doe - doe / 1460 + doe / 36524 - doe / 146096) / 365

unfoldable pub day_of_year : ℕ → ℕ → ℕ
day_of_year doe yoe = doe - (365 * yoe + yoe / 4 - yoe / 100)

unfoldable pub month_from_march : ℕ → ℕ
month_from_march doy = (5 * doy + 2) / 153

unfoldable pub day_of_month : ℕ → ℕ → ℕ
day_of_month doy mp = doy - (153 * mp + 2) / 5 + 1

unfoldable pub month_of : ℕ → ℕ
month_of mp = if ltb mp 10 then mp + 3 else mp - 9

abbrev pub Civil : Type 0
Civil = ℕ × ℕ × ℕ

unfoldable pub civil_from_days : ℕ → Civil
unfolding year_of_era day_of_year month_from_march day_of_month month_of
civil_from_days days =
    let z = days + 719468 in
    let era = z / 146097 in
    let doe = z - era * 146097 in
    let yoe = year_of_era doe in
    let y = yoe + era * 400 in
    let doy = day_of_year doe yoe in
    let mp = month_from_march doy in
    let d = day_of_month doy mp in let m = month_of mp in (if leb m 2 then y + 1 else y, m, d)

unfoldable pub iso8601_utc : ℕ → Text
unfolding civil_from_days
iso8601_utc unix_seconds =
    let secs = unix_seconds % 86400 in
    let (year, month, day) = civil_from_days (unix_seconds / 86400) in
    show_padded 4 year
    ++ (b'-' ∷ show_padded 2 month
        ++ (b'-' ∷ show_padded 2 day
            ++ (b'T' ∷ show_padded 2 (secs / 3600)
                ++ (b':' ∷ show_padded 2 (secs % 3600 / 60)
                    ++ (b':' ∷ show_padded 2 (secs % 60) ++ b'Z' ∷ [])))))
