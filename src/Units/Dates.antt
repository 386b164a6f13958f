-- ===== src/Units/Dates.antt =====
-- The unit tests of src/date.rs.
use affs_read.Prelude.{◌≡◌, refl, Bool, true, not, ◌&&◌, ◌==◌, pos}
use affs_read.Date.{to_date_time, days_to_date, year_loop, month_loop, is_leap_year}

abbrev test_epoch : Bool
test_epoch =
    let dt = to_date_time (record { days = pos 0; mins = pos 0; ticks = pos 0 }) in
    dt.year == 1978
    && (dt.month == 1 && (dt.day == 1 && (dt.hour == 0 && (dt.minute == 0 && dt.second == 0))))

test_epoch_passes : test_epoch ≡ true
unfolding to_date_time days_to_date year_loop month_loop is_leap_year
test_epoch_passes = refl

abbrev test_known_date : Bool
test_known_date =
    let dt = to_date_time (record { days = pos 6988; mins = pos 0; ticks = pos 0 }) in
    dt.year == 1997 && (dt.month == 2 && dt.day == 18)

test_known_date_passes : test_known_date ≡ true
unfolding to_date_time days_to_date year_loop month_loop is_leap_year
test_known_date_passes = refl

abbrev test_time : Bool
test_time =
    let dt = to_date_time (record { days = pos 0; mins = pos 754; ticks = pos 150 }) in
    dt.hour == 12 && (dt.minute == 34 && dt.second == 3)

test_time_passes : test_time ≡ true
unfolding to_date_time days_to_date
test_time_passes = refl

abbrev test_leap_year : Bool
test_leap_year =
    is_leap_year 2000 && (not (is_leap_year 1900) && (is_leap_year 1984 && not (is_leap_year 1983)))

test_leap_year_passes : test_leap_year ≡ true
unfolding is_leap_year
test_leap_year_passes = refl
