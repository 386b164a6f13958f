-- ===== src/Date.antt =====
-- src/date.rs: Amiga dates. `i32` and `i64` values are integers, `u8` and `u16` values naturals.
pub mod Calendar
pub mod Timestamp
use affs_read.Prelude.{
  ℕ, zero, suc, ◌+◌, ◌-◌, ◌*◌, ◌/◌, ◌%◌, ◌^◌, Bool, true, false, List, [], ◌∷◌, ◌&&◌, ℤ, pos,
  negsuc, pos_part, ◌+ℤ◌, ◌-ℤ◌, ◌*ℤ◌, quot, rem, lt_ℤ, as_u8, ◌==◌, if◌then◌else◌,
}

pub record AmigaDate : Type 0 where
  pub days : ℤ
  pub mins : ℤ
  pub ticks : ℤ

pub record DateTime : Type 0 where
  pub year : ℕ
  pub month : ℕ
  pub day : ℕ
  pub hour : ℕ
  pub minute : ℕ
  pub second : ℕ

unfoldable pub is_leap_year : ℕ → Bool
is_leap_year year = if year % 100 == 0 then year % 400 == 0 else year % 4 == 0

abbrev pub days_in_year : ℕ → ℕ
days_in_year year = if is_leap_year year then 366 else 365

-- `year += 1` on a `u16`: wraps in a release build, and panics with overflow checks.
abbrev pub next_year : ℕ → ℕ
next_year year = (year + 1) % 2 ^ 16

-- The loop that finds the year, on fuel; gives the year and the days left in it.
unfoldable pub year_loop : ℕ → ℤ → ℕ → ℕ × ℤ
year_loop zero days year = (year, days)
year_loop (suc fuel) days year =
    let later = year_loop fuel (days -ℤ pos (days_in_year year)) (next_year year) in
    if lt_ℤ days (pos (days_in_year year)) then (year, days) else later

abbrev pub days_in_month : List ℕ
days_in_month = 31 ∷ 28 ∷ 31 ∷ 30 ∷ 31 ∷ 30 ∷ 31 ∷ 31 ∷ 30 ∷ 31 ∷ 30 ∷ 31 ∷ []

-- The loop that finds the month, at index i of `DAYS_IN_MONTH`; gives the month and the days left.
unfoldable pub month_loop : Bool → List ℕ → ℕ → ℤ → ℕ → ℕ × ℤ
month_loop leap [] i days month = (month, days)
month_loop leap (d ∷ rest) i days month =
    let dim = if i == 1 && leap then 29 else d in
    let later = month_loop leap rest (i + 1) (days -ℤ pos dim) (month + 1) in
    if lt_ℤ days (pos dim) then (month, days) else later

-- A year has more than one day, so the day number is fuel enough.
unfoldable pub days_to_date : ℤ → ℕ × ℕ × ℕ
days_to_date days =
    let (year, in_year) = year_loop (suc (pos_part days)) days 1978 in
    let (month, in_month) = month_loop (is_leap_year year) days_in_month 0 in_year 1 in
    (year, month, as_u8 (in_month +ℤ pos 1))

unfoldable pub to_date_time : AmigaDate → DateTime
to_date_time d =
    let (year, month, day) = days_to_date d.days in
    record {
      year = year;
      month = month;
      day = day;
      hour = as_u8 (quot d.mins 60);
      minute = as_u8 (rem d.mins 60);
      second = as_u8 (quot d.ticks 50);
    }

abbrev pub epoch_offset : ℕ
epoch_offset = 2922 * 86400

unfoldable pub to_unix_timestamp : AmigaDate → ℤ
to_unix_timestamp d = d.days *ℤ 86400 +ℤ d.mins *ℤ 60 +ℤ quot d.ticks 50 +ℤ pos epoch_offset
