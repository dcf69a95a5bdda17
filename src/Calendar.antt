-- ===== src/Calendar.antt =====
-- The calendar that JavaScript's `Date` counts in: the proleptic Gregorian one. A month is a number
-- from 1, `ordinal` counts days with 1 for 0001-01-01, a Monday, and a weekday counts from Sunday, as
-- `getDay`.
pub mod Laws
mod Tests
use sbm.Base.{
  ℕ, zero, suc, ◌+◌, ◌-◌, ◌*◌, ◌/◌, ◌%◌, Bool, true, false, ◌&&◌, ◌||◌, not, ◌==◌, leb,
  if◌then◌else◌,
}

unfoldable pub is_leap : ℕ → Bool
is_leap y = y % 4 == 0 && (not (y % 100 == 0) || y % 400 == 0)

-- `new Date(y, m, 0).getDate()` for a month m from 1 to 12.
unfoldable pub days_in_month : ℕ → ℕ → ℕ
days_in_month y m =
    if m == 2
    then (if is_leap y then 29 else 28)
    else if m == 4 || m == 6 || m == 9 || m == 11
    then 30
    else 31

-- The days of the year before a month, in a year that is no leap year.
abbrev pub days_before : ℕ → ℕ
days_before m =
    if leb m 1
    then 0
    else if m == 2
    then 31
    else if m == 3
    then 59
    else if m == 4
    then 90
    else if m == 5
    then 120
    else if m == 6
    then 151
    else if m == 7
    then 181
    else if m == 8
    then 212
    else if m == 9
    then 243
    else if m == 10
    then 273
    else if m == 11
    then 304
    else 334

-- The days before a year, and before a month of a year.
unfoldable pub year_start : ℕ → ℕ
year_start y = 365 * (y - 1) + (y - 1) / 4 - (y - 1) / 100 + (y - 1) / 400

unfoldable pub month_start : ℕ → ℕ → ℕ
month_start y m = days_before m + (if leb 3 m && is_leap y then 1 else 0)

unfoldable pub ordinal : ℕ → ℕ → ℕ → ℕ
ordinal y m d = year_start y + month_start y m + d

-- `new Date(y, m - 1, d).getDay()`
unfoldable pub weekday : ℕ → ℕ → ℕ → ℕ
unfolding ordinal year_start month_start is_leap
weekday y m d = ordinal y m d % 7

pub record Day : Type 0 where
  pub year : ℕ
  pub month : ℕ
  pub day : ℕ

-- The day after.
unfoldable pub next_day : Day → Day
next_day t =
    if leb (suc t.day) (days_in_month t.year t.month)
    then record t { day = suc t.day }
    else if t.month == 12
    then record { year = suc t.year; month = 1; day = 1 }
    else record { year = t.year; month = suc t.month; day = 1 }
