-- ===== src/Calendar/Laws.antt =====
-- Counting days agrees with going from day to day.
use sbm.Base.{ℕ, suc, ◌+◌, ◌≤◌, ◌≡◌, arith, ap}
use sbm.Calendar.{is_leap, days_in_month, year_start, month_start, ordinal, Day, next_day}

abbrev pub number_of : Day → ℕ
number_of t = ordinal t.year t.month t.day

pub record IsDay (t : Day) : Type 0 where
  pub year_pos : 1 ≤ t.year
  pub month_pos : 1 ≤ t.month
  pub month_le : t.month ≤ 12
  pub day_pos : 1 ≤ t.day
  pub day_le : t.day ≤ days_in_month t.year t.month

pub days_in_month_bounds : (y m : ℕ) → (28 ≤ days_in_month y m) × (days_in_month y m ≤ 31)
unfolding days_in_month
days_in_month_bounds y m = ground arith

year_start-suc : (y : ℕ) → 1 ≤ y → year_start (suc y) ≡ year_start y + 337 + days_in_month y 2
unfolding year_start days_in_month is_leap
year_start-suc y h = ground arith

month_start-suc :
    (y m : ℕ) → 1 ≤ m → m ≤ 11 → month_start y (suc m) ≡ month_start y m + days_in_month y m
unfolding month_start days_in_month
month_start-suc y m h k = ground arith

month_start_ends :
    (y : ℕ) → (month_start y 1 ≡ 0) × (month_start y 12 + 31 ≡ 337 + days_in_month y 2)
unfolding month_start days_in_month
month_start_ends y = ground arith

days_in_december : (y : ℕ) → days_in_month y 12 ≡ 31
unfolding days_in_month
days_in_december y = ground arith

-- The day after has the next number.
pub ordinal-next_day : (t : Day) → IsDay t → number_of (next_day t) ≡ suc (number_of t)
unfolding next_day ordinal
ordinal-next_day t h = ground (
  arith,
  h,
  year_start-suc t.year,
  month_start-suc t.year t.month,
  month_start_ends t.year,
  month_start_ends (suc t.year),
  days_in_december t.year,
  ap (days_in_month t.year) {x = t.month} {y = 12},
  ap (month_start t.year) {x = t.month} {y = 12},
)

pub next_day-IsDay : (t : Day) → IsDay t → IsDay (next_day t)
unfolding next_day
next_day-IsDay t h =
    ground
      (arith, h, days_in_month_bounds t.year (suc t.month), days_in_month_bounds (suc t.year) 1)
