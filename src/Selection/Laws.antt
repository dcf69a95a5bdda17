-- ===== src/Selection/Laws.antt =====
-- What a date picker commits is a valid selection.
use sbm.Base.{ℕ, ◌+◌, ◌/◌, ◌%◌, ◌≤◌, ◌≡◌, true, arith}
use sbm.Base.Decimal.{decimal, decimal_four, pad2_two}
use sbm.DatePicker.{in_range, iso_month, iso_day}
use sbm.DatePicker.View.{in_range-bounds}
use sbm.Selection.{year_ok, month_ok, day_ok, valid_year, valid_month, valid_day}

year_ok_lem :
    (y : ℕ)
    → 1970 ≤ y
    → y ≤ 9999
    → year_ok
        (b'0' + y / 10 / 10 / 10)
        (b'0' + y / 10 / 10 % 10)
        (b'0' + y / 10 % 10)
        (b'0' + y % 10)
      ≡ true
unfolding year_ok
year_ok_lem y h k = ground arith

month_ok_lem : (m : ℕ) → 1 ≤ m → m ≤ 12 → month_ok (b'0' + m / 10) (b'0' + m % 10) ≡ true
unfolding month_ok
month_ok_lem m h k = ground arith

day_ok_lem : (d : ℕ) → 1 ≤ d → d ≤ 31 → day_ok (b'0' + d / 10) (b'0' + d % 10) ≡ true
unfolding day_ok
day_ok_lem d h k = ground arith

-- A committed year, month or day is sent: the texts that a picker makes of a year in its range, of a
-- month and of a day match the regular expressions of the views.
pub valid-iso :
    (y m d : ℕ)
    → in_range y ≡ true
    → 1 ≤ m
    → m ≤ 12
    → 1 ≤ d
    → d ≤ 31
    → (valid_year (decimal y) ≡ true)
      × (valid_month (iso_month y m) ≡ true)
      × (valid_day (iso_day y m d) ≡ true)
unfolding valid_year valid_month valid_day iso_month iso_day
valid-iso y m d r a b c e =
    let (low, high) = in_range-bounds y r in
    rw
      (
        decimal_four y (omega arith) (omega arith),
        pad2_two m (omega arith),
        pad2_two d (omega arith),
      )
      (
        year_ok_lem y low high,
        rw (year_ok_lem y low high) (month_ok_lem m a b),
        rw (year_ok_lem y low high, month_ok_lem m a b) (day_ok_lem d c e),
      )
