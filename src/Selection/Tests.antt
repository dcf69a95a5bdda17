-- ===== src/Selection/Tests.antt =====
-- A date that a picker commits.
use sbm.Base.{◌≡◌, refl, true, arith}
use sbm.Base.Decimal.{decimal}
use sbm.DatePicker.{in_range, iso_month, iso_day}
use sbm.Selection.{valid_year, valid_month, valid_day}
use sbm.Selection.Laws.{valid-iso}

in_range_1999 : in_range 1999 ≡ true
unfolding in_range
in_range_1999 = refl

valid-iso_1999 :
    (valid_year (decimal 1999) ≡ true)
    × (valid_month (iso_month 1999 12) ≡ true)
    × (valid_day (iso_day 1999 12 31) ≡ true)
valid-iso_1999 =
    valid-iso 1999 12 31 in_range_1999 (omega arith) (omega arith) (omega arith) (omega arith)
