-- ===== src/Calendar/Tests.antt =====
-- Days at the end of a month.
use sbm.Base.{suc, ◌≡◌, arith}
use sbm.Calendar.{is_leap, days_in_month, Day, next_day}
use sbm.Calendar.Laws.{number_of, IsDay, ordinal-next_day}

abbrev leap_day : Day
leap_day = record { year = 2000; month = 2; day = 29 }

leap_day-IsDay : IsDay leap_day
unfolding days_in_month is_leap
leap_day-IsDay = ground arith

ordinal-next_day_example : number_of (next_day leap_day) ≡ suc (number_of leap_day)
ordinal-next_day_example = ordinal-next_day leap_day leap_day-IsDay
