-- ===== src/DatePicker/Tests.antt =====
-- Runs of the date picker.
use sbm.Base.{◌+◌, ◌%◌, ◌≤◌, ◌≡◌, ◌⊎◌, refl, true, map, arith}
use sbm.Base.Text.{codes}
use sbm.Base.Int.{pos, negsuc, ◌≤ℤ◌}
use sbm.Calendar.{ordinal}
use sbm.Calendar.Laws.{number_of}
use sbm.DatePicker.{in_range, iso_month, iso_day, Picker, sync_from_value, step_month}
use sbm.DatePicker.Grid.{calendar_days}
use sbm.DatePicker.Walk.{walk, first_monday}
use sbm.DatePicker.Loops.{shown_as}
use sbm.DatePicker.Month.{calendar_days-walk}
use sbm.DatePicker.View.{sync_from_value-iso, Moved, target, step_month_lem}

abbrev shown : Picker
shown = record { is_open = true; clock = 0; view_year = 2024; view_month = 2 }

in_range_2024 : in_range 2024 ≡ true
unfolding in_range
in_range_2024 = refl

calendar_days-walk_example :
    (calendar_days (codes "2024-02-29") (codes "2024-02-01") 2024 2
      ≡ map (shown_as (codes "2024-02-29") (codes "2024-02-01") 2) (walk 42 (first_monday 2024 2)))
    × (number_of (first_monday 2024 2) % 7 ≡ 1)
    × (number_of (first_monday 2024 2) ≤ ordinal 2024 2 1)
    × (ordinal 2024 2 1 ≤ number_of (first_monday 2024 2) + 6)
calendar_days-walk_example =
    calendar_days-walk (codes "2024-02-29") (codes "2024-02-01") 2024 2 in_range_2024 (omega arith)
      (omega arith)

sync_from_value-iso_november :
    (sync_from_value (codes "2026-01-01") (iso_day 2024 11 30) shown
      ≡ record shown { view_year = 2024; view_month = 11 })
    × (sync_from_value (codes "2026-01-01") (iso_month 2024 11) shown
        ≡ record shown { view_year = 2024; view_month = 11 })
sync_from_value-iso_november =
    sync_from_value-iso (codes "2026-01-01") shown 2024 11 30 in_range_2024 (omega arith)
      (omega arith)

step_month_lem_example :
    Moved (negsuc 25) shown (step_month (negsuc 25) shown)
    ⊎ ((step_month (negsuc 25) shown ≡ shown)
        × ((target (negsuc 25) shown ≤ℤ pos 23640) ⊎ (pos 120001 ≤ℤ target (negsuc 25) shown)))
step_month_lem_example = step_month_lem (negsuc 25) shown (omega arith) (omega arith)
