-- ===== src/DatePicker/Script.antt =====
-- The run of web/scripts/ui-state-unit.mjs on the date picker, and one of its clicks.
use sbm.Base.{
  ℕ, ◌≤◌, ◌≡◌, refl, Bool, true, false, ◌&&◌, ◌||◌, not, Option, none, some, List, [], ◌∷◌,
  if◌then◌else◌, All, arith, Bool-cases, inl, inr,
}
use sbm.Base.Text.{Text, codes, text_eq}
use sbm.Base.Decimal.{decimal, pad2, number, split}
use sbm.Base.Int.{pos, negsuc, ◌+ℤ◌, ◌-ℤ◌}
use sbm.Calendar.{weekday, days_in_month}
use sbm.I18n.{starts_with}
use sbm.DatePicker.{
  in_range, iso_day, Zones, date, Props, Picker, iso_date, setup, step_month, step_year, commit,
  select_month_cell, select_quick_today, quick_value, watch_value, sync_from_value, sync_year,
  sync_month, months_up, months_down, show_month, year_of_today, month_of_today,
}
use sbm.DatePicker.Grid.{
  Cell, YearCell, cell, leading, from_day, start_offset, calendar_days, year_start, years_from,
  year_grid,
}
use sbm.DatePicker.Clicks.{
  Click, toggled, month_after, day_clicked, quick_clicked, opened, click, clicked, offers,
  all_offered,
}
use sbm.DatePicker.Commits.{IsToday, valid, clicked-valid}

abbrev kiritimati : Text
kiritimati = codes "Pacific/Kiritimati"

abbrev pago_pago : Text
pago_pago = codes "Pacific/Pago_Pago"

-- A moment at which it is another day in each of the two zones; the browser knows no others.
abbrev parts_of : Text → Option (Text × Text × Text)
parts_of zone =
    if text_eq zone kiritimati
    then some (codes "2026", codes "01", codes "02")
    else if text_eq zone pago_pago
    then some (codes "2025", codes "12", codes "31")
    else none

abbrev zones : Zones
zones = record { full_year = λ n. 2026; month = λ n. 0; date = λ n. 1; parts = λ tz n. parts_of tz }

-- `todayISO` of a picker in that zone.
abbrev today_iso : Text → Text
today_iso zone = iso_date zones 0 (some zone)

today_iso-zones :
    (today_iso kiritimati ≡ codes "2026-01-02")
    × (today_iso pago_pago ≡ codes "2025-12-31")
    × (text_eq (today_iso pago_pago) (today_iso kiritimati) ≡ false)
    × (today_iso (codes "Not/AZone") ≡ codes "2026-01-01")
unfolding iso_date iso_day decimal pad2
today_iso-zones = (refl, refl, refl, refl)

-- `days.filter(cell => cell.iso.startsWith(prefix)).every(cell => cell.disabled)`, and the negation of the test.
abbrev all_disabled : Text → List Cell → Bool
all_disabled prefix [] = true
all_disabled prefix (c ∷ cs) =
    (not (starts_with prefix c.iso) || c.disabled) && all_disabled prefix cs

abbrev all_enabled : Text → List Cell → Bool
all_enabled prefix [] = true
all_enabled prefix (c ∷ cs) =
    (not (starts_with prefix c.iso) || not c.disabled) && all_enabled prefix cs

abbrev disabled_years : List YearCell → List Text
disabled_years [] = []
disabled_years (c ∷ cs) = let rest = disabled_years cs in if c.disabled then c.year ∷ rest else rest

abbrev picker_at : ℕ → ℕ → Picker
picker_at y m = record { is_open = true; clock = 0; view_year = y; view_month = m }

abbrev days_at : ℕ → ℕ → List Cell
days_at y m = calendar_days (codes "2026-01-01") [] y m

-- January 1970, from which a step back stays put.
view : Unit {0}
unfolding calendar_days leading from_day cell start_offset in_range iso_day step_month months_up
    months_down show_month year_grid years_from year_start weekday days_in_month decimal pad2 ◌+ℤ◌
    ◌-ℤ◌
view = tt

first_month :
    (all_disabled (codes "1969-") (days_at 1970 1) ≡ true)
    × (all_enabled (codes "1970-") (days_at 1970 1) ≡ true)
    × (step_month (negsuc 0) (picker_at 1970 1) ≡ picker_at 1970 1)
    × (disabled_years (year_grid [] [] 1970) ≡ codes "1968" ∷ codes "1969" ∷ [])
unfolding view
first_month = (refl, refl, refl, refl)

-- December 9999.
last_month :
    (step_month (pos 1) (picker_at 9999 12) ≡ picker_at 9999 12)
    × (all_disabled (codes "10000-") (days_at 9999 12) ≡ true)
unfolding view
last_month = (refl, refl)

clicks_view : Unit {0}
unfolding opened setup click clicked offers all_offered watch_value sync_from_value sync_year
    sync_month commit select_month_cell select_quick_today quick_value step_year iso_date
    year_of_today month_of_today number split
clicks_view = tt

-- A browser on January 1 of 2026 that knows no other zone.
abbrev browser : Zones
browser = record { full_year = λ n. 2026; month = λ n. 0; date = λ n. 1; parts = λ tz n. none }

new_year : IsToday (iso_day 2026 1 1)
unfolding in_range
new_year = record {
  y = 2026;
  m = 1;
  d = 1;
  year_in = refl;
  month_low = omega arith;
  month_high = omega arith;
  day_low = omega arith;
  day_high = omega arith;
  text = refl;
}

browser-IsToday : (now : ℕ) (tz : Option Text) → IsToday (iso_date browser now tz)
unfolding iso_date
browser-IsToday now none = new_year
browser-IsToday now (some zone) = elim (Bool-cases (text_eq zone [])) [
  | inl missing ↦ rw missing new_year
  | inr given ↦ rw given new_year
]

-- A picker of days is opened, goes on by a month, and a day in February is chosen.
abbrev props : Props
props = record { model_value = []; kind = date; time_zone = none }

abbrev clicks : List Click
clicks = toggled true 0 ∷ month_after ∷ day_clicked (codes "2026-02-14") ∷ []

clicked-valid_example :
    (in_range (clicked browser (opened browser props 0) clicks).picker.view_year ≡ true)
    × (1 ≤ (clicked browser (opened browser props 0) clicks).picker.view_month)
    × ((clicked browser (opened browser props 0) clicks).picker.view_month ≤ 12)
    × All (λ t. valid date t ≡ true) (clicked browser (opened browser props 0) clicks).emitted
unfolding view clicks_view
clicked-valid_example = clicked-valid browser browser-IsToday props 0 clicks refl refl

emitted-clicks : (clicked browser (opened browser props 0) clicks).emitted ≡ codes "2026-02-14" ∷ []
unfolding view clicks_view
emitted-clicks = refl

-- Nothing is offered in a popover that is closed.
all_offered-closed : all_offered browser (opened browser props 0) (quick_clicked ∷ []) ≡ false
unfolding view clicks_view
all_offered-closed = refl
