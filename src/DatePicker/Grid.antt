-- ===== src/DatePicker/Grid.antt =====
-- The grids of web/src/components/DatePickerControl.vue: `calendarDays` and `yearGrid`. Each loop is a
-- function of its own over the rounds that are left.
use sbm.Base.{
  ℕ, zero, suc, ◌+◌, ◌-◌, ◌*◌, ◌/◌, ◌%◌, Bool, true, false, not, List, [], ◌∷◌, ◌++◌, ◌==◌,
  if◌then◌else◌, length,
}
use sbm.Base.Text.{Text, text_eq}
use sbm.Base.Decimal.{decimal}
use sbm.Calendar.{days_in_month, weekday}
use sbm.DatePicker.{in_range, iso_day}

pub record Cell : Type 0 where
  pub iso : Text
  pub day : ℕ
  pub outside : Bool
  pub disabled : Bool
  pub is_today : Bool
  pub is_selected : Bool

abbrev pub prev_year : ℕ → ℕ → ℕ
prev_year y m = if m == 1 then y - 1 else y

abbrev pub prev_month : ℕ → ℕ
prev_month m = if m == 1 then 12 else m - 1

abbrev pub next_year : ℕ → ℕ → ℕ
next_year y m = if m == 12 then y + 1 else y

abbrev pub next_month : ℕ → ℕ
next_month m = if m == 12 then 1 else m + 1

unfoldable pub start_offset : ℕ → ℕ → ℕ
start_offset y m = (weekday y m 1 + 6) % 7

module _ (today value : Text) where
  unfoldable pub cell : ℕ → ℕ → Bool → Bool → ℕ → Cell
  cell y m outside disabled d =
      let iso = iso_day y m d in
      record {
        iso = iso;
        day = d;
        outside = outside;
        disabled = disabled;
        is_today = text_eq iso today;
        is_selected = text_eq iso value;
      }

  -- for (let i = n - 1; i >= 0; i--)
  unfoldable pub leading : ℕ → ℕ → ℕ → ℕ → List Cell
  leading y m last zero = []
  leading y m last (suc i) = cell y m true (not (in_range y)) (last - i) ∷ leading y m last i

  -- A loop of n rounds from a day on.
  unfoldable pub from_day : ℕ → ℕ → Bool → Bool → ℕ → ℕ → List Cell
  from_day y m outside disabled d zero = []
  from_day y m outside disabled d (suc n) =
      cell y m outside disabled d ∷ from_day y m outside disabled (suc d) n

  -- `new Date(y, m - 1, 0).getDate()` is the last day of the month before.
  unfoldable pub calendar_days : ℕ → ℕ → List Cell
  calendar_days y m =
      let before =
        leading (prev_year y m) (prev_month m) (days_in_month (prev_year y m) (prev_month m))
          (start_offset y m) in
      let shown = before ++ from_day y m false false 1 (days_in_month y m) in
      shown
      ++ from_day (next_year y m) (next_month m) true (not (in_range (next_year y m))) 1
          (42 - length shown)

pub record YearCell : Type 0 where
  pub year : Text
  pub disabled : Bool
  pub is_current : Bool
  pub is_selected : Bool

unfoldable pub year_start : ℕ → ℕ
year_start view_year = view_year / 12 * 12

unfoldable pub years_from : Text → Text → ℕ → ℕ → List YearCell
years_from current value y zero = []
years_from current value y (suc n) =
    let text = decimal y in
    record {
      year = text;
      disabled = not (in_range y);
      is_current = text_eq text current;
      is_selected = text_eq text value;
    }
    ∷ years_from current value (suc y) n

unfoldable pub year_grid : Text → Text → ℕ → List YearCell
unfolding years_from year_start
year_grid current value view_year = years_from current value (year_start view_year) 12
