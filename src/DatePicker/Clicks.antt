-- ===== src/DatePicker/Clicks.antt =====
-- The template of web/src/components/DatePickerControl.vue: which buttons it offers in a state, and what they do.
-- The parent binds the value with `v-model`: what is emitted becomes the value. A value that it sets by itself is
-- one of digits and dashes, as those of the views are.
use sbm.Base.{
  ℕ, ◌+◌, Bool, true, false, ◌&&◌, ◌||◌, not, Option, none, some, List, [], ◌∷◌, ◌==◌, leb,
}
use sbm.Base.Text.{Text, text_eq}
use sbm.Base.Int.{pos, negsuc}
use sbm.DatePicker.{
  min_year, max_year, Zones, Kind, date, month, year, Props, Picker, iso_date, watch_value, setup,
  step_month, step_year, commit, select_month_cell, select_quick_today, quick_value,
}
use sbm.DatePicker.Grid.{Cell, calendar_days, YearCell, year_start, year_grid}

-- `emitted` has the last value first.
pub record Shown : Type 0 where
  pub props : Props
  pub picker : Picker
  pub emitted : List Text

-- The popover is opened or closed at a time, the parent sets the value or the zone, and the buttons.
pub data Click : Type 0 where
  toggled : Bool → ℕ → Click
  value_set : Text → ℕ → Click
  zone_set : Option Text → Click
  year_before year_after month_before month_after years_before years_after quick_clicked : Click
  day_clicked year_clicked : Text → Click
  month_clicked : ℕ → Click

abbrev pub emits : Shown → Picker × Option Text → Shown
emits s (p, none) = record s { picker = p }
emits s (p, some val) = record s {
  props = record (s.props) { model_value = val };
  picker = p;
  emitted = val ∷ s.emitted;
}

abbrev steps : Shown → Picker → Shown
steps s p = record s { picker = p }

-- A cell that is not disabled has that text.
abbrev pub can_pick_day : Text → List Cell → Bool
can_pick_day iso [] = false
can_pick_day iso (c ∷ cs) = (text_eq c.iso iso && not c.disabled) || can_pick_day iso cs

abbrev pub can_pick_year : Text → List YearCell → Bool
can_pick_year text [] = false
can_pick_year text (c ∷ cs) = (text_eq c.year text && not c.disabled) || can_pick_year text cs

-- Digits and dashes: the texts whose parts `number` reads as `Number` does. A part that is empty gives 0 there and
-- none here, and neither is a year or a month.
abbrev pub bindable : Text → Bool
bindable [] = true
bindable (c ∷ s) = (c == b'-' || (leb b'0' c && leb c b'9')) && bindable s

abbrev pub is_date : Kind → Bool
is_date date = true
is_date _ = false

abbrev pub is_month : Kind → Bool
is_month month = true
is_month _ = false

abbrev pub is_year : Kind → Bool
is_year year = true
is_year _ = false

module _ (z : Zones) where
  unfoldable pub opened : Props → ℕ → Shown
  opened props now = record { props = props; picker = setup z props now; emitted = [] }

  unfoldable pub click : Click → Shown → Shown
  click (toggled b now) s = steps s (watch_value z s.props now (record (s.picker) { is_open = b }))
  click (value_set val now) s =
      let props = record (s.props) { model_value = val } in
      record s { props = props; picker = watch_value z props now s.picker }
  click (zone_set tz) s = record s { props = record (s.props) { time_zone = tz } }
  click year_before s = steps s (step_year (negsuc 0) s.picker)
  click year_after s = steps s (step_year (pos 1) s.picker)
  click month_before s = steps s (step_month (negsuc 0) s.picker)
  click month_after s = steps s (step_month (pos 1) s.picker)
  click years_before s = steps s (step_year (negsuc 11) s.picker)
  click years_after s = steps s (step_year (pos 12) s.picker)
  click quick_clicked s = emits s (select_quick_today z s.props s.picker)
  click (day_clicked iso) s = emits s (commit s.props iso s.picker)
  click (year_clicked text) s = emits s (commit s.props text s.picker)
  click (month_clicked m) s = emits s (select_month_cell s.props m s.picker)

  abbrev first : Shown → Bool
  first s = leb s.picker.view_year min_year

  abbrev last : Shown → Bool
  last s = leb max_year s.picker.view_year

  unfoldable pub offers : Click → Shown → Bool
  offers (toggled b now) s = true
  offers (value_set val now) s = bindable val
  offers (zone_set tz) s = true
  offers year_before s = s.picker.is_open && not (is_year s.props.kind) && not (first s)
  offers year_after s = s.picker.is_open && not (is_year s.props.kind) && not (last s)
  offers month_before s =
      s.picker.is_open && is_date s.props.kind && not (first s && s.picker.view_month == 1)
  offers month_after s =
      s.picker.is_open && is_date s.props.kind && not (last s && s.picker.view_month == 12)
  offers years_before s =
      s.picker.is_open && is_year s.props.kind && not (leb (year_start s.picker.view_year) min_year)
  offers years_after s =
      s.picker.is_open
      && is_year s.props.kind
      && not (leb max_year (year_start s.picker.view_year + 11))
  offers quick_clicked s = s.picker.is_open
  offers (day_clicked iso) s =
      let today = iso_date z s.picker.clock s.props.time_zone in
      s.picker.is_open
      && is_date s.props.kind
      && can_pick_day iso
          (calendar_days today s.props.model_value s.picker.view_year s.picker.view_month)
  offers (year_clicked text) s =
      let today = iso_date z s.picker.clock s.props.time_zone in
      s.picker.is_open
      && is_year s.props.kind
      && can_pick_year text
          (year_grid (quick_value year today) s.props.model_value s.picker.view_year)
  offers (month_clicked m) s = s.picker.is_open && is_month s.props.kind && (leb 1 m && leb m 12)

  unfoldable pub clicked : Shown → List Click → Shown
  unfolding click
  clicked s [] = s
  clicked s (c ∷ cs) = clicked (click c s) cs

  unfoldable pub all_offered : Shown → List Click → Bool
  unfolding click offers
  all_offered s [] = true
  all_offered s (c ∷ cs) = offers c s && all_offered (click c s) cs
