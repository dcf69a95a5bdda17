-- ===== src/DatePicker/Commits.antt =====
-- What a picker can commit, whatever is clicked of what it offers.
use sbm.Base.{
  ℕ, ◌≤◌, ◌≡◌, refl, Bool, true, ◌&&◌, Option, List, [], ◌∷◌, leb, arith, All, if◌then◌else◌, take,
  drop, Bool-cases, inl, inr,
}
use sbm.Base.Text.{Text, text_eq}
use sbm.Base.Int.{ℤ, pos, negsuc}
use sbm.Base.Decimal.{decimal, pad2, split, decimal_four, pad2_two, number-decimal, number-pad2}
use sbm.Selection.{valid_year, valid_month, valid_day}
use sbm.Selection.Laws.{valid-iso}
use sbm.DatePicker.{
  in_range, iso_month, iso_day, Zones, Kind, date, month, year, Props, Picker, part_at, iso_date,
  year_of_today, month_of_today, sync_year, sync_month, sync_from_value, watch_value, setup,
  step_month, step_year, commit, select_month_cell, select_quick_today, quick_value,
}
use sbm.DatePicker.Grid.{calendar_days, year_start, years_from, year_grid}
use sbm.DatePicker.View.{in_range-bounds, step_month_lem}
use sbm.DatePicker.Picks.{calendar_days-Picks, can_pick_day-valid, years_from-valid}
use sbm.DatePicker.Clicks.{
  Shown, Click, toggled, value_set, zone_set, year_before, year_after, month_before, month_after,
  years_before, years_after, quick_clicked, day_clicked, year_clicked, month_clicked, emits, opened,
  bindable, click, can_pick_day, can_pick_year, is_date, is_month, is_year, offers, clicked,
  all_offered,
}

-- A day that is written as `isoDate` writes it, in a year of the range.
pub record IsToday (t : Text) : Type 0 where
  pub y : ℕ
  pub m : ℕ
  pub d : ℕ
  pub year_in : in_range y ≡ true
  pub month_low : 1 ≤ m
  pub month_high : m ≤ 12
  pub day_low : 1 ≤ d
  pub day_high : d ≤ 31
  pub text : t ≡ iso_day y m d

-- What the view that has the picker sends.
abbrev pub valid : Kind → Text → Bool
valid date = valid_day
valid month = valid_month
valid year = valid_year

abbrev pub Fits : Picker → Type 0
Fits p = (in_range p.view_year ≡ true) × (1 ≤ p.view_month) × (p.view_month ≤ 12)

-- The parts of its text.
take-iso_day :
    (y m d : ℕ)
    → in_range y ≡ true
    → m ≤ 12
    → (take 4 (iso_day y m d) ≡ decimal y)
      × (take 2 (drop 5 (iso_day y m d)) ≡ pad2 m)
      × (take 7 (iso_day y m d) ≡ iso_month y m)
unfolding iso_day iso_month
take-iso_day y m d r h =
    let (low, high) = in_range-bounds y r in
    rw (decimal_four y (omega arith) high, pad2_two m (omega arith)) (refl, refl, refl)

today_year : (t : Text) (i : IsToday t) → year_of_today t ≡ i.y
unfolding year_of_today
today_year t i =
    let (a, b, c) = take-iso_day i.y i.m i.d i.year_in i.month_high in
    rw (i.text, a, number-decimal i.y) refl

today_month : (t : Text) (i : IsToday t) → month_of_today t ≡ i.m
unfolding month_of_today
today_month t i =
    let (a, b, c) = take-iso_day i.y i.m i.d i.year_in i.month_high in
    rw (i.text, b, number-pad2 i.m) refl

quick-valid : (k : Kind) (t : Text) → IsToday t → valid k (quick_value k t) ≡ true
unfolding quick_value
quick-valid date t i =
    rw i.text (valid-iso i.y i.m i.d i.year_in i.month_low i.month_high i.day_low i.day_high).2
quick-valid month t i =
    let (a, b, c) = take-iso_day i.y i.m i.d i.year_in i.month_high in
    rw (i.text, c) (valid-iso i.y i.m i.d i.year_in i.month_low i.month_high i.day_low i.day_high).1
quick-valid year t i =
    let (a, b, c) = take-iso_day i.y i.m i.d i.year_in i.month_high in
    rw (i.text, a) (valid-iso i.y i.m i.d i.year_in i.month_low i.month_high i.day_low i.day_high).0

step_year-Fits : (delta : ℤ) (p : Picker) → Fits p → Fits (step_year delta p)
unfolding in_range step_year
step_year-Fits delta p (a, b, c) = (ground arith, b, c)

step_month-Fits : (delta : ℤ) (p : Picker) → Fits p → Fits (step_month delta p)
unfolding in_range
step_month-Fits delta p (a, b, c) = elim (step_month_lem delta p b c) [
  | inl moved ↦ (ground (arith, moved.year_low, moved.year_high), moved.month_low, moved.month_high)
  | inr (same, _) ↦ rw same (a, b, c)
]

kept_year : (n t : ℕ) → in_range t ≡ true → in_range (if in_range n then n else t) ≡ true
kept_year n t h = elim (Bool-cases (in_range n)) [ inl good ↦ rw good good | inr bad ↦ rw bad h ]

kept_month :
    (n t : ℕ)
    → (1 ≤ t) × (t ≤ 12)
    → (1 ≤ (if leb 1 n && leb n 12 then n else t)) × ((if leb 1 n && leb n 12 then n else t) ≤ 12)
kept_month n t h = (ground arith, ground arith)

sync-Fits : (today val : Text) (p : Picker) → IsToday today → Fits (sync_from_value today val p)
unfolding sync_from_value sync_year sync_month
sync-Fits today val p i =
    let (low, high) =
      kept_month (part_at (split b'-' val) 1) (month_of_today today)
        (rw (today_month today i) (i.month_low, i.month_high)) in
    (
      kept_year (part_at (split b'-' val) 0) (year_of_today today)
          (rw (today_year today i) i.year_in),
      low,
      high,
    )

-- What every run keeps: a month of the range is shown, and everything that was emitted is valid.
record Keeps (k : Kind) (s : Shown) : Type 0 where
  pub fits : Fits s.picker
  pub same_kind : s.props.kind ≡ k
  pub all_valid : All (λ t. valid k t ≡ true) s.emitted

commit-Keeps :
    (k : Kind) (s : Shown) (val : Text)
    → valid s.props.kind val ≡ true
    → Keeps k s
    → Keeps k (emits s (commit s.props val s.picker))
unfolding commit
commit-Keeps k s val v h = elim (Bool-cases (text_eq val s.props.model_value)) [
  | inl same ↦ rw same (record { fits = h.fits; same_kind = h.same_kind; all_valid = h.all_valid })
  | inr other ↦ rw other (record {
    fits = h.fits;
    same_kind = h.same_kind;
    all_valid = (rw⁻¹ h.same_kind v, h.all_valid);
  })
]

-- The tests of the template.
and_all : (a b c : Bool) → (a && b && c) ≡ true → (a ≡ true) × (b ≡ true) × (c ≡ true)
and_all a b c h = ground arith

date_kind : (k : Kind) → is_date k ≡ true → k ≡ date
date_kind date e = refl
date_kind month e = cc e
date_kind year e = cc e

month_kind : (k : Kind) → is_month k ≡ true → k ≡ month
month_kind date e = cc e
month_kind month e = refl
month_kind year e = cc e

year_kind : (k : Kind) → is_year k ≡ true → k ≡ year
year_kind date e = cc e
year_kind month e = cc e
year_kind year e = refl

module _ (z : Zones) (days : (now : ℕ) (tz : Option Text) → IsToday (iso_date z now tz)) where
  watch-Fits : (props : Props) (now : ℕ) (p : Picker) → Fits p → Fits (watch_value z props now p)
  unfolding watch_value
  watch-Fits props now p f = elim (Bool-cases p.is_open) [
    | inl shown ↦ rw shown (
        sync-Fits (iso_date z now props.time_zone) props.model_value (record p { clock = now })
          (days now props.time_zone))
    | inr hidden ↦ rw hidden f
  ]

  click-Keeps :
      (k : Kind) (c : Click) (s : Shown) → offers z c s ≡ true → Keeps k s → Keeps k (click z c s)
  unfolding click offers select_month_cell select_quick_today year_grid
  click-Keeps k (toggled b now) s o h = record {
    fits = watch-Fits s.props now (record (s.picker) { is_open = b }) h.fits;
    same_kind = h.same_kind;
    all_valid = h.all_valid;
  }
  click-Keeps k (value_set val now) s o h = record {
    fits = watch-Fits (record (s.props) { model_value = val }) now s.picker h.fits;
    same_kind = h.same_kind;
    all_valid = h.all_valid;
  }
  click-Keeps k (zone_set tz) s o h = record {
    fits = h.fits;
    same_kind = h.same_kind;
    all_valid = h.all_valid;
  }
  click-Keeps k year_before s o h = record {
    fits = step_year-Fits (negsuc 0) s.picker h.fits;
    same_kind = h.same_kind;
    all_valid = h.all_valid;
  }
  click-Keeps k year_after s o h = record {
    fits = step_year-Fits (pos 1) s.picker h.fits;
    same_kind = h.same_kind;
    all_valid = h.all_valid;
  }
  click-Keeps k month_before s o h = record {
    fits = step_month-Fits (negsuc 0) s.picker h.fits;
    same_kind = h.same_kind;
    all_valid = h.all_valid;
  }
  click-Keeps k month_after s o h = record {
    fits = step_month-Fits (pos 1) s.picker h.fits;
    same_kind = h.same_kind;
    all_valid = h.all_valid;
  }
  click-Keeps k years_before s o h = record {
    fits = step_year-Fits (negsuc 11) s.picker h.fits;
    same_kind = h.same_kind;
    all_valid = h.all_valid;
  }
  click-Keeps k years_after s o h = record {
    fits = step_year-Fits (pos 12) s.picker h.fits;
    same_kind = h.same_kind;
    all_valid = h.all_valid;
  }
  click-Keeps k quick_clicked s o h =
      commit-Keeps k s (quick_value s.props.kind (iso_date z s.picker.clock s.props.time_zone))
        (quick-valid s.props.kind (iso_date z s.picker.clock s.props.time_zone)
          (days s.picker.clock s.props.time_zone))
        h
  click-Keeps k (day_clicked iso) s o h =
      let (y, low, high) = h.fits in
      let today = iso_date z s.picker.clock s.props.time_zone in
      let cells = calendar_days today s.props.model_value s.picker.view_year s.picker.view_month in
      let (shown, of_kind, free) =
        and_all s.picker.is_open (is_date s.props.kind) (can_pick_day iso cells) o in
      let good =
        can_pick_day-valid iso cells
          (calendar_days-Picks today s.props.model_value s.picker.view_year s.picker.view_month y
            low high)
          free in
      commit-Keeps k s iso (rw (date_kind s.props.kind of_kind) good) h
  click-Keeps k (year_clicked text) s o h =
      let today = iso_date z s.picker.clock s.props.time_zone in
      let current = quick_value year today in
      let cells = years_from current s.props.model_value (year_start s.picker.view_year) 12 in
      let (shown, of_kind, free) =
        and_all s.picker.is_open (is_year s.props.kind) (can_pick_year text cells) o in
      let good =
        years_from-valid current s.props.model_value text (year_start s.picker.view_year) 12 free in
      commit-Keeps k s text (rw (year_kind s.props.kind of_kind) good) h
  click-Keeps k (month_clicked m) s o h =
      let (y, low, high) = h.fits in
      let (shown, of_kind, free) =
        and_all s.picker.is_open (is_month s.props.kind) (leb 1 m && leb m 12) o in
      let good =
        (valid-iso s.picker.view_year m 1 y (ground arith) (ground arith) (omega arith)
          (omega arith)).1 in
      commit-Keeps k s (iso_month s.picker.view_year m) (rw (month_kind s.props.kind of_kind) good)
        h

  clicked-Keeps :
      (k : Kind) (s : Shown) (cs : List Click)
      → Keeps k s
      → all_offered z s cs ≡ true
      → Keeps k (clicked z s cs)
  unfolding clicked all_offered
  clicked-Keeps k s [] h o = h
  clicked-Keeps k s (c ∷ cs) h o =
      let (now, later) = both (offers z c s) (all_offered z (click z c s) cs) o in
      clicked-Keeps k (click z c s) cs (click-Keeps k c s now h) later
    where
      both : (a b : Bool) → (a && b) ≡ true → (a ≡ true) × (b ≡ true)
      both a b h = ground arith

  opened-Keeps : (props : Props) (now : ℕ) → Keeps props.kind (opened z props now)
  unfolding opened setup
  opened-Keeps props now =
      let i = days now props.time_zone in
      let today = iso_date z now props.time_zone in
      record {
        fits = (
          rw (today_year today i) i.year_in,
          rw (today_month today i) i.month_low,
          rw (today_month today i) i.month_high,
        );
        same_kind = refl;
        all_valid = tt;
      }

  -- Where every zone and moment has a day in the years from 1970 to 9999: whatever is clicked of what the picker offers,
  -- and whatever zones and whatever values of digits and dashes it is given, at first and meanwhile, it shows a month of those years, and all that it emits passes
  -- the test of the views, be it a day, a month or a year that they ask for.
  pub clicked-valid :
      (props : Props) (now : ℕ) (cs : List Click)
      → bindable props.model_value ≡ true
      → all_offered z (opened z props now) cs ≡ true
      → (in_range (clicked z (opened z props now) cs).picker.view_year ≡ true)
        × (1 ≤ (clicked z (opened z props now) cs).picker.view_month)
        × ((clicked z (opened z props now) cs).picker.view_month ≤ 12)
        × All (λ t. valid props.kind t ≡ true) (clicked z (opened z props now) cs).emitted
  clicked-valid props now cs digits o =
      let k = clicked-Keeps props.kind (opened z props now) cs (opened-Keeps props now) o in
      let (y, low, high) = k.fits in (y, low, high, k.all_valid)
