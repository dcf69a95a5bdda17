-- ===== src/DatePicker/Month.antt =====
-- The grid of `calendarDays` against the calendar.
use sbm.Base.{ℕ, zero, suc, ◌+◌, ◌%◌, ◌≤◌, ◌≡◌, refl, ◌∙◌, true, map, arith}
use sbm.Base.Text.{Text}
use sbm.Calendar.{days_in_month, weekday, ordinal, next_day}
use sbm.Calendar.Laws.{IsDay, days_in_month_bounds, number_of, ordinal-next_day}
use sbm.DatePicker.{in_range}
use sbm.DatePicker.Grid.{prev_year, prev_month, next_year, next_month, start_offset, calendar_days}
use sbm.DatePicker.View.{in_range-bounds}
use sbm.DatePicker.Walk.{
  day_of, walk, days_back, first_monday, next_day_end, round_trip, offset_bound,
}
use sbm.DatePicker.Loops.{shown_as, grid-offset}

days_back-number :
    (y m n : ℕ) → 2 ≤ y → 1 ≤ m → m ≤ 12 → n ≤ 7 → number_of (days_back y m n) + n ≡ ordinal y m 1
unfolding ordinal
days_back-number y m zero p h l b = omega arith
days_back-number y m (suc j) p h l b =
    let bounds = days_in_month_bounds (prev_year y m) (prev_month m) in
    let last =
      day_of (prev_year y m) (prev_month m) (days_in_month (prev_year y m) (prev_month m)) in
    let valid : IsDay last = ground arith in
    let back : day_of (next_year (prev_year y m) (prev_month m)) (next_month (prev_month m)) 1
        ≡ day_of y m 1 =
      ground (arith, round_trip y m (omega arith) h l) in
    let next : next_day last ≡ day_of y m 1 = next_day_end (prev_year y m) (prev_month m) ∙ back in
    let count : number_of (day_of y m 1) ≡ suc (number_of last) =
      rw next at (ordinal-next_day last valid) in
    omega arith

start_offset-ordinal : (y m : ℕ) → start_offset y m ≡ (ordinal y m 1 % 7 + 6) % 7
unfolding start_offset weekday
start_offset-ordinal y m = refl

first_monday-weekday : (y m : ℕ) → 2 ≤ y → 1 ≤ m → m ≤ 12 → number_of (first_monday y m) % 7 ≡ 1
first_monday-weekday y m p h l =
    let first = days_back-number y m (start_offset y m) p h l (omega (arith, offset_bound y m)) in
    monday _ _ (start_offset y m) first (start_offset-ordinal y m)
  where
    monday : (a b n : ℕ) → a + n ≡ b → n ≡ (b % 7 + 6) % 7 → a % 7 ≡ 1
    monday a b n e k = omega arith

-- In the years that the views accept, the grid of a month shows 42 days, one after another from the
-- Monday on that lies at most six days before the first. A day's cell has its iso text; it is outside
-- exactly when its month is another, disabled exactly when its year is out of range, and today's and
-- the value's cells are marked by their texts.
pub calendar_days-walk :
    (today value : Text) (y m : ℕ)
    → in_range y ≡ true
    → 1 ≤ m
    → m ≤ 12
    → (calendar_days today value y m ≡ map (shown_as today value m) (walk 42 (first_monday y m)))
      × (number_of (first_monday y m) % 7 ≡ 1)
      × (number_of (first_monday y m) ≤ ordinal y m 1)
      × (ordinal y m 1 ≤ number_of (first_monday y m) + 6)
calendar_days-walk today value y m r h l =
    let (low, high) = in_range-bounds y r in
    let count =
      days_back-number y m (start_offset y m) (omega arith) h l (omega (arith, offset_bound y m)) in
    (
      grid-offset today value y m (start_offset y m) refl r (omega arith) h l,
      first_monday-weekday y m (omega arith) h l,
      omega arith,
      omega (arith, offset_bound y m),
    )
