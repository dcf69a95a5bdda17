-- ===== src/DatePicker/Walk.antt =====
-- Walks from day to day, and the months around a month.
use sbm.Base.{ℕ, zero, suc, ◌-◌, ◌≤◌, ◌≡◌, true, false, not, List, [], ◌∷◌, ◌==◌, arith}
use sbm.Calendar.{days_in_month, Day, next_day}
use sbm.DatePicker.Grid.{prev_year, prev_month, next_year, next_month, start_offset}

abbrev pub day_of : ℕ → ℕ → ℕ → Day
day_of y m d = record { year = y; month = m; day = d }

-- Some days one after another.
unfoldable pub walk : ℕ → Day → List Day
walk zero t = []
walk (suc n) t = t ∷ walk n (next_day t)

-- The Monday on or before the first of a month, which lies that many days before it.
abbrev pub days_back : ℕ → ℕ → ℕ → Day
days_back y m zero = day_of y m 1
days_back y m (suc j) =
    day_of (prev_year y m) (prev_month m) (days_in_month (prev_year y m) (prev_month m) - j)

abbrev pub first_monday : ℕ → ℕ → Day
first_monday y m = days_back y m (start_offset y m)

pub next_day_within :
    (y m d : ℕ) → suc d ≤ days_in_month y m → next_day (day_of y m d) ≡ day_of y m (suc d)
unfolding next_day
next_day_within y m d h = ground arith

pub next_day_end :
    (y m : ℕ) → next_day (day_of y m (days_in_month y m)) ≡ day_of (next_year y m) (next_month m) 1
unfolding next_day
next_day_end y m = ground arith

pub offset_bound : (y m : ℕ) → start_offset y m ≤ 6
unfolding start_offset
offset_bound y m = omega arith

pub other_month :
    (m : ℕ)
    → 1 ≤ m
    → m ≤ 12
    → (not (prev_month m == m) ≡ true) × (not (next_month m == m) ≡ true) × (not (m == m) ≡ false)
other_month m h k = ground arith

pub round_trip :
    (y m : ℕ)
    → 1 ≤ y
    → 1 ≤ m
    → m ≤ 12
    → (next_year (prev_year y m) (prev_month m) ≡ y) × (next_month (prev_month m) ≡ m)
round_trip y m p h k = ground arith
