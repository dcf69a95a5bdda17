-- ===== src/DatePicker/Loops.antt =====
-- The cells of `calendarDays`, loop by loop, as a walk from day to day.
use sbm.Base.{
  ℕ, zero, suc, ◌+◌, ◌-◌, ◌≤◌, ◌≡◌, refl, ap, true, false, not, ◌++◌, map, ◌==◌, length-append,
  arith,
}
use mathlib.Core.List.{append_assoc}
use sbm.Base.Text.{Text}
use sbm.Calendar.{days_in_month, Day}
use sbm.Calendar.Laws.{days_in_month_bounds}
use sbm.DatePicker.{in_range}
use sbm.DatePicker.Grid.{
  Cell, cell, from_day, prev_year, prev_month, next_year, next_month, start_offset, calendar_days,
}
use sbm.DatePicker.Walk.{day_of, walk, first_monday, offset_bound, other_month, round_trip}
use sbm.DatePicker.Cells.{
  length-leading, length-from_day, from_day-zero, leading-from_day, from_day-walk,
  from_day-append-walk,
}

module _ (today value : Text) where
  -- What the grid of a month shows of a day.
  abbrev pub shown_as : ℕ → Day → Cell
  shown_as m t = cell today value t.year t.month (not (t.month == m)) (not (in_range t.year)) t.day

  shows_inside :
      (y m d : ℕ)
      → in_range y ≡ true
      → shown_as m (day_of y m d) ≡ cell today value y m false false d
  shows_inside y m d r = ground (arith, ap (λ b. cell today value y m (not (m == m)) (not b) d) r)

  shows_next :
      (y m d : ℕ)
      → 1 ≤ m
      → m ≤ 12
      → shown_as m (day_of (next_year y m) (next_month m) d)
        ≡ cell today value (next_year y m) (next_month m) true (not (in_range (next_year y m))) d
  shows_next y m d h k = rw ((other_month m h k).1) refl

  shows_prev :
      (y m d : ℕ)
      → 1 ≤ m
      → m ≤ 12
      → shown_as m (day_of (prev_year y m) (prev_month m) d)
        ≡ cell today value (prev_year y m) (prev_month m) true (not (in_range (prev_year y m))) d
  shows_prev y m d h k = rw ((other_month m h k).0) refl

  -- The days of a month and k of the next.
  month-walk :
      (y m n k : ℕ)
      → in_range y ≡ true
      → 1 ≤ m
      → m ≤ 12
      → suc n ≡ days_in_month y m
      → k ≤ 28
      → from_day today value y m false false 1 (suc n)
          ++ from_day today value
              (next_year y m)
              (next_month m)
              true
              (not (in_range (next_year y m)))
              1
              k
        ≡ map (shown_as m) (walk (suc (n + k)) (day_of y m 1))
  month-walk y m n k r h l e b =
      let bounds = days_in_month_bounds (next_year y m) (next_month m) in
      rw
        (from_day-walk today value (shown_as m) (next_year y m) (next_month m) true
          (not (in_range (next_year y m))) (λ d. shows_next y m d h l) 1 k (omega arith))
        (from_day-append-walk today value (shown_as m) y m false false (λ d. shows_inside y m d r) 1
          n k (omega arith))

  -- j + 1 days of the month before, and k from the first on.
  before-walk :
      (y m j k : ℕ)
      → 1 ≤ y
      → 1 ≤ m
      → m ≤ 12
      → j ≤ 27
      → from_day today value
            (prev_year y m)
            (prev_month m)
            true
            (not (in_range (prev_year y m)))
            (days_in_month (prev_year y m) (prev_month m) - j)
            (suc j)
          ++ map (shown_as m) (walk k (day_of y m 1))
        ≡ map (shown_as m) (
            walk (suc (j + k)) (
              day_of
                (prev_year y m)
                (prev_month m)
                (days_in_month (prev_year y m) (prev_month m) - j)))
  before-walk y m j k p h l c =
      let bounds = days_in_month_bounds (prev_year y m) (prev_month m) in
      let back : day_of (next_year (prev_year y m) (prev_month m)) (next_month (prev_month m)) 1
          ≡ day_of y m 1 =
        ground (arith, round_trip y m p h l) in
      rw (← back) (
        from_day-append-walk today value (shown_as m) (prev_year y m) (prev_month m) true
          (not (in_range (prev_year y m))) (λ d. shows_prev y m d h l) _ j k (omega arith))

  calendar_days_parts :
      (y m n : ℕ)
      → start_offset y m ≡ n
      → calendar_days today value y m
        ≡ from_day today value
            (prev_year y m)
            (prev_month m)
            true
            (not (in_range (prev_year y m)))
            (days_in_month (prev_year y m) (prev_month m) + 1 - n)
            n
          ++ (from_day today value y m false false 1 (days_in_month y m)
              ++ from_day today value
                  (next_year y m)
                  (next_month m)
                  true
                  (not (in_range (next_year y m)))
                  1
                  (42 - (n + days_in_month y m)))
  unfolding calendar_days
  calendar_days_parts y m n e =
      let bounds = days_in_month_bounds (prev_year y m) (prev_month m) in
      let small = offset_bound y m in
      rw
        (
          length-append,
          length-leading today value,
          length-from_day today value,
          leading-from_day today value (prev_year y m) (prev_month m)
              (days_in_month (prev_year y m) (prev_month m)) (start_offset y m) (omega arith),
          append_assoc,
          e,
        )
        refl

  rest-bound :
      (y m n : ℕ)
      → start_offset y m ≡ n
      → (42 - (n + days_in_month y m) ≤ 28) × (n + days_in_month y m ≤ 42)
  rest-bound y m n e = omega (arith, offset_bound y m, days_in_month_bounds y m)

  -- The days of a month and the trailing ones.
  tail-walk :
      (y m k c : ℕ)
      → in_range y ≡ true
      → 1 ≤ m
      → m ≤ 12
      → k ≤ 28
      → c ≡ days_in_month y m + k
      → from_day today value y m false false 1 (days_in_month y m)
          ++ from_day today value
              (next_year y m)
              (next_month m)
              true
              (not (in_range (next_year y m)))
              1
              k
        ≡ map (shown_as m) (walk c (day_of y m 1))
  tail-walk y m k c r h l b e =
      let n = days_in_month y m - 1 in
      let bounds = days_in_month_bounds y m in
      let some_days : suc n ≡ days_in_month y m = omega arith in
      let count : c ≡ suc (n + k) = omega arith in
      rw count (rw some_days at (month-walk y m n k r h l some_days b))

  pub grid-offset :
      (y m n : ℕ)
      → start_offset y m ≡ n
      → in_range y ≡ true
      → 1 ≤ y
      → 1 ≤ m
      → m ≤ 12
      → calendar_days today value y m ≡ map (shown_as m) (walk 42 (first_monday y m))
  grid-offset y m zero e r p h l =
      let b = rest-bound y m 0 e in
      rw (calendar_days_parts y m 0 e, from_day-zero today value, e)
        (tail-walk y m _ 42 r h l b.0 (omega arith))
  grid-offset y m (suc j) e r p h l =
      let b = rest-bound y m (suc j) e in
      let k = 42 - suc j in
      let count : 42 ≡ suc (j + k) = omega (arith, offset_bound y m) in
      let first : days_in_month (prev_year y m) (prev_month m) + 1 - suc j
          ≡ days_in_month (prev_year y m) (prev_month m) - j =
        omega arith in
      rw
        (
          calendar_days_parts y m (suc j) e,
          e,
          first,
          tail-walk y m (42 - (suc j + days_in_month y m)) k r h l b.0 (omega arith),
        )
        (rw (← count) at (before-walk y m j k p h l (omega (arith, offset_bound y m))))
