-- ===== src/DatePicker/Cells.antt =====
-- The two loops of `calendarDays` over the days of a month.
use sbm.Base.{
  ℕ, zero, suc, ◌+◌, ◌-◌, ◌≤◌, ◌≡◌, refl, ap, Bool, true, not, [], ◌∷◌, ◌++◌, map, length, arith,
}
use sbm.Base.Text.{Text}
use sbm.Calendar.{days_in_month, Day}
use sbm.DatePicker.{in_range}
use sbm.DatePicker.Grid.{Cell, cell, leading, from_day, next_year, next_month}
use sbm.DatePicker.Walk.{day_of, walk, next_day_within, next_day_end}

module _ (today value : Text) where
  pub length-leading : (y m last n : ℕ) → length (leading today value y m last n) ≡ n
  unfolding leading
  length-leading y m last zero = refl
  length-leading y m last (suc n) = ap suc (length-leading y m last n)

  pub length-from_day :
      (y m : ℕ) (o b : Bool) (d n : ℕ) → length (from_day today value y m o b d n) ≡ n
  unfolding from_day
  length-from_day y m o b d zero = refl
  length-from_day y m o b d (suc n) = ap suc (length-from_day y m o b (suc d) n)

  pub from_day-zero : (y m : ℕ) (o b : Bool) (d : ℕ) → from_day today value y m o b d 0 ≡ []
  unfolding from_day
  from_day-zero y m o b d = refl

  pub leading-from_day :
      (y m last n : ℕ)
      → n ≤ last
      → leading today value y m last n
        ≡ from_day today value y m true (not (in_range y)) (last + 1 - n) n
  unfolding leading from_day
  leading-from_day y m last zero h = refl
  leading-from_day y m last (suc n) h =
      let e : last + 1 - suc n ≡ last - n = omega arith in
      let e' : last + 1 - n ≡ suc (last - n) = omega arith in
      rw (e, leading-from_day y m last n (omega arith), e') refl

  module _ (f : Day → Cell) (y m : ℕ) (o b : Bool)
      (shows : (d : ℕ) → f (day_of y m d) ≡ cell today value y m o b d) where
    pub from_day-walk :
        (d n : ℕ)
        → d + n ≤ days_in_month y m + 1
        → from_day today value y m o b d n ≡ map f (walk n (day_of y m d))
    unfolding from_day walk
    from_day-walk d zero h = refl
    from_day-walk d (suc zero) h = rw shows refl
    from_day-walk d (suc (suc n)) h =
        rw (shows, next_day_within y m d (omega arith))
          (ap (cell today value y m o b d ∷◌) (from_day-walk (suc d) (suc n) (omega arith)))

    pub from_day-append-walk :
        (d n k : ℕ)
        → d + n ≡ days_in_month y m
        → from_day today value y m o b d (suc n)
            ++ map f (walk k (day_of (next_year y m) (next_month m) 1))
          ≡ map f (walk (suc (n + k)) (day_of y m d))
    unfolding from_day walk
    from_day-append-walk d zero k h =
        let last : d ≡ days_in_month y m = omega arith in
        let none_more : 0 + k ≡ k = omega arith in
        rw (none_more, shows, last, next_day_end y m) refl
    from_day-append-walk d (suc n) k h =
        let count : suc n + k ≡ suc (n + k) = omega arith in
        rw (count, shows, next_day_within y m d (omega arith))
          (ap (cell today value y m o b d ∷◌) (from_day-append-walk (suc d) n k (omega arith)))
