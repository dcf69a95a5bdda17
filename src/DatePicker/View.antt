-- ===== src/DatePicker/View.antt =====
-- The year and month that the popover shows, and the committed value.
use sbm.Base.{
  ℕ, zero, suc, ◌+◌, ◌*◌, ◌≤◌, ◌<◌, ◌≡◌, refl, ◌⊎◌, inl, inr, true, false, ◌∷◌, ◌++◌, arith,
  Bool-cases,
}
use sbm.Base.Text.{Text}
use sbm.Base.Int.{
  ℤ, pos, negsuc, pos_part, neg_part, ◌+ℤ◌, ◌-ℤ◌, ◌≤ℤ◌, +ℤ_parts, -ℤ_parts, int_laws,
}
use sbm.Base.Decimal.{
  decimal, pad2, decimal-IsDigit, pad2-IsDigit, number-decimal, number-pad2, split-digits,
  split-last,
}
use sbm.DatePicker.{
  min_year, max_year, in_range, iso_month, iso_day, Picker, sync_year, sync_month, sync_from_value,
  months_up, months_down, show_month, step_month,
}

pub in_range-bounds : (y : ℕ) → in_range y ≡ true → (min_year ≤ y) × (y ≤ max_year)
unfolding in_range
in_range-bounds y h = ground arith

in_range-outside : (y : ℕ) → in_range y ≡ false → (y < min_year) ⊎ (max_year < y)
unfolding in_range
in_range-outside y h = ground arith

sync-iso_day :
    (today : Text) (y m d : ℕ)
    → in_range y ≡ true
    → 1 ≤ m
    → m ≤ 12
    → (sync_year today (iso_day y m d) ≡ y) × (sync_month today (iso_day y m d) ≡ m)
unfolding sync_year sync_month iso_day
sync-iso_day today y m d r h l =
    let first =
      split-digits b'-' (decimal y) (pad2 m ++ b'-' ∷ pad2 d) (omega arith) (decimal-IsDigit y) in
    let second = split-digits b'-' (pad2 m) (pad2 d) (omega arith) (pad2-IsDigit m) in
    (rw (first, number-decimal, r) refl, rw (first, second, number-pad2) (ground arith))

sync-iso_month :
    (today : Text) (y m : ℕ)
    → in_range y ≡ true
    → 1 ≤ m
    → m ≤ 12
    → (sync_year today (iso_month y m) ≡ y) × (sync_month today (iso_month y m) ≡ m)
unfolding sync_year sync_month iso_month
sync-iso_month today y m r h l =
    let first = split-digits b'-' (decimal y) (pad2 m) (omega arith) (decimal-IsDigit y) in
    let second = split-last b'-' (pad2 m) (omega arith) (pad2-IsDigit m) in
    (rw (first, number-decimal, r) refl, rw (first, second, number-pad2) (ground arith))

-- Opened on a committed day or month, the popover shows the year and the month of that value, whatever
-- it showed before.
pub sync_from_value-iso :
    (today : Text) (p : Picker) (y m d : ℕ)
    → in_range y ≡ true
    → 1 ≤ m
    → m ≤ 12
    → (sync_from_value today (iso_day y m d) p ≡ record p { view_year = y; view_month = m })
      × (sync_from_value today (iso_month y m) p ≡ record p { view_year = y; view_month = m })
unfolding sync_from_value
sync_from_value-iso today p y m d r h l =
    let a = sync-iso_day today y m d r h l in
    let b = sync-iso_month today y m r h l in (rw (a.0, a.1) refl, rw (b.0, b.1) refl)

-- Twelve times the year and the month: the same for two pairs that name the same month.
abbrev SameMonth : ℤ → ℤ → ℤ → ℤ → Type 0
SameMonth m y m' y' =
    12 * pos_part y' + pos_part m' + (12 * neg_part y + neg_part m)
    ≡ 12 * neg_part y' + neg_part m' + (12 * pos_part y + pos_part m)

months_up_lem :
    (f : ℕ) (m y : ℤ)
    → (1 ≤ pos_part m) ⊎ (neg_part m < f)
    → (1 ≤ pos_part (months_up f m y).0) × SameMonth m y (months_up f m y).0 (months_up f m y).1
unfolding months_up
months_up_lem zero m y h = ground arith
months_up_lem (suc f) m y h =
    ground
      (arith, months_up_lem f (m +ℤ pos 12) (y -ℤ pos 1), +ℤ_parts m (pos 12), -ℤ_parts y (pos 1))

months_down_lem :
    (f : ℕ) (m y : ℤ)
    → 1 ≤ pos_part m
    → pos_part m ≤ 12 + f
    → (1 ≤ pos_part (months_down f m y).0)
      × (pos_part (months_down f m y).0 ≤ 12)
      × SameMonth m y (months_down f m y).0 (months_down f m y).1
unfolding months_down
months_down_lem zero m y h k = ground arith
months_down_lem (suc f) m y h k =
    ground
      (arith, months_down_lem f (m -ℤ pos 12) (y +ℤ pos 1), -ℤ_parts m (pos 12), +ℤ_parts y (pos 1))

-- The number of a month, counted through all years, and of the month some months later or earlier.
abbrev pub month_number : Picker → ℕ
month_number p = 12 * p.view_year + p.view_month

abbrev pub target : ℤ → Picker → ℤ
target delta p = pos (month_number p) +ℤ delta

-- The month that is that far away is shown, in a year that the views accept.
pub record Moved (delta : ℤ) (p q : Picker) : Type 0 where
  pub year_low : min_year ≤ q.view_year
  pub year_high : q.view_year ≤ max_year
  pub month_low : 1 ≤ q.view_month
  pub month_high : q.view_month ≤ 12
  pub number : pos (month_number q) ≡ target delta p
  pub same_open : q.is_open ≡ p.is_open
  pub same_clock : q.clock ≡ p.clock

show_month_lem :
    (delta m y : ℤ) (p : Picker)
    → 1 ≤ pos_part m
    → pos_part m ≤ 12
    → SameMonth (pos p.view_month +ℤ delta) (pos p.view_year) m y
    → Moved delta p (show_month (m, y) p)
      ⊎ ((show_month (m, y) p ≡ p)
          × ((target delta p ≤ℤ pos (12 * min_year))
              ⊎ (pos (12 * max_year + 13) ≤ℤ target delta p)))
unfolding show_month
show_month_lem delta (negsuc m) y p h l e = absurd (omega arith)
show_month_lem delta (pos m) (negsuc y) p h l e = inr (
  refl,
  inl (omega (arith, +ℤ_parts (pos p.view_month) delta, +ℤ_parts (pos (month_number p)) delta)),
)
show_month_lem delta (pos m) (pos y) p h l e = elim (Bool-cases (in_range y)) [
  | inl good ↦
      let shift : pos (12 * y + m) ≡ target delta p = omega int_laws in
      rw good (
        inl (record {
          year_low = (in_range-bounds y good).0;
          year_high = (in_range-bounds y good).1;
          month_low = h;
          month_high = l;
          number = shift;
          same_open = refl;
          same_clock = refl;
        }))
  | inr bad ↦ rw bad (inr (refl, out (in_range-outside y bad)))
]
  where
    out :
        (y < min_year) ⊎ (max_year < y)
        → (target delta p ≤ℤ pos (12 * min_year)) ⊎ (pos (12 * max_year + 13) ≤ℤ target delta p)
    out (inl low) = inl (omega int_laws)
    out (inr high) = inr (omega int_laws)

-- Stepping by any number of months, forward or back, shows the month that is that far away, and stays
-- where it is exactly when that month lies before 1970 or after 9999.
pub step_month_lem :
    (delta : ℤ) (p : Picker)
    → 1 ≤ p.view_month
    → p.view_month ≤ 12
    → Moved delta p (step_month delta p)
      ⊎ ((step_month delta p ≡ p)
          × ((target delta p ≤ℤ pos (12 * min_year))
              ⊎ (pos (12 * max_year + 13) ≤ℤ target delta p)))
unfolding step_month
step_month_lem delta p h l =
    let m = pos p.view_month +ℤ delta in
    let up = months_up_lem (suc (neg_part m)) m (pos p.view_year) (inr (omega arith)) in
    let (m', y') = months_up (suc (neg_part m)) m (pos p.view_year) in
    let down = months_down_lem (pos_part m') m' y' up.0 (omega arith) in
    show_month_lem delta _ _ p down.0 down.1 (omega arith)
