-- ===== src/DatePicker/Picks.antt =====
-- The cells that a picker offers have texts that the views send.
use sbm.Base.{
  ℕ, zero, suc, ◌+◌, ◌-◌, ◌≤◌, ◌≡◌, refl, ◌⊎◌, All-append, length-append, Bool, true, false, ◌&&◌,
  ◌||◌, not, List, [], ◌∷◌, ◌++◌, arith, All, length, inl, inr,
}
use sbm.Base.Text.{Text, text_eq, text_eq_sound}
use sbm.Base.Decimal.{decimal}
use sbm.Calendar.{days_in_month}
use sbm.Calendar.Laws.{days_in_month_bounds}
use sbm.Selection.{valid_year, valid_day}
use sbm.Selection.Laws.{valid-iso}
use sbm.DatePicker.{in_range}
use sbm.DatePicker.Grid.{
  Cell, cell, prev_year, prev_month, next_year, next_month, start_offset, leading, from_day,
  calendar_days, years_from,
}
use sbm.DatePicker.Walk.{offset_bound}
use sbm.DatePicker.Cells.{length-leading, length-from_day}
use sbm.DatePicker.Clicks.{can_pick_day, can_pick_year}

true_of : (b : Bool) → not b ≡ false → b ≡ true
true_of true e = refl
true_of false e = cc e

picked : (a b r : Bool) → ((a && not b) || r) ≡ true → ((a ≡ true) × (b ≡ false)) ⊎ (r ≡ true)
picked true true r e = inr e
picked true false r e = inl (refl, refl)
picked false b r e = inr e

-- The cells of the grids that are not disabled.
abbrev pub Picks : Cell → Type 0
Picks c = c.disabled ≡ false → valid_day c.iso ≡ true

module _ (today value : Text) (y m : ℕ) (low : 1 ≤ m) (high : m ≤ 12) where
  cell-Picks :
      (o b : Bool) (d : ℕ)
      → (b ≡ false → in_range y ≡ true)
      → 1 ≤ d
      → d ≤ 31
      → Picks (cell today value y m o b d)
  unfolding cell
  cell-Picks o b d r h k e = (valid-iso y m d (r e) low high h k).2

  from_day-Picks :
      (o b : Bool) (d n : ℕ)
      → (b ≡ false → in_range y ≡ true)
      → 1 ≤ d
      → d + n ≤ 32
      → All Picks (from_day today value y m o b d n)
  unfolding from_day
  from_day-Picks o b d zero r h k = tt
  from_day-Picks o b d (suc n) r h k = (
    cell-Picks o b d r h (omega arith),
    from_day-Picks o b (suc d) n r (omega arith) (omega arith),
  )

  leading-Picks :
      (last n : ℕ) → n + 1 ≤ last → last ≤ 31 → All Picks (leading today value y m last n)
  unfolding leading
  leading-Picks last zero h k = tt
  leading-Picks last (suc n) h k = (
    cell-Picks true (not (in_range y)) (last - n) (λ e. true_of (in_range y) e) (omega arith)
        (omega arith),
    leading-Picks last n (omega arith) k,
  )

pub calendar_days-Picks :
    (today value : Text) (y m : ℕ)
    → in_range y ≡ true
    → 1 ≤ m
    → m ≤ 12
    → All Picks (calendar_days today value y m)
unfolding calendar_days
calendar_days-Picks today value y m r low high =
    let py = prev_year y m in
    let pm = prev_month m in
    let n = start_offset y m in
    let last = days_in_month py pm in
    let (few, many) = days_in_month_bounds py pm in
    let (least, most) = days_in_month_bounds y m in
    let before = leading today value py pm last n in
    let days = from_day today value y m false false 1 (days_in_month y m) in
    let after =
      from_day today value (next_year y m) (next_month m) true (not (in_range (next_year y m))) 1
        (42 - length (before ++ days)) in
    let count : length (before ++ days) ≡ n + days_in_month y m =
      rw
        (
          length-append before days,
          length-leading today value py pm last n,
          length-from_day today value y m false false 1 (days_in_month y m),
        )
        refl in
    All-append Picks (before ++ days) after
      (All-append Picks before days
        (leading-Picks today value py pm (ground arith) (ground arith) last n
          (omega (arith, offset_bound y m)) many)
        (from_day-Picks today value y m low high false false 1 (days_in_month y m) (λ e. r)
          (omega arith) (omega arith)))
      (from_day-Picks today value (next_year y m) (next_month m) (ground arith) (ground arith) true
        (not (in_range (next_year y m))) 1 (42 - length (before ++ days))
        (λ e. true_of (in_range (next_year y m)) e) (omega arith) (omega arith))

pub can_pick_day-valid :
    (iso : Text) (cs : List Cell) → All Picks cs → can_pick_day iso cs ≡ true → valid_day iso ≡ true
can_pick_day-valid iso [] h e = absurd (cc e)
can_pick_day-valid iso (c ∷ cs) (h, hs) e =
    elim (picked (text_eq c.iso iso) c.disabled (can_pick_day iso cs) e) [
      | inl (same, free) ↦ rw⁻¹ (text_eq_sound c.iso iso same) (h free)
      | inr more ↦ can_pick_day-valid iso cs hs more
    ]

pub years_from-valid :
    (current value text : Text) (y n : ℕ)
    → can_pick_year text (years_from current value y n) ≡ true
    → valid_year text ≡ true
unfolding years_from
years_from-valid current value text y zero e = absurd (cc e)
years_from-valid current value text y (suc n) e =
    elim (picked (text_eq (decimal y) text) (not (in_range y))
      (can_pick_year text (years_from current value (suc y) n)) e) [
        | inl (same, free) ↦
            rw⁻¹ (text_eq_sound (decimal y) text same)
              (valid-iso y 1 1 (true_of (in_range y) free) (omega arith) (omega arith) (omega arith)
                (omega arith)).0
        | inr more ↦ years_from-valid current value text (suc y) n more
      ]
