-- ===== src/DatePicker.antt =====
-- The script of web/src/components/DatePickerControl.vue: the view that the popover shows, the grid
-- of a month, and the value that is committed. `Date` and `Intl` are parameters.
pub mod Grid
pub mod Walk
pub mod Cells
pub mod Loops
pub mod Month
pub mod View
pub mod Clicks
pub mod Picks
pub mod Commits
mod Script
mod Tests
use sbm.Base.{
  ℕ, zero, suc, ◌+◌, ◌-◌, ◌*◌, ◌/◌, ◌%◌, Bool, true, false, ◌&&◌, ◌||◌, not, String, Option, none,
  some, List, [], ◌∷◌, ◌++◌, ◌==◌, leb, if◌then◌else◌, take, drop, length, min, max,
}
use sbm.Base.Text.{Text, codes, text_eq}
use sbm.Base.Decimal.{decimal, pad2, number, split}
use sbm.Base.Int.{ℤ, pos, negsuc, pos_part, neg_part, ltb_ℤ, ◌+ℤ◌, ◌-ℤ◌}
use sbm.Calendar.{days_in_month, weekday}

abbrev pub min_year : ℕ
min_year = 1970

abbrev pub max_year : ℕ
max_year = 9999

unfoldable pub in_range : ℕ → Bool
in_range year = leb min_year year && leb year max_year

unfoldable pub iso_month : ℕ → ℕ → Text
iso_month y m = decimal y ++ b'-' ∷ pad2 m

unfoldable pub iso_day : ℕ → ℕ → ℕ → Text
iso_day y m d = decimal y ++ b'-' ∷ (pad2 m ++ b'-' ∷ pad2 d)

-- What a picker reads of a moment: its year, its month from 0 and its day in the browser's zone, and
-- the parts that `Intl.DateTimeFormat` gives for a zone, `none` where it does not know the zone.
pub record Zones : Type 0 where
  pub full_year : ℕ → ℕ
  pub month : ℕ → ℕ
  pub date : ℕ → ℕ
  pub parts : Text → ℕ → Option (Text × Text × Text)

unfoldable pub iso_date : Zones → ℕ → Option Text → Text
iso_date z now none = iso_day (z.full_year now) (z.month now + 1) (z.date now)
iso_date z now (some zone) =
    if text_eq zone []
    then iso_day (z.full_year now) (z.month now + 1) (z.date now)
    else elim (z.parts zone now) [
      | none ↦ iso_day (z.full_year now) (z.month now + 1) (z.date now)
      | some (y, m, d) ↦ y ++ b'-' ∷ (m ++ b'-' ∷ d)
    ]

pub data Kind : Type 0 where
  date month year : Kind

pub record Props : Type 0 where
  pub model_value : Text
  pub kind : Kind
  pub time_zone : Option Text

pub record Picker : Type 0 where
  pub is_open : Bool
  pub clock : ℕ
  pub view_year : ℕ
  pub view_month : ℕ

-- `Number(text)` of a text of digits, where NaN and 0 both make the test fail.
abbrev or_zero : Option ℕ → ℕ
or_zero none = 0
or_zero (some n) = n

abbrev pub part_at : List Text → ℕ → ℕ
part_at [] i = 0
part_at (s ∷ parts) zero = or_zero (number s)
part_at (s ∷ parts) (suc i) = part_at parts i

unfoldable pub year_of_today : Text → ℕ
year_of_today today = or_zero (number (take 4 today))

unfoldable pub month_of_today : Text → ℕ
month_of_today today = or_zero (number (take 2 (drop 5 today)))

-- `parts[0] && inRange(parts[0])`: 0 and NaN are out of range as well. The value is a text of digits and dashes, so
-- that its parts are whole numbers: of 2024.5-03 the source would make the year 2024.5.
unfoldable pub sync_year : Text → Text → ℕ
sync_year today val =
    let y = part_at (split b'-' val) 0 in if in_range y then y else year_of_today today

unfoldable pub sync_month : Text → Text → ℕ
sync_month today val =
    let m = part_at (split b'-' val) 1 in if leb 1 m && leb m 12 then m else month_of_today today

-- `syncFromValue`, where `today` is the computed `todayISO`.
unfoldable pub sync_from_value : Text → Text → Picker → Picker
sync_from_value today val p = record p {
  view_year = sync_year today val;
  view_month = sync_month today val;
}

-- The callback of `watch`, when the value or `open` has changed.
unfoldable pub watch_value : Zones → Props → ℕ → Picker → Picker
unfolding sync_from_value
watch_value z props now p =
    if p.is_open
    then sync_from_value (iso_date z now props.time_zone) props.model_value
        (record p { clock = now })
    else p

unfoldable pub setup : Zones → Props → ℕ → Picker
setup z props now =
    let today = iso_date z now props.time_zone in
    record {
      is_open = false;
      clock = now;
      view_year = year_of_today today;
      view_month = month_of_today today;
    }

-- The loops of `stepMonth`, over integers; the fuel is the distance of the month from the range.
unfoldable pub months_up : ℕ → ℤ → ℤ → ℤ × ℤ
months_up zero m y = (m, y)
months_up (suc f) m y =
    let rest = months_up f (m +ℤ pos 12) (y -ℤ pos 1) in if ltb_ℤ m (pos 1) then rest else (m, y)

unfoldable pub months_down : ℕ → ℤ → ℤ → ℤ × ℤ
months_down zero m y = (m, y)
months_down (suc f) m y =
    let rest = months_down f (m -ℤ pos 12) (y +ℤ pos 1) in if ltb_ℤ (pos 12) m then rest else (m, y)

in_range_ℤ : ℤ → Bool
in_range_ℤ (pos y) = in_range y
in_range_ℤ (negsuc y) = false

-- The end of `stepMonth`: the month and the year are shown if the year is in range.
unfoldable pub show_month : ℤ × ℤ → Picker → Picker
unfolding in_range_ℤ
show_month (m, y) p =
    if in_range_ℤ y then record p { view_year = pos_part y; view_month = pos_part m } else p

unfoldable pub step_month : ℤ → Picker → Picker
step_month delta p =
    let m = pos p.view_month +ℤ delta in
    let up = months_up (suc (neg_part m)) m (pos p.view_year) in
    show_month (months_down (pos_part up.0) up.0 up.1) p

-- `Math.min(MAX_YEAR, Math.max(MIN_YEAR, viewYear + delta))`
unfoldable pub step_year : ℤ → Picker → Picker
step_year delta p = record p {
  view_year = min max_year (max min_year (pos_part (pos p.view_year +ℤ delta)));
}

-- `commit`: the value that is emitted, if any.
unfoldable pub commit : Props → Text → Picker → Picker × Option Text
commit props val p =
    (record p { is_open = false }, if text_eq val props.model_value then none else some val)

unfoldable pub select_month_cell : Props → ℕ → Picker → Picker × Option Text
unfolding commit
select_month_cell props m p = commit props (iso_month p.view_year m) p

unfoldable pub quick_value : Kind → Text → Text
quick_value date today = today
quick_value month today = take 7 today
quick_value year today = take 4 today

unfoldable pub select_quick_today : Zones → Props → Picker → Picker × Option Text
unfolding commit quick_value
select_quick_today z props p =
    commit props (quick_value props.kind (iso_date z p.clock props.time_zone)) p
