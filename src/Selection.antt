-- ===== src/Selection.antt =====
-- `validSelection` of web/src/components/TrafficHistory.vue and TrafficApps.vue: the regular expressions
-- that a selected year, month or day has to match before it is sent.
pub mod Laws
mod Tests
use sbm.Base.{ℕ, Bool, true, false, ◌&&◌, ◌||◌, List, [], ◌∷◌, ◌==◌, leb}
use sbm.Base.Text.{Text}

abbrev pub between : ℕ → ℕ → ℕ → Bool
between lo hi c = leb lo c && leb c hi

abbrev digit : ℕ → Bool
digit c = between b'0' b'9' c

-- 19[7-9]\d|[2-9]\d{3}
unfoldable pub year_ok : ℕ → ℕ → ℕ → ℕ → Bool
year_ok a b c d =
    (a == b'1' && b == b'9' && between b'7' b'9' c && digit d)
    || (between b'2' b'9' a && digit b && digit c && digit d)

-- 0[1-9]|1[0-2]
unfoldable pub month_ok : ℕ → ℕ → Bool
month_ok a b = (a == b'0' && between b'1' b'9' b) || (a == b'1' && between b'0' b'2' b)

-- 0[1-9]|[12]\d|3[01]
unfoldable pub day_ok : ℕ → ℕ → Bool
day_ok a b =
    (a == b'0' && between b'1' b'9' b)
    || (between b'1' b'2' a && digit b)
    || (a == b'3' && between b'0' b'1' b)

unfoldable pub valid_year : Text → Bool
valid_year (a ∷ b ∷ c ∷ d ∷ []) = year_ok a b c d
valid_year _ = false

unfoldable pub valid_month : Text → Bool
valid_month (a ∷ b ∷ c ∷ d ∷ s ∷ e ∷ f ∷ []) = year_ok a b c d && s == b'-' && month_ok e f
valid_month _ = false

unfoldable pub valid_day : Text → Bool
valid_day (a ∷ b ∷ c ∷ d ∷ s ∷ e ∷ f ∷ u ∷ g ∷ h ∷ []) =
    year_ok a b c d && s == b'-' && month_ok e f && u == b'-' && day_ok g h
valid_day _ = false
