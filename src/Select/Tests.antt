-- ===== src/Select/Tests.antt =====
-- An option with the empty value.
use sbm.Base.{◌≡◌, ◌≤◌, ◌≢◌, ap, some, List, [], ◌∷◌, map, length, All, arith}
use sbm.Base.Text.{Text, codes}
use sbm.Select.{Choice, empty_token, normalized_options, update}
use sbm.Select.Laws.{update-normalized_options}

abbrev formats : List Choice
formats =
    record { value = []; label = codes "Auto" }
    ∷ record { value = codes "clash"; label = codes "Clash" }
    ∷ []

not_token : (s : Text) → length s ≤ 5 → s ≢ empty_token
not_token s h e = let p : length s ≡ 13 = ap length e in omega (arith, p)

update-normalized_options_example :
    (map (λ item. update (some item.value)) (normalized_options formats) ≡ [] ∷ codes "clash" ∷ [])
    × All (λ item. 1 ≤ length item.value) (normalized_options formats)
update-normalized_options_example =
    update-normalized_options formats
      (not_token [] (omega arith), (not_token (codes "clash") (omega arith), tt))
