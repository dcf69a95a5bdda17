-- ===== src/TrafficApps/Page.antt =====
-- The texts in the template of web/src/components/TrafficApps.vue. How it writes a number of bytes is a
-- parameter. The names of the apps and of their categories are not texts of the catalog alone: `named` is how
-- they are looked up.
use sbm.Base.{
  ℕ, Bool, true, false, ◌&&◌, not, Option, none, some, List, [], ◌∷◌, ◌++◌, ltb, length,
  if◌then◌else◌,
}
use sbm.Base.Text.{Text, codes, text_eq}
use sbm.Base.Decimal.{decimal}
use sbm.Message.{t, tr}
use sbm.Page.{Block, each, is_empty, is_some, alert}
use sbm.TrafficHistory.{Mode, day, month}
use sbm.TrafficApps.{AppUsage, AppTrafficResponse, View, apps, total_bytes}

-- The text of a key that the server's answer completes, or what the answer itself calls it.
unfoldable pub named : (Text → Text) → Text → Text → Text → Text
named translate prefix id other =
    let key = prefix ++ id in
    let localized = translate key in if text_eq localized key then other else localized

unfoldable pub app_name : (Text → Text) → AppUsage → Text
unfolding named
app_name translate a = named translate (codes "apps.name.") a.id a.name

unfoldable pub category_label : (Text → Text) → Text → Text
unfolding named
category_label translate category = named translate (codes "apps.cat.") category category

abbrev is_day : Mode → Bool
is_day day = true
is_day month = false

unfoldable pub head : View → List Block
head v =
    let by_day = is_day v.period in
    (
      true,
      t "apps.title"
          ∷ t "apps.help"
          ∷ t "apps.daily"
          ∷ t "apps.monthly"
          ∷ t "dashboard.refresh"
          ∷ [],
    )
    ∷ (by_day, t "apps.selectDay" ∷ [])
    ∷ (not by_day, t "apps.selectMonth" ∷ [])
    ∷ (is_some v.error, alert v.error)
    ∷ (v.loading && is_some v.data_shown, t "apps.loading" ∷ [])
    ∷ (not (is_some v.data_shown) && not (is_some v.error), t "apps.loading" ∷ [])
    ∷ []

unfoldable pub row : AppUsage → List Block
row a =
    (
      ltb 1 (length a.domains),
      tr "apps.domainsCount" (("count", decimal (length a.domains)) ∷ []) ∷ [],
    )
    ∷ []

-- Below the table.
unfoldable pub foot : View → List Block
foot v =
    let listed = not (is_empty (apps v)) in
    (listed, t "history.swipe" ∷ [])
    ∷ (not listed, t "apps.empty" ∷ [])
    ∷ (true, t "apps.footnote" ∷ [])
    ∷ []

module _ (bytes : ℕ → Text) where
  unfoldable pub table : View → AppTrafficResponse → List Block
  table v a =
      let listed = not (is_empty (apps v)) in
      (true, tr "apps.proxyTotal" (("amount", bytes (total_bytes v)) ∷ []) ∷ [])
      ∷ (listed, t "apps.export" ∷ t "apps.clear" ∷ t "apps.clearConfirm" ∷ [])
      ∷ (
        listed,
        tr "history.tableLabel" (("timezone", a.timezone) ∷ [])
            ∷ t "apps.app"
            ∷ t "apps.upload"
            ∷ t "apps.download"
            ∷ t "apps.total"
            ∷ [],
      )
      ∷ []

  abbrev pub table_of : View → Option AppTrafficResponse → List Block
  table_of v none = []
  table_of v (some a) = table v a ++ (each row (apps v) ++ foot v)

  unfoldable pub page : View → List Block
  unfolding head row table foot
  page v = head v ++ table_of v v.data_shown
