-- ===== src/TrafficHistory/Page.antt =====
-- The texts in the template of web/src/components/TrafficHistory.vue. How it writes a number of bytes is a
-- parameter.
use sbm.Base.{ℕ, Bool, true, false, ◌&&◌, not, Option, none, some, List, [], ◌∷◌, ◌++◌, ◌==◌}
use sbm.Base.Text.{Text, codes, text_eq}
use sbm.Message.{t, tr}
use sbm.Page.{Block, each, is_empty, is_some, alert}
use sbm.TrafficHistory.{TrafficUsage, Mode, day, month, Answer, View, rows, imported}

abbrev is_day : Mode → Bool
is_day day = true
is_day month = false

abbrev is_entry : Option Text → Bool
is_entry none = false
is_entry (some s) = text_eq s (codes "entry")

unfoldable pub head : View → List Block
head v =
    let by_day = is_day v.mode in
    (
      true,
      t "history.title"
          ∷ t "history.help"
          ∷ t "history.granularity"
          ∷ t "history.daily"
          ∷ t "history.monthly"
          ∷ t "dashboard.refresh"
          ∷ [],
    )
    ∷ (by_day, t "history.selectMonth" ∷ [])
    ∷ (not by_day, t "history.selectYear" ∷ [])
    ∷ (is_some v.error, alert v.error)
    ∷ (v.loading && is_some v.history, t "history.loading" ∷ [])
    ∷ (not (is_some v.history) && not (is_some v.error), t "history.loading" ∷ [])
    ∷ []

unfoldable pub row : Answer → TrafficUsage → List Block
row a r =
    let entry = is_entry a.scope in
    (r.imported, t "history.imported" ∷ [])
    ∷ (not r.imported && r.network_partial, t "history.partial" ∷ [])
    ∷ (not r.network_available, t "network.missing" ∷ [])
    ∷ (entry, t "network.reference" ∷ [])
    ∷ (entry && r.proxy_available && r.partial, t "history.partial" ∷ [])
    ∷ []

-- Below the table.
unfoldable pub foot : View → List Block
foot v =
    let listed = not (is_empty (rows v)) in
    (listed, t "history.swipe" ∷ [])
    ∷ (not listed, t "history.empty" ∷ [])
    ∷ (true, t "history.footnote" ∷ [])
    ∷ []

module _ (bytes : ℕ → Text) where
  unfoldable pub table : View → Answer → List Block
  table v a =
      let listed = not (is_empty (rows v)) in
      let by_day = is_day a.granularity in
      (not (imported v == 0), tr "history.importedHelp" (("amount", bytes (imported v)) ∷ []) ∷ [])
      ∷ (
        listed,
        tr "history.tableLabel" (("timezone", a.timezone) ∷ [])
            ∷ t "network.rx"
            ∷ t "network.tx"
            ∷ t "network.total"
            ∷ [],
      )
      ∷ (listed && by_day, t "history.day" ∷ [])
      ∷ (listed && not by_day, t "history.month" ∷ [])
      ∷ []

  abbrev pub table_of : View → Option Answer → List Block
  table_of v none = []
  table_of v (some a) = table v a ++ (each (row a) (rows v) ++ foot v)

  unfoldable pub page : View → List Block
  unfolding head row table foot
  page v = head v ++ table_of v v.history
