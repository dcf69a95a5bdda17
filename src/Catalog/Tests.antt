-- ===== src/Catalog/Tests.antt =====
-- Some texts of the catalog.
use sbm.Base.{◌≡◌, refl, [], ◌∷◌, some}
use sbm.Base.Text.{codes}
use sbm.I18n.{zh_cn, en, t, look_up, or_text}
use sbm.Catalog.{find, messages, placeholders, tables}
use sbm.Catalog.EgressEn.{egress_en}
use sbm.Catalog.HistoryEn.{history_en}
use sbm.Catalog.NetworkEn.{network_en}
use sbm.Catalog.ConsoleEn.{console_en}
use sbm.Catalog.FormsEn.{forms_en}
use sbm.Catalog.HealthEn.{health_en}
use sbm.Catalog.Laws.{Matched, messages-Matched}

english : Unit {0}
unfolding messages find tables egress_en history_en network_en console_en forms_en health_en
english = tt

failed_en :
    t messages en (codes "api.failed") ((codes "status", codes "502") ∷ [])
    ≡ codes "Request failed (502)"
unfolding english t look_up or_text
failed_en = refl

two_placeholders : placeholders (codes "{b} of {a}") ≡ codes "a,b"
unfolding placeholders
two_placeholders = refl

refreshed : messages en (codes "dashboard.refreshed") ≡ some (codes "Traffic data refreshed")
unfolding english
refreshed = refl

messages-Matched_example :
    Matched (codes "Traffic data refreshed") (messages zh_cn (codes "dashboard.refreshed"))
messages-Matched_example =
    messages-Matched en (codes "dashboard.refreshed") (codes "Traffic data refreshed") refreshed
