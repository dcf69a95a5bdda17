-- ===== src/I18n/Tests.antt =====
-- Messages with parameters, and the choice of a locale.
use sbm.Base.{◌≡◌, refl, none, some, [], ◌∷◌, ◌++◌, if◌then◌else◌}
use sbm.Base.Text.{Text, codes, text_eq}
use sbm.I18n.{
  zh_cn, en, Catalog, placeholder, look_up, or_text, replace_all, t, Navigator, Page, open_page,
  set_locale, toggle_locale,
}
use sbm.I18n.Laws.{t-fill, t-dollar, open_page-set_locale}

abbrev confirm : Text
confirm = codes "protocol.deleteConfirm"

abbrev messages : Catalog
messages en key =
    if text_eq key confirm
    then some (codes "Delete “" ++ (placeholder (codes "name") ++ codes "”?"))
    else none
messages zh_cn key = none

two_dollars : t messages zh_cn confirm ((codes "name", codes "$$x") ∷ []) ≡ codes "Delete “$x”?"
unfolding t replace_all look_up or_text
two_dollars = refl

t-fill_amount :
    t messages en confirm ((codes "name", codes "node") ∷ [])
    ≡ codes "Delete “" ++ (codes "node" ++ codes "”?")
t-fill_amount =
    t-fill messages en confirm (codes "name") (codes "node") (codes "Delete “") (codes "”?") refl
      (refl, (refl, (refl, (refl, (refl, (refl, (refl, (refl, tt)))))))) (refl, (refl, tt))
      (refl, (refl, (refl, (refl, tt))))

t-dollar_example :
    t messages en confirm ((codes "name", codes "$&") ∷ [])
    ≡ codes "Delete “" ++ (placeholder (codes "name") ++ codes "”?")
t-dollar_example =
    t-dollar messages en confirm (codes "name") (codes "Delete “") (codes "”?") refl
      (refl, (refl, (refl, (refl, (refl, (refl, (refl, (refl, tt)))))))) (refl, (refl, tt))

abbrev browser : Navigator
browser = record { languages = some (codes "zh-TW" ∷ []); language = none; lower = λ s. s }

abbrev page : Page
page = record { locale = zh_cn; stored = none; lang = codes "zh-CN"; title = codes "app.title" }

open_page-set_locale_example :
    (open_page messages browser (set_locale messages en page).stored ≡ set_locale messages en page)
    × (open_page messages browser (toggle_locale messages page).stored
        ≡ toggle_locale messages page)
open_page-set_locale_example = open_page-set_locale messages browser en page
