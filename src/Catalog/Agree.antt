-- ===== src/Catalog/Agree.antt =====
-- Two tables that have the same keys in the same order, no empty text, and the same placeholders.
use sbm.Base.{Bool, true, false, ◌&&◌, List, [], ◌∷◌, ◌≡◌, refl}
use sbm.Base.Text.{Text, codes, text_eq}
use sbm.Catalog.{Row, placeholders}
use sbm.Catalog.EgressZh.{egress_zh}
use sbm.Catalog.EgressEn.{egress_en}
use sbm.Catalog.HistoryZh.{history_zh}
use sbm.Catalog.HistoryEn.{history_en}
use sbm.Catalog.NetworkZh.{network_zh}
use sbm.Catalog.NetworkEn.{network_en}
use sbm.Catalog.ConsoleZh.{console_zh}
use sbm.Catalog.ConsoleEn.{console_en}
use sbm.Catalog.FormsZh.{forms_zh}
use sbm.Catalog.FormsEn.{forms_en}
use sbm.Catalog.HealthZh.{health_zh}
use sbm.Catalog.HealthEn.{health_en}

abbrev pub filled : Text → Bool
filled [] = false
filled (c ∷ s) = true

unfoldable pub agree_row : Row → Row → Bool
agree_row (k, v) (j, w) =
    text_eq (codes k) (codes j)
    && filled (codes v)
    && filled (codes w)
    && text_eq (placeholders (codes v)) (placeholders (codes w))

unfoldable pub agree : List Row → List Row → Bool
unfolding agree_row
agree [] [] = true
agree (a ∷ xs) (b ∷ ys) = agree_row a b && agree xs ys
agree _ _ = false

pub agree-egress : agree egress_zh egress_en ≡ true
unfolding agree placeholders egress_zh egress_en
agree-egress = refl

pub agree-history : agree history_zh history_en ≡ true
unfolding agree placeholders history_zh history_en
agree-history = refl

pub agree-network : agree network_zh network_en ≡ true
unfolding agree placeholders network_zh network_en
agree-network = refl

pub agree-console : agree console_zh console_en ≡ true
unfolding agree placeholders console_zh console_en
agree-console = refl

pub agree-forms : agree forms_zh forms_en ≡ true
unfolding agree placeholders forms_zh forms_en
agree-forms = refl

pub agree-health : agree health_zh health_en ≡ true
unfolding agree placeholders health_zh health_en
agree-health = refl
