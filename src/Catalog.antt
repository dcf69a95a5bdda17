-- ===== src/Catalog.antt =====
-- The texts of the panel: `messages` of web/src/i18n.ts with the tables that it spreads, and what
-- web/scripts/check-i18n.mjs compares of two texts.
mod EgressZh
mod EgressEn
mod HistoryZh
mod HistoryEn
mod NetworkZh
mod NetworkEn
mod ConsoleZh
mod ConsoleEn
mod FormsZh
mod FormsEn
mod HealthZh
mod HealthEn
pub mod Agree
pub mod Laws
pub mod Seek
pub mod Covered
mod Tests
use sbm.Base.{
  ℕ, Bool, true, false, ◌&&◌, not, String, Option, none, some, List, [], ◌∷◌, ◌++◌, ◌==◌, ltb,
  if◌then◌else◌,
}
use sbm.Base.Text.{Text, codes, text_eq}
use sbm.I18n.{Locale, zh_cn, en, Catalog}
use sbm.Catalog.EgressZh.{egress_zh}
use sbm.Catalog.EgressEn.{egress_en}
use sbm.Catalog.HistoryZh.{history_zh}
use sbm.Catalog.HistoryEn.{history_en}
use sbm.Catalog.NetworkZh.{network_zh}
use sbm.Catalog.NetworkEn.{network_en}
use sbm.Catalog.ConsoleZh.{console_zh}
use sbm.Catalog.ConsoleEn.{console_en}
use sbm.Catalog.FormsZh.{forms_zh}
use sbm.Catalog.FormsEn.{forms_en}
use sbm.Catalog.HealthZh.{health_zh}
use sbm.Catalog.HealthEn.{health_en}

abbrev pub Row : Type 0
Row = String × String

-- A property of an object literal: a later one with the same name wins.
unfoldable pub find : Text → List Row → Option Text
find key [] = none
find key ((k, v) ∷ rows) = elim (find key rows) [
  | some later ↦ some later
  | none ↦ if text_eq (codes k) key then some (codes v) else none
]

-- The tables of a locale, in the order in which they are spread.
unfoldable pub tables : Locale → List (List Row)
tables zh_cn = egress_zh ∷ history_zh ∷ network_zh ∷ console_zh ∷ forms_zh ∷ health_zh ∷ []
tables en = egress_en ∷ history_en ∷ network_en ∷ console_en ∷ forms_en ∷ health_en ∷ []

abbrev pub spread : List (List Row) → List Row
spread [] = []
spread (t ∷ ts) = t ++ spread ts

unfoldable pub messages : Catalog
unfolding find tables
messages l key = find key (spread (tables l))

-- The groups of `/\{([^}]+)\}/g` in a text: what stands between a brace and the next closing one.
unfoldable pub names_from : Option Text → Text → List Text
names_from open_brace [] = []
names_from none (c ∷ s) = names_from (if c == b'{' then some [] else none) s
names_from (some name) (c ∷ s) = elim (c == b'}') [
  | false ↦ names_from (some (name ++ c ∷ [])) s
  | true ↦ elim name [ [] ↦ names_from none s | d ∷ r ↦ (d ∷ r) ∷ names_from none s ]
]

-- `sort()` of texts, by their code units.
unfoldable pub before : Text → Text → Bool
before [] s = true
before (c ∷ s) [] = false
before (c ∷ s) (d ∷ r) = elim (c == d) [ true ↦ before s r | false ↦ ltb c d ]

unfoldable pub insert : Text → List Text → List Text
unfolding before
insert x [] = x ∷ []
insert x (y ∷ ys) = elim (before x y) [ true ↦ x ∷ y ∷ ys | false ↦ y ∷ insert x ys ]

unfoldable pub sort : List Text → List Text
unfolding insert
sort [] = []
sort (x ∷ xs) = insert x (sort xs)

unfoldable pub join : List Text → Text
join [] = []
join (x ∷ []) = x
join (x ∷ y ∷ ys) = x ++ b',' ∷ join (y ∷ ys)

unfoldable pub placeholders : Text → Text
unfolding names_from sort join
placeholders text = join (sort (names_from none text))
