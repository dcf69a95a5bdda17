-- ===== src/I18n.antt =====
-- web/src/i18n.ts: the choice of the locale, and `t`. The tables of messages are a parameter: what is
-- shown here holds for every catalog.
pub mod Template
pub mod Laws
mod Tests
use sbm.Base.{
  ℕ, zero, suc, ◌-◌, Bool, true, false, ◌&&◌, ◌||◌, Option, none, some, List, [], ◌∷◌, ◌++◌, ◌==◌,
  if◌then◌else◌, drop, length,
}
use sbm.Base.Text.{Text, codes, text_eq}

pub data Locale : Type 0 where
  zh_cn en : Locale

-- The text of a locale in `localStorage` and in the document.
abbrev pub tag : Locale → Text
tag zh_cn = codes "zh-CN"
tag en = codes "en"

-- `messages[locale][key]`, `none` where there is no such key.
abbrev pub Catalog : Type 0
Catalog = Locale → Text → Option Text

-- `a || b` of texts: a text that is missing or empty counts as false.
unfoldable pub or_text : Option Text → Text → Text
or_text none other = other
or_text (some []) other = other
or_text (some (c ∷ s)) other = c ∷ s

unfoldable pub look_up : Catalog → Locale → Text → Text
look_up messages locale key = or_text (messages locale key) (or_text (messages en key) key)

abbrev pub starts_with : Text → Text → Bool
starts_with [] s = true
starts_with (c ∷ p) [] = false
starts_with (c ∷ p) (d ∷ s) = c == d && starts_with p s

-- What `replaceAll` puts for a match, with the text before it and behind it: in the replacement `$$` is
-- a dollar, `$&` the match, `$` with a back quote or a quote the text before or behind it.
unfoldable pub expand : Text → Text → Text → Text → Text
expand found before after [] = []
expand found before after (c ∷ []) = c ∷ []
expand found before after (c ∷ d ∷ s) = elim (c == b'$') [
  | false ↦ c ∷ expand found before after (d ∷ s)
  | true ↦ elim (d == b'$') [
    | true ↦ b'$' ∷ expand found before after s
    | false ↦ elim (d == b'&') [
      | true ↦ found ++ expand found before after s
      | false ↦ elim (d == 96) [
        | true ↦ before ++ expand found before after s
        | false ↦ elim (d == 39) [
          | true ↦ after ++ expand found before after s
          | false ↦ c ∷ expand found before after (d ∷ s)
        ]
      ]
    ]
  ]
]

-- The text is read once from the left; `skip` counts what is left of a match.
unfoldable pub replace_from : Text → Text → Text → ℕ → Text → Text
unfolding expand
replace_from pat repl before skip [] = []
replace_from pat repl before (suc skip) (c ∷ s) = replace_from pat repl (before ++ c ∷ []) skip s
replace_from pat repl before zero (c ∷ s) = elim (starts_with pat (c ∷ s)) [
  | true ↦
      expand pat before (drop (length pat) (c ∷ s)) repl
      ++ replace_from pat repl (before ++ c ∷ []) (length pat - 1) s
  | false ↦ c ∷ replace_from pat repl (before ++ c ∷ []) zero s
]

unfoldable pub replace_all : Text → Text → Text → Text
unfolding replace_from
replace_all pat repl s = replace_from pat repl [] zero s

-- `{name}`
abbrev pub placeholder : Text → Text
placeholder name = b'{' ∷ (name ++ b'}' ∷ [])

unfoldable pub fill : List (Text × Text) → Text → Text
unfolding replace_all
fill [] s = s
fill ((name, replacement) ∷ params) s = fill params (replace_all (placeholder name) replacement s)

unfoldable pub t : Catalog → Locale → Text → List (Text × Text) → Text
unfolding look_up fill
t messages locale key params = fill params (look_up messages locale key)

-- What the browser prefers, and how it writes a text in small letters.
pub record Navigator : Type 0 where
  pub languages : Option (List Text)
  pub language : Option Text
  pub lower : Text → Text

abbrev first : Option (List Text) → Option Text
first none = none
first (some []) = none
first (some (l ∷ ls)) = some l

unfoldable pub preferred : Navigator → Locale
preferred n =
    if starts_with (codes "zh")
      (n.lower (or_text (first n.languages) (or_text n.language (codes "en"))))
    then zh_cn
    else en

unfoldable pub initial_locale : Navigator → Option Text → Locale
initial_locale n none = preferred n
initial_locale n (some saved) =
    if text_eq saved (tag zh_cn) then zh_cn else if text_eq saved (tag en) then en else preferred n

-- The locale, what is stored of it, and what the document says.
pub record Page : Type 0 where
  pub locale : Locale
  pub stored : Option Text
  pub lang : Text
  pub title : Text

-- What the module does when it is loaded.
unfoldable pub open_page : Catalog → Navigator → Option Text → Page
open_page messages n stored =
    let l = initial_locale n stored in
    record {
      locale = l;
      stored = stored;
      lang = tag l;
      title = t messages l (codes "app.title") [];
    }

unfoldable pub set_locale : Catalog → Locale → Page → Page
set_locale messages l p = record {
  locale = l;
  stored = some (tag l);
  lang = tag l;
  title = t messages l (codes "app.title") [];
}

abbrev pub other : Locale → Locale
other zh_cn = en
other en = zh_cn

unfoldable pub toggle_locale : Catalog → Page → Page
unfolding set_locale
toggle_locale messages p = set_locale messages (other p.locale) p

unfoldable pub date_locale : Locale → Text
date_locale zh_cn = codes "zh-CN"
date_locale en = codes "en-US"
