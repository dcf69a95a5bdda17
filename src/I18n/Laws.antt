-- ===== src/I18n/Laws.antt =====
-- What `t` shows, and which locale a page opens in.
use mathlib.Core.List.{append-nil}
use sbm.Base.{ap, ◌≡◌, refl, some, [], ◌∷◌, ◌++◌}
use sbm.Base.Text.{Text, codes}
use sbm.I18n.{
  Locale, zh_cn, en, tag, Catalog, or_text, look_up, expand, placeholder, fill, t, Navigator,
  initial_locale, Page, open_page, set_locale, toggle_locale,
}
use sbm.I18n.Template.{NoBrace, NoDollar, expand-NoDollar, replace_all-placeholder}

look_up-template :
    (messages : Catalog) (l : Locale) (key name pre post : Text)
    → messages l key ≡ some (pre ++ (placeholder name ++ post))
    → look_up messages l key ≡ pre ++ (placeholder name ++ post)
unfolding look_up or_text
look_up-template messages l key name [] post e = rw e refl
look_up-template messages l key name (c ∷ pre) post e = rw e refl

-- A message with one placeholder shows the parameter in its place, as it is, if the parameter has no
-- dollar.
pub t-fill :
    (messages : Catalog) (l : Locale) (key name param pre post : Text)
    → messages l key ≡ some (pre ++ (placeholder name ++ post))
    → NoBrace pre
    → NoBrace post
    → NoDollar param
    → t messages l key ((name, param) ∷ []) ≡ pre ++ (param ++ post)
unfolding t fill
t-fill messages l key name param pre post e h k d =
    rw
      (
        look_up-template messages l key name pre post e,
        replace_all-placeholder name param pre post h k,
        expand-NoDollar (placeholder name) pre post param d,
      )
      refl

expand-match : (found before after : Text) → expand found before after (codes "$&") ≡ found
unfolding expand
expand-match found before after = append-nil found

-- A parameter `$&` is not shown: the message keeps its placeholder.
pub t-dollar :
    (messages : Catalog) (l : Locale) (key name pre post : Text)
    → messages l key ≡ some (pre ++ (placeholder name ++ post))
    → NoBrace pre
    → NoBrace post
    → t messages l key ((name, codes "$&") ∷ []) ≡ pre ++ (placeholder name ++ post)
unfolding t fill
t-dollar messages l key name pre post e h k =
    rw
      (
        look_up-template messages l key name pre post e,
        replace_all-placeholder name (codes "$&") pre post h k,
      )
      (ap (λ x. pre ++ (x ++ post)) (expand-match (placeholder name) pre post))

initial_locale-tag : (n : Navigator) (l : Locale) → initial_locale n (some (tag l)) ≡ l
unfolding initial_locale
initial_locale-tag n zh_cn = refl
initial_locale-tag n en = refl

-- The chosen locale is kept: whatever the browser prefers, a page that is opened again says what it
-- said after the choice or the switch.
pub open_page-set_locale :
    (messages : Catalog) (n : Navigator) (l : Locale) (p : Page)
    → (open_page messages n (set_locale messages l p).stored ≡ set_locale messages l p)
      × (open_page messages n (toggle_locale messages p).stored ≡ toggle_locale messages p)
unfolding open_page set_locale toggle_locale
open_page-set_locale messages n l p = (rw (initial_locale-tag n l) refl, rw initial_locale-tag refl)
