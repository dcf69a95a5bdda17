-- ===== src/Catalog/Covered.antt =====
-- Whether both languages have a text for the key of a message, and one that asks for no parameters but
-- the message's.
use sbm.Base.{
  Bool, true, false, ◌&&◌, ◌||◌, ◌≡◌, refl, String, Option, none, some, List, [], ◌∷◌, ◌++◌, arith,
  All,
}
use sbm.Base.Text.{Text, codes, text_eq}
use sbm.Message.{Message, tr, said}
use sbm.I18n.{Locale, zh_cn, en}
use sbm.Catalog.Seek.{seek, find-seek, codes_of}
use sbm.Catalog.{messages, spread, tables, names_from}
use sbm.Catalog.EgressZh.{egress_zh}
use sbm.Catalog.EgressEn.{egress_en}
use sbm.Catalog.HistoryZh.{history_zh}
use sbm.Catalog.HistoryEn.{history_en}
use sbm.Catalog.NetworkZh.{network_zh}
use sbm.Catalog.NetworkEn.{network_en}
use sbm.Catalog.ConsoleZh.{console_zh}
use sbm.Catalog.ConsoleEn.{console_en}
use sbm.Catalog.FormsZh.{forms_zh}
use sbm.Catalog.FormsEn.{forms_en}
use sbm.Catalog.HealthZh.{health_zh}
use sbm.Catalog.HealthEn.{health_en}

both : (a b : Bool) → (a && b) ≡ true → (a ≡ true) × (b ≡ true)
both a b h = ground arith

abbrev given : Text → List (String × Text) → Bool
given name [] = false
given name ((n, v) ∷ params) = text_eq (codes n) name || given name params

abbrev all_given : List Text → List (String × Text) → Bool
all_given [] params = true
all_given (n ∷ ns) params = given n params && all_given ns params

abbrev covers_row : Option String → List (String × Text) → Bool
covers_row none params = false
covers_row (some s) params = all_given (names_from none (codes s)) params

-- What the server has said is shown as it is.
unfoldable pub covered : Message → Bool
unfolding tables names_from egress_zh egress_en history_zh history_en network_zh network_en
    console_zh console_en forms_zh forms_en health_zh health_en
covered (said s) = true
covered (tr key params) =
    covers_row (seek key (spread (tables zh_cn))) params
    && covers_row (seek key (spread (tables en))) params

unfoldable pub all_covered : List Message → Bool
unfolding covered
all_covered [] = true
all_covered (m ∷ ms) = covered m && all_covered ms

pub all_covered-append :
    (ms ns : List Message)
    → all_covered ms ≡ true
    → all_covered ns ≡ true
    → all_covered (ms ++ ns) ≡ true
unfolding all_covered
all_covered-append [] ns h k = k
all_covered-append (m ∷ ms) ns h k =
    let (a, b) = both (covered m) (all_covered ms) h in rw (a, all_covered-append ms ns b k) refl

-- What a message that is covered reads in a language: a text, whose parameters are all given.
abbrev pub Reads : Locale → Message → Type 0
Reads l (said s) = Unit
Reads l (tr key params) =
    (v : Text) × (messages l (codes key) ≡ some v)
    × All (λ n. given n params ≡ true) (names_from none v)

all_given-All :
    (ns : List Text) (params : List (String × Text))
    → all_given ns params ≡ true
    → All (λ n. given n params ≡ true) ns
all_given-All [] params h = tt
all_given-All (n ∷ ns) params h =
    let (a, b) = both (given n params) (all_given ns params) h in (a, all_given-All ns params b)

covers_row-Reads :
    (l : Locale) (key : String) (params : List (String × Text)) (o : Option String)
    → messages l (codes key) ≡ codes_of o
    → covers_row o params ≡ true
    → Reads l (tr key params)
covers_row-Reads l key params none e h = absurd (cc h)
covers_row-Reads l key params (some s) e h =
    (codes s, e, all_given-All (names_from none (codes s)) params h)

pub covered-Reads : (l : Locale) (m : Message) → covered m ≡ true → Reads l m
unfolding covered messages
covered-Reads l (said s) h = tt
covered-Reads zh_cn (tr key params) h =
    covers_row-Reads zh_cn key params (seek key (spread (tables zh_cn)))
      (find-seek key (spread (tables zh_cn)))
      (both (covers_row (seek key (spread (tables zh_cn))) params)
        (covers_row (seek key (spread (tables en))) params) h).0
covered-Reads en (tr key params) h =
    covers_row-Reads en key params (seek key (spread (tables en)))
      (find-seek key (spread (tables en)))
      (both (covers_row (seek key (spread (tables zh_cn))) params)
        (covers_row (seek key (spread (tables en))) params) h).1

pub all_covered-Reads : (l : Locale) (ms : List Message) → all_covered ms ≡ true → All (Reads l) ms
unfolding all_covered
all_covered-Reads l [] h = tt
all_covered-Reads l (m ∷ ms) h =
    let (a, b) = both (covered m) (all_covered ms) h in
    (covered-Reads l m a, all_covered-Reads l ms b)
