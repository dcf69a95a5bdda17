-- ===== src/Dashboard.antt =====
-- Texts that web/src/views/DashboardView.vue makes: the url of a subscription in a format, how long the
-- server is up, and the version of the panel.
pub mod Laws
pub mod View
pub mod Invariant
pub mod Shown
pub mod Card
pub mod Kept
pub mod Drawings
mod Tests
pub mod Runs
mod Examples
pub mod OldCard
pub mod Texts
pub mod Page
use sbm.Base.{ℕ, ◌/◌, ◌%◌, Bool, true, false, ◌||◌, not, List, [], ◌∷◌, ◌++◌, ◌==◌, if◌then◌else◌}
use sbm.Base.Text.{Text, codes, text_eq}
use sbm.Base.Decimal.{decimal}
use sbm.Message.{Message, tr}
use sbm.I18n.{starts_with}

pub data SubFormat : Type 0 where
  auto clash singbox v2ray : SubFormat

abbrev pub id_of : SubFormat → Text
id_of auto = codes "auto"
id_of clash = codes "clash"
id_of singbox = codes "singbox"
id_of v2ray = codes "v2ray"

-- `slice` up to `indexOf('#')` and from there on, or all and nothing without one.
unfoldable pub main_part : Text → Text
main_part [] = []
main_part (c ∷ s) = let rest = main_part s in if c == b'#' then [] else c ∷ rest

unfoldable pub hash_part : Text → Text
hash_part [] = []
hash_part (c ∷ s) = let rest = hash_part s in if c == b'#' then c ∷ s else rest

unfoldable pub has_query : Text → Bool
has_query [] = false
has_query (c ∷ s) = c == b'?' || has_query s

unfoldable pub separator : Text → ℕ
separator main = if has_query main then b'&' else b'?'

unfoldable pub with_target : Text → SubFormat → Text
unfolding main_part hash_part separator
with_target base format =
    main_part base
    ++ (separator (main_part base) ∷ (codes "target=" ++ (id_of format ++ hash_part base)))

unfoldable pub format_sub_url : Text → SubFormat → Text
format_sub_url [] format = []
format_sub_url (c ∷ s) auto = c ∷ s
format_sub_url (c ∷ s) clash = with_target (c ∷ s) clash
format_sub_url (c ∷ s) singbox = with_target (c ∷ s) singbox
format_sub_url (c ∷ s) v2ray = with_target (c ∷ s) v2ray

abbrev pub days_of : ℕ → ℕ
days_of seconds = seconds / 86400

abbrev pub hours_of : ℕ → ℕ
hours_of seconds = seconds % 86400 / 3600

abbrev pub minutes_of : ℕ → ℕ
minutes_of seconds = seconds % 3600 / 60

-- Of a whole number of seconds.
unfoldable pub uptime : ℕ → Message
uptime seconds =
    if days_of seconds == 0
    then tr "server.hours"
        (("hours", decimal (hours_of seconds)) ∷ ("minutes", decimal (minutes_of seconds)) ∷ [])
    else tr "server.days"
        (("days", decimal (days_of seconds)) ∷ ("hours", decimal (hours_of seconds)) ∷ [])

unfoldable pub panel_version : Text → Text
panel_version [] = codes "unknown"
panel_version (c ∷ s) =
    if text_eq (c ∷ s) (codes "dev") || starts_with (codes "v") (c ∷ s) then c ∷ s else b'v' ∷ c ∷ s
