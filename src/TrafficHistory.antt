-- ===== src/TrafficHistory.antt =====
-- The script of web/src/components/TrafficHistory.vue: which period is asked for, and whose answer is
-- shown. `load` is cut at its `await`. A request that waits keeps its `id` and the query that it was
-- sent with.
pub mod Page
pub mod Invariant
pub mod Laws
mod Tests
use sbm.Base.{
  ℕ, suc, ◌+◌, Bool, true, false, ◌&&◌, not, String, Option, none, some, List, [], ◌∷◌, ◌++◌, ◌==◌,
  if◌then◌else◌, take, drop,
}
use mathlib.Core.List.{reverse}
use sbm.Base.Text.{Text, codes}
use sbm.Base.Decimal.{decimal, pad2, number}
use sbm.Message.{Message, t, said, Thrown, exception, value}
use sbm.Async.{Settled, fulfilled, rejected}
use sbm.Calendar.{days_in_month}
use sbm.Selection.{valid_month, valid_year}

-- web/src/types.ts
pub record TrafficUsage : Type 0 where
  pub network_rx : ℕ
  pub network_tx : ℕ
  pub network_total : ℕ
  pub network_available : Bool
  pub network_partial : Bool
  pub date : Text
  pub upload : ℕ
  pub download : ℕ
  pub proxy_used_bytes : ℕ
  pub proxy_available : Bool
  pub estimated_provider_used_bytes : ℕ
  pub partial : Bool
  pub imported : Bool

pub record Import : Type 0 where
  pub started_at : Text
  pub ended_at : Text
  pub upload : ℕ
  pub download : ℕ
  pub estimated_provider_used_bytes : ℕ

pub data Mode : Type 0 where
  day month : Mode

pub record Answer : Type 0 where
  pub source : Option Text
  pub scope : Option Text
  pub granularity : Mode
  pub timezone : Text
  pub started_at : Text
  pub updated_at : Text
  pub rows : List TrafficUsage
  pub imports : List Import

-- The parameters of a request.
pub record Query : Type 0 where
  pub granularity : Mode
  pub tz : Option Text
  pub range : Option (Text × Text)

-- `error` is `none` where the code has the empty text; `ticking` says that the interval lives.
pub record View : Type 0 where
  pub history : Option Answer
  pub mode : Mode
  pub month : Text
  pub year : Text
  pub loading : Bool
  pub error : Option Message
  pub request : ℕ
  pub initialized : Bool
  pub ticking : Bool

-- What the view reads of the browser: its zone ('' where it cannot tell), and the year and the month
-- that it is in a zone, which throws for a zone that the browser does not know.
pub record Browser : Type 0 where
  pub zone : Text
  pub parts : Text → ℕ → Settled (Text × Text) Thrown

unfoldable pub setup : Text → View
setup local_month = record {
  history = none;
  mode = day;
  month = local_month;
  year = take 4 local_month;
  loading = false;
  error = none;
  request = 0;
  initialized = false;
  ticking = false;
}

unfoldable pub valid_selection : View → Bool
valid_selection v = elim v.mode [ day ↦ valid_month v.month | month ↦ valid_year v.year ]

-- The computed `rows` and `imported`.
unfoldable pub rows : View → List TrafficUsage
rows v = elim v.history [ none ↦ [] | some a ↦ reverse a.rows ]

imported_from : ℕ → List Import → ℕ
imported_from sum [] = sum
imported_from sum (i ∷ is) = imported_from (sum + i.upload + i.download) is

unfoldable pub imported : View → ℕ
unfolding imported_from
imported v = elim v.history [ none ↦ 0 | some a ↦ imported_from 0 a.imports ]

abbrev digits : Text → ℕ
digits s = elim (number s) [ none ↦ 0 | some n ↦ n ]

-- The last day of the selected month.
unfoldable pub last_day : Text → ℕ
last_day s = days_in_month (digits (take 4 s)) (digits (take 2 (drop 5 s)))

unfoldable pub range_of : View → Text × Text
unfolding last_day
range_of v = elim v.mode [
  | day ↦ (v.month ++ codes "-01", v.month ++ b'-' ∷ pad2 (last_day v.month))
  | month ↦ (v.year ++ codes "-01", v.year ++ codes "-12")
]

abbrev zone_param : Text → Option Text
zone_param [] = none
zone_param (c ∷ s) = some (c ∷ s)

-- What `load` asks for.
unfoldable pub query_of : Browser → View → Query
query_of b v = record {
  granularity = v.mode;
  tz = zone_param b.zone;
  range = if v.initialized then some (range_of v) else none;
}

pub record Waiting : Type 0 where
  pub id : ℕ
  pub sent : Query

unfoldable pub load : Browser → Bool → View → View × List Waiting
load b background v =
    let w = record v { request = suc v.request } in
    if w.initialized && not (valid_selection w)
    then (record w { loading = false; error = some (t "history.invalidPeriod") }, [])
    else (let x = if background then w else record w { loading = true; error = none } in
        (x, record { id = x.request; sent = query_of b x } ∷ []))

-- An answer and the time at which it comes.
abbrev pub Reply : Type 0
Reply = Settled Answer Thrown × ℕ

-- A caught exception shows its message, anything else a text of the catalog.
abbrev pub reason_text : Thrown → Message
reason_text (exception m) = said m
reason_text (value m) = t "history.failed"

abbrev pub fail : Thrown → View → View
fail e v = record v { error = some (reason_text e); loading = false }

abbrev pub show : Answer → View → View
show a v = record v { history = some a; error = none; loading = false }

-- The first answer selects the current month of the server's zone.
unfoldable pub accept : Browser → Answer → ℕ → View → View
accept b a now v = if v.initialized then show a v else elim (b.parts a.timezone now) [
  | fulfilled (y, m) ↦ show a (record v { year = y; month = y ++ b'-' ∷ m; initialized = true })
  | rejected e ↦ fail e v
]

-- The rest of `load`, its `catch` and `finally` included: only the latest request may write.
unfoldable pub load_done : Browser → Waiting → Reply → View → View
unfolding accept
load_done b w (fulfilled a, now) v = if w.id == v.request then accept b a now v else v
load_done b w (rejected e, now) v = if w.id == v.request then fail e v else v

unfoldable pub resume : Browser → Waiting → Reply → View → View × List Waiting
resume b w r v = (load_done b w r v, [])

abbrev pub same_mode : Mode → Mode → Bool
same_mode day day = true
same_mode month month = true
same_mode _ _ = false

unfoldable pub select : Browser → Mode → View → View × List Waiting
select b m v = if same_mode v.mode m then (v, []) else load b false (record v { mode = m })

unfoldable pub change_month : Browser → View → View × List Waiting
change_month b v = load b false (record v { request = suc v.request; loading = false })

-- What the template, the interval and the browser call. A picker first writes its model, and then
-- emits `change`, with nothing in between.
pub data Action : Type 0 where
  mounted unmounted interval refresh_clicked : Action
  mode_clicked : Mode → Action
  month_picked : Text → Action
  year_picked : Text → Action

unfoldable pub handle : Browser → Action → View → View × List Waiting
handle b mounted v = let (w, more) = load b false v in (record w { ticking = true }, more)
handle b unmounted v = (record v { request = suc v.request; ticking = false }, [])
handle b interval v = if v.ticking then load b true v else (v, [])
handle b refresh_clicked v = load b false v
handle b (mode_clicked m) v = select b m v
handle b (month_picked s) v = change_month b (record v { month = s })
handle b (year_picked s) v = change_month b (record v { year = s })
