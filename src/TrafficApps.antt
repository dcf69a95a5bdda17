-- ===== src/TrafficApps.antt =====
-- The script of web/src/components/TrafficApps.vue: which period is asked for, whose answer is shown,
-- and the clearing of the records. `load` is cut at its `await`, `clearStats` at both of its.
pub mod Page
pub mod Export
pub mod Groups
pub mod Invariant
pub mod Laws
mod Tests
use sbm.Base.{
  ℕ, suc, ◌+◌, Bool, true, false, ◌&&◌, not, Option, none, some, List, [], ◌∷◌, ◌++◌, ◌==◌,
  if◌then◌else◌, take,
}
use sbm.Base.Text.{Text, codes, text_eq}
use sbm.Message.{Message, t, said, Thrown, exception, value, error_message}
use sbm.Async.{Settled, fulfilled, rejected}
use sbm.Selection.{valid_month, valid_day}
use sbm.TrafficHistory.{Mode, day, month}

-- web/src/types.ts
pub record AppDomainUsage : Type 0 where
  pub domain : Text
  pub upload : ℕ
  pub download : ℕ
  pub total : ℕ

pub record AppUsage : Type 0 where
  pub id : Text
  pub name : Text
  pub category : Text
  pub upload : ℕ
  pub download : ℕ
  pub total : ℕ
  pub domains : List AppDomainUsage

pub record AppTrafficResponse : Type 0 where
  pub period : Mode
  pub date : Text
  pub timezone : Text
  pub updated_at : Text
  pub total_upload : ℕ
  pub total_download : ℕ
  pub total_bytes : ℕ
  pub apps : List AppUsage

pub record Query : Type 0 where
  pub period : Mode
  pub tz : Option Text
  pub date : Option Text

-- `error` is `none` where the code has the empty text; `ticking` says that the interval lives;
-- `toasts` has the last message first.
pub record View : Type 0 where
  pub data_shown : Option AppTrafficResponse
  pub period : Mode
  pub day : Text
  pub month : Text
  pub loading : Bool
  pub clearing : Bool
  pub error : Option Message
  pub initialized : Bool
  pub expanded : Text → Bool
  pub request : ℕ
  pub ticking : Bool
  pub toasts : List Message

-- The browser's zone ('' where it cannot tell), and the year, the month and the day that it is in a
-- zone, which throws for a zone that the browser does not know.
pub record Browser : Type 0 where
  pub zone : Text
  pub parts : Text → ℕ → Settled (Text × Text × Text) Thrown

unfoldable pub setup : Text → View
setup local_day = record {
  data_shown = none;
  period = day;
  day = local_day;
  month = take 7 local_day;
  loading = false;
  clearing = false;
  error = none;
  initialized = false;
  expanded = λ id. false;
  request = 0;
  ticking = false;
  toasts = [];
}

unfoldable pub valid_selection : View → Bool
valid_selection v = elim v.period [ day ↦ valid_day v.day | month ↦ valid_month v.month ]

-- The computed `apps` and `totalBytes`.
unfoldable pub apps : View → List AppUsage
apps v = elim v.data_shown [ none ↦ [] | some a ↦ a.apps ]

unfoldable pub total_bytes : View → ℕ
total_bytes v = elim v.data_shown [ none ↦ 0 | some a ↦ a.total_bytes ]

unfoldable pub toggle_expand : Text → View → View
toggle_expand id v = record v {
  expanded = λ k. if text_eq k id then not (v.expanded id) else v.expanded k;
}

unfoldable pub selected : View → Text
selected v = elim v.period [ day ↦ v.day | month ↦ v.month ]

abbrev zone_param : Text → Option Text
zone_param [] = none
zone_param (c ∷ s) = some (c ∷ s)

-- What `load` asks for.
unfoldable pub query_of : Browser → View → Query
query_of b v = record {
  period = v.period;
  tz = zone_param b.zone;
  date = if v.initialized then some (selected v) else none;
}

-- Whether `clearStats` waits for the load.
pub data Caller : Type 0 where
  nobody clear : Caller

-- What waits behind an `await`: of `load`, of the request of `clearStats`, and of `clearStats` for the
-- load that has ended.
pub data Waiting : Type 0 where
  requested : ℕ → Query → Caller → Waiting
  cleared reloaded : Waiting

abbrev pub resume_caller : Caller → List Waiting
resume_caller nobody = []
resume_caller clear = reloaded ∷ []

unfoldable pub load : Browser → Bool → Caller → View → View × List Waiting
load b background caller v =
    let w = record v { request = suc v.request } in
    if w.initialized && not (valid_selection w)
    then (record w { loading = false; error = some (t "apps.invalidPeriod") }, resume_caller caller)
    else (let x = if background then w else record w { loading = true; error = none } in
        (x, requested x.request (query_of b x) caller ∷ []))

-- An answer and the time at which it comes. What the server answers to a clearing is not read.
abbrev pub Reply : Type 0
Reply = Settled AppTrafficResponse Thrown × ℕ

-- A caught exception shows its message, anything else a text of the catalog.
abbrev pub reason_text : Thrown → Message
reason_text (exception m) = said m
reason_text (value m) = t "apps.failed"

abbrev pub fail : Thrown → View → View
fail e v = record v { error = some (reason_text e); loading = false }

abbrev pub show : AppTrafficResponse → View → View
show a v = record v { data_shown = some a; error = none; loading = false }

-- The first answer selects the current day and month of the server's zone.
unfoldable pub accept : Browser → AppTrafficResponse → ℕ → View → View
accept b a now v = if v.initialized then show a v else elim (b.parts a.timezone now) [
  | fulfilled (y, m, d) ↦
      show a
        (record v { month = y ++ b'-' ∷ m; day = y ++ b'-' ∷ (m ++ b'-' ∷ d); initialized = true })
  | rejected e ↦ fail e v
]

-- The rest of `load`, its `catch` and `finally` included: only the latest request may write.
unfoldable pub load_done : Browser → ℕ → Reply → View → View
unfolding accept
load_done b id (fulfilled a, now) v = if id == v.request then accept b a now v else v
load_done b id (rejected e, now) v = if id == v.request then fail e v else v

abbrev pub emit : Message → View → View
emit m v = record v { toasts = m ∷ v.toasts }

-- `clearStats`, up to its request.
unfoldable pub clear_stats : View → View × List Waiting
clear_stats v =
    if v.clearing
    then (v, [])
    else (record v { clearing = true; request = suc v.request }, cleared ∷ [])

-- The rest of `clearStats`: its `finally` runs after the load, or at once if the request fails, and
-- `guard` shows the failure.
unfoldable pub clear_done : Browser → Reply → View → View × List Waiting
clear_done b (fulfilled a, now) v =
    load b false clear (emit (t "apps.clearDone") (record v { expanded = λ id. false }))
clear_done b (rejected e, now) v = (emit (error_message e) (record v { clearing = false }), [])

unfoldable pub resume : Browser → Waiting → Reply → View → View × List Waiting
resume b (requested id q caller) r v = (load_done b id r v, resume_caller caller)
resume b cleared r v = clear_done b r v
resume b reloaded r v = (record v { clearing = false }, [])

abbrev pub same_mode : Mode → Mode → Bool
same_mode day day = true
same_mode month month = true
same_mode _ _ = false

unfoldable pub select_period : Browser → Mode → View → View × List Waiting
select_period b m v =
    if same_mode v.period m then (v, []) else load b false nobody (record v { period = m })

unfoldable pub change_date : Browser → View → View × List Waiting
change_date b v = load b false nobody (record v { request = suc v.request; loading = false })

-- What the template, the interval and the browser call. A picker first writes its model, and then
-- emits `change`, with nothing in between.
pub data Action : Type 0 where
  mounted unmounted interval refresh_clicked clear_confirmed : Action
  period_clicked : Mode → Action
  day_picked month_picked row_clicked : Text → Action

unfoldable pub handle : Browser → Action → View → View × List Waiting
handle b mounted v = let (w, more) = load b false nobody v in (record w { ticking = true }, more)
handle b unmounted v = (record v { request = suc v.request; ticking = false }, [])
handle b interval v = if v.ticking then load b true nobody v else (v, [])
handle b refresh_clicked v = load b false nobody v
handle b clear_confirmed v = clear_stats v
handle b (period_clicked m) v = select_period b m v
handle b (day_picked s) v = change_date b (record v { day = s })
handle b (month_picked s) v = change_date b (record v { month = s })
handle b (row_clicked id) v = (toggle_expand id v, [])
