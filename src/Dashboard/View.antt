-- ===== src/Dashboard/View.antt =====
-- The script of web/src/views/DashboardView.vue: the polled overview, the card with the subscription's
-- QR code in the chosen format, and the changes of the core and the traffic. Each function is cut at its `await`.
use sbm.Base.{
  ℕ, suc, ◌-◌, Bool, true, false, ◌&&◌, ◌||◌, not, Option, none, some, List, [], ◌∷◌, ◌++◌, ◌==◌,
  if◌then◌else◌,
}
use sbm.Base.Text.{Text, codes, text_eq}
use sbm.Message.{Message, t, Thrown, error_message}
use sbm.Async.{Settled, fulfilled, rejected}
use sbm.PollStatus.{PollStatus, use_poll_status, tick, succeeded, failed}
use sbm.Types.{ServerStatus}
use sbm.Types.Gateway.{Dashboard}
use sbm.Dashboard.{SubFormat, auto, format_sub_url}

-- `status` is what `usePollStatus` keeps; `ticking` says that the interval lives; `saved` has the
-- cards that were downloaded with their names, and `toasts` the messages, the last first.
pub record View : Type 0 where
  pub data_shown : Option Dashboard
  pub server : Option ServerStatus
  pub refreshing_traffic : Bool
  pub calibrating : Bool
  pub qr : Text
  pub revision : ℕ
  pub qr_revision : ℕ
  pub disposed : Bool
  pub pending : ℕ
  pub mutating : Bool
  pub status : PollStatus
  pub sub_format : SubFormat
  pub ticking : Bool
  pub saved : List (Text × Text)
  pub toasts : List Message

unfoldable pub setup : ℕ → View
setup now = record {
  data_shown = none;
  server = none;
  refreshing_traffic = false;
  calibrating = false;
  qr = [];
  revision = 0;
  qr_revision = 0;
  disposed = false;
  pending = 0;
  mutating = false;
  status = use_poll_status now;
  sub_format = auto;
  ticking = false;
  saved = [];
  toasts = [];
}

-- Who awaits a `load`: one that ignores what it throws, `refreshTraffic`, or `mutate`.
pub data Caller : Type 0 where
  ignoring refresh mutate : Caller

-- What waits behind an `await`: in `load`, of the overview and then of the card for its url and name;
-- of the caller of a `load` that has ended; in `loadServer`; in `refreshTraffic`, once `loadServer` has ended;
-- in `mutate`, of its request; and in `selectSubFormat`, of the card.
pub data Waiting : Type 0 where
  listed : ℕ → Caller → Waiting
  rendered : ℕ → ℕ → Dashboard → Text → Caller → Waiting
  returned : Caller → Option Thrown → Waiting
  server_listed : Caller → Waiting
  refreshed : Waiting
  posted : Text → Message → Waiting
  drawn : ℕ → Text → Text → Waiting

-- The JSON of an answer, at every type that a caller casts it to, or the card that was drawn.
pub record Body : Type 0 where
  pub as_dashboard : Dashboard
  pub as_server : ServerStatus
  pub as_card : Text

-- An answer and the time at which it comes.
abbrev pub Reply : Type 0
Reply = Settled Body Thrown × ℕ

abbrev pub emit : Message → View → View
emit m v = record v { toasts = m ∷ v.toasts }

unfoldable pub load : Caller → View → View × List Waiting
load caller v =
    let request = suc v.revision in
    (record v { revision = request; pending = suc v.pending }, listed request caller ∷ [])

abbrev pub same_card : Option Dashboard → Dashboard → Bool
same_card none next = false
same_card (some d) next =
    text_eq d.subscription_url next.subscription_url
    && text_eq d.subscription_name next.subscription_name

-- The end of `load`, where the view is not left and no newer request was made: `nextQR` is shown if the
-- card's number is the latest.
unfoldable pub accept : ℕ → ℕ → Text → Dashboard → ℕ → View → View
accept request qr_request next_qr next now v =
    let w = record v { pending = v.pending - 1 } in
    if v.disposed || not (request == v.revision) then w else record w {
      qr = if qr_request == v.qr_revision then next_qr else v.qr;
      data_shown = some next;
      status = succeeded now v.status;
    }

-- Its `catch` and `finally`.
unfoldable pub fail : ℕ → ℕ → View → View
fail request now v =
    let w = record v { pending = v.pending - 1 } in
    if not v.disposed && request == v.revision then record w { status = failed now v.status } else w

-- The rest of `load` from the answer on: a card is drawn if its url or its name is new.
unfoldable pub load_done : ℕ → Caller → Reply → View → View × List Waiting
unfolding accept fail
load_done request caller (fulfilled b, now) v =
    let next = b.as_dashboard in
    let qr_request = suc v.qr_revision in
    if same_card v.data_shown next
    then (accept request v.qr_revision v.qr next now v, returned caller none ∷ [])
    else (
      record v { qr_revision = qr_request },
      rendered request qr_request next (format_sub_url next.subscription_url v.sub_format) caller
          ∷ [],
    )
load_done request caller (rejected e, now) v = (fail request now v, returned caller (some e) ∷ [])

unfoldable pub render_done : ℕ → ℕ → Dashboard → Caller → Reply → View → View × List Waiting
unfolding accept fail
render_done request qr_request next caller (fulfilled b, now) v =
    (accept request qr_request b.as_card next now v, returned caller none ∷ [])
render_done request qr_request next caller (rejected e, now) v =
    (fail request now v, returned caller (some e) ∷ [])

-- `loadServer`, which throws nothing.
unfoldable pub load_server : Caller → View → View × List Waiting
load_server caller v = (v, server_listed caller ∷ [])

unfoldable pub load_server_done : Reply → View → View
load_server_done (fulfilled b, now) v =
    if v.disposed then v else record v { server = some b.as_server }
load_server_done (rejected e, now) v = v

abbrev pub after_server : Caller → List Waiting
after_server refresh = refreshed ∷ []
after_server _ = []

-- What the caller of `load` does when it has ended.
unfoldable pub returned_to : Caller → Option Thrown → View → View × List Waiting
unfolding load_server
returned_to ignoring o v = (v, [])
returned_to refresh none v = load_server refresh v
returned_to refresh (some e) v =
    (emit (error_message e) (record v { refreshing_traffic = false }), [])
returned_to mutate none v = (record v { mutating = false }, [])
returned_to mutate (some e) v = (emit (error_message e) (record v { mutating = false }), [])

unfoldable pub refresh_traffic : View → View × List Waiting
unfolding load
refresh_traffic v =
    if v.refreshing_traffic || v.mutating
    then (v, [])
    else load refresh (record v { refreshing_traffic = true })

-- `mutate`, up to its request.
unfoldable pub start_mutation : Text → Message → View → View × List Waiting
start_mutation url message v =
    if v.mutating
    then (v, [])
    else (record v { mutating = true; revision = suc v.revision }, posted url message ∷ [])

unfoldable pub post_done : Message → Reply → View → View × List Waiting
unfolding load
post_done message (fulfilled b, now) v = load mutate (emit message v)
post_done message (rejected e, now) v = (emit (error_message e) (record v { mutating = false }), [])

unfoldable pub select_sub_format : SubFormat → View → View × List Waiting
select_sub_format format v = elim v.data_shown [
  | none ↦ (record v { sub_format = format }, [])
  | some d ↦ (
    record v { sub_format = format; qr_revision = suc v.qr_revision },
    drawn (suc v.qr_revision) (format_sub_url d.subscription_url format) d.subscription_name ∷ [],
  )
]

unfoldable pub draw_done : ℕ → Reply → View → View
draw_done current (fulfilled b, now) v =
    if not v.disposed && current == v.qr_revision then record v { qr = b.as_card } else v
draw_done current (rejected e, now) v = v

unfoldable pub poll : ℕ → View → View × List Waiting
unfolding load load_server
poll now v =
    let w = record v { status = tick now v.status } in
    let (u, more) = load ignoring w in
    if v.pending == 0 && not v.mutating then (u, more ++ (server_listed ignoring ∷ [])) else (w, [])

unfoldable pub calibrated : Message → View → View × List Waiting
unfolding load
calibrated m v = load ignoring (emit m (record v { calibrating = false }))

unfoldable pub save_qr : View → View
save_qr v = elim v.data_shown [
  | none ↦ v
  | some d ↦ elim v.qr [
    | [] ↦ v
    | c ∷ s ↦
        emit (t "dashboard.qrSaved") (record v { saved = (c ∷ s, d.subscription_name) ∷ v.saved })
  ]
]

-- What the template, the interval and the browser call.
pub data Action : Type 0 where
  mounted interval : ℕ → Action
  unmounted refresh_clicked restart_confirmed reset_confirmed save_clicked : Action
  calibrate_clicked calibrate_closed : Action
  calibrate_done : Message → Action
  format_clicked : SubFormat → Action

unfoldable pub handle : Action → View → View × List Waiting
handle (mounted now) v = let (w, more) = poll now v in (record w { ticking = true }, more)
handle (interval now) v = if v.ticking then poll now v else (v, [])
handle unmounted v = (record v { disposed = true; revision = suc v.revision; ticking = false }, [])
handle refresh_clicked v = refresh_traffic v
handle restart_confirmed v =
    start_mutation (codes "/api/core/restart") (t "dashboard.restartDone") v
handle reset_confirmed v = start_mutation (codes "/api/traffic/reset") (t "dashboard.resetDone") v
handle save_clicked v = (save_qr v, [])
handle calibrate_clicked v = (record v { calibrating = true }, [])
handle calibrate_closed v = (record v { calibrating = false }, [])
handle (calibrate_done m) v = calibrated m v
handle (format_clicked f) v = select_sub_format f v

unfoldable pub resume : Waiting → Reply → View → View × List Waiting
resume (listed n caller) r v = load_done n caller r v
resume (rendered n q next url caller) r v = render_done n q next caller r v
resume (returned caller o) r v = returned_to caller o v
resume (server_listed caller) r v = (load_server_done r v, after_server caller)
resume refreshed r v =
    (emit (t "dashboard.refreshed") (record v { refreshing_traffic = false }), [])
resume (posted url message) r v = post_done message r v
resume (drawn n url name) r v = (draw_done n r v, [])
