-- ===== src/Server.antt =====
-- The script of web/src/views/ServerView.vue: the page of the traffic, which polls the overview for the
-- unit that its two tabs show.
pub mod Page
pub mod Laws
mod Tests
use sbm.Base.{
  ℕ, suc, ◌-◌, Bool, true, false, ◌&&◌, ◌||◌, not, Option, none, some, List, [], ◌∷◌, ◌==◌,
  if◌then◌else◌,
}
use sbm.Message.{Thrown}
use sbm.Async.{Settled, fulfilled, rejected}
use sbm.PollStatus.{PollStatus, use_poll_status, tick, succeeded, failed}
use sbm.Types.{TrafficUnit, gb}
use sbm.Types.Gateway.{Dashboard}

pub data TrafficTab : Type 0 where
  history apps : TrafficTab

-- `status` is what `usePollStatus` keeps; `ticking` says that the interval lives.
pub record View : Type 0 where
  pub data_shown : Option Dashboard
  pub active_tab : TrafficTab
  pub revision : ℕ
  pub disposed : Bool
  pub pending : ℕ
  pub status : PollStatus
  pub ticking : Bool

unfoldable pub setup : ℕ → View
setup now = record {
  data_shown = none;
  active_tab = history;
  revision = 0;
  disposed = false;
  pending = 0;
  status = use_poll_status now;
  ticking = false;
}

unfoldable pub unit : View → TrafficUnit
unit v = elim v.data_shown [ none ↦ gb | some d ↦ d.traffic_quota.unit ]

-- What waits behind the `await` of `load`, with its number.
pub data Waiting : Type 0 where
  listed : ℕ → Waiting

-- An answer and the time at which it comes.
abbrev pub Reply : Type 0
Reply = Settled Dashboard Thrown × ℕ

unfoldable pub load : ℕ → View → View × List Waiting
load now v =
    let w = record v { status = tick now v.status } in
    let request = suc v.revision in
    if v.pending == 0
    then (record w { revision = request; pending = suc v.pending }, listed request ∷ [])
    else (w, [])

unfoldable pub load_done : ℕ → Reply → View → View
load_done request (fulfilled next, now) v =
    let w = record v { pending = v.pending - 1 } in
    if v.disposed || not (request == v.revision)
    then w
    else record w { data_shown = some next; status = succeeded now v.status }
load_done request (rejected e, now) v =
    let w = record v { pending = v.pending - 1 } in
    if not v.disposed && request == v.revision then record w { status = failed now v.status } else w

pub data Action : Type 0 where
  mounted interval : ℕ → Action
  unmounted : Action
  tab_clicked : TrafficTab → Action

unfoldable pub handle : Action → View → View × List Waiting
handle (mounted now) v = let (w, more) = load now v in (record w { ticking = true }, more)
handle (interval now) v = if v.ticking then load now v else (v, [])
handle unmounted v = (record v { disposed = true; revision = suc v.revision; ticking = false }, [])
handle (tab_clicked tab) v = (record v { active_tab = tab }, [])

unfoldable pub resume : Waiting → Reply → View → View × List Waiting
resume (listed n) r v = (load_done n r v, [])
