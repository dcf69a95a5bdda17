-- ===== src/PanelUpdate.antt =====
-- The script of web/src/components/PanelUpdate.vue: checking for a release, installing it, and
-- following the job over the restart of the panel. Each handler is cut at its `await`s: what comes
-- after one is a case of `resume`. `log` keeps the effects on the world, the last one first.
pub mod Page
pub mod Invariant
pub mod Laws
mod Tests
mod Script
use sbm.Base.{
  Bool, true, false, ◌||◌, not, String, Option, none, some, List, [], ◌∷◌, ◌++◌, if◌then◌else◌,
}
use sbm.Message.{Message, tr, t, Thrown, error_message}
use sbm.Base.Text.{codes}
use sbm.Async.{Settled, fulfilled, rejected}

-- web/src/types.ts
pub record UpdateStatus : Type 0 where
  pub current_version : String
  pub latest_version : String
  pub update_available : Bool
  pub release_url : String
  pub checked_at : String
  pub can_install : Bool

pub data JobState : Type 0 where
  idle running succeeded failed : JobState

pub record PanelUpdateJob : Type 0 where
  pub state : JobState
  pub phase : String
  pub target_version : String
  pub rolled_back : Bool
  pub updated_at : String

pub data Effect : Type 0 where
  toast : Message → Effect
  post_update : Effect
  reload : Effect

-- The refs and variables. `timer` says that the handle is not 0, `ticking` that its interval lives.
pub record Panel : Type 0 where
  pub release : Option UpdateStatus
  pub job : Option PanelUpdateJob
  pub is_open : Bool
  pub checking : Bool
  pub starting : Bool
  pub reconnecting : Bool
  pub timer : Bool
  pub ticking : Bool
  pub disposed : Bool
  pub polling : Bool
  pub log : List Effect

unfoldable pub setup : Panel
setup = record {
  release = none;
  job = none;
  is_open = false;
  checking = false;
  starting = false;
  reconnecting = false;
  timer = false;
  ticking = false;
  disposed = false;
  polling = false;
  log = [];
}

abbrev pub is_running : JobState → Bool
is_running running = true
is_running _ = false

abbrev pub is_failed : JobState → Bool
is_failed failed = true
is_failed _ = false

abbrev pub is_succeeded : JobState → Bool
is_succeeded succeeded = true
is_succeeded _ = false

-- `job.value?.state === 'running'`
unfoldable pub job_running : Panel → Bool
job_running p = elim p.job [ none ↦ false | some j ↦ is_running j.state ]

-- the computed `running`
unfoldable pub busy : Panel → Bool
unfolding job_running
busy p = p.starting || job_running p

-- What waits behind an `await`: of `check`, of `readProgress` (which `install` may have called in its
-- `catch`, with what it caught), of `install`, and of `install` behind that `readProgress`.
pub data Waiting : Type 0 where
  checked : Bool → Waiting
  progressed : Bool → Option Thrown → Waiting
  installed : Waiting
  recovered : Thrown → Waiting

-- The JSON of an answer, at either type that a caller casts it to.
pub record Body : Type 0 where
  pub as_status : UpdateStatus
  pub as_job : PanelUpdateJob

abbrev pub Reply : Type 0
Reply = Settled Body Thrown

abbrev emit : Effect → Panel → Panel
emit e p = record p { log = e ∷ p.log }

-- the computed `label`
abbrev pub release_label : Option UpdateStatus → Message
release_label none = t "dashboard.checkUpdate"
release_label (some r) =
    if r.update_available
    then tr "dashboard.updateFound" (("version", codes r.latest_version) ∷ [])
    else t "dashboard.checkUpdate"

unfoldable pub label : Panel → Message
unfolding busy
label p = if busy p then t "update.running" else release_label p.release

-- `check`, up to its request.
unfoldable pub check : Bool → Panel → Panel × List Waiting
unfolding busy
check notify p =
    if busy p
    then (record p { is_open = true }, [])
    else (record p { checking = true }, checked notify ∷ [])

notify_release : UpdateStatus → Panel → Panel
notify_release r p =
    if r.update_available
    then record p { is_open = true }
    else emit (toast (t "dashboard.updateCurrent")) p

-- The rest of `check`, its `finally` included.
unfoldable pub check_done : Bool → Reply → Panel → Panel
unfolding notify_release
check_done notify (fulfilled b) p =
    let q = record p { release = some b.as_status; checking = false } in
    if notify then notify_release b.as_status q else q
check_done notify (rejected e) p =
    let q = record p { checking = false } in
    if notify then emit (toast (t "dashboard.updateFailed")) q else q

unfoldable pub watch_job : Panel → Panel
watch_job p =
    if p.disposed then p else if p.timer then p else record p { timer = true; ticking = true }

-- What runs when `readProgress` has returned.
abbrev pub resume_caller : Option Thrown → List Waiting
resume_caller none = []
resume_caller (some e) = recovered e ∷ []

-- `readProgress`, up to its request.
unfoldable pub read_progress : Bool → Option Thrown → Panel → Panel × List Waiting
read_progress watching caller p =
    if p.polling
    then (p, resume_caller caller)
    else (record p { polling = true }, progressed watching caller ∷ [])

-- An answer of the job's state, to a component that is still mounted.
unfoldable pub follow : Bool → PanelUpdateJob → Panel → Panel
unfolding job_running watch_job
follow watching next p =
    let seen = record p { reconnecting = false } in
    if is_running next.state
    then watch_job
        (record seen { is_open = seen.is_open || not (job_running seen); job = some next })
    else if watching || is_failed next.state
    then (let ended = record seen { job = some next; timer = false; ticking = false } in
        if is_succeeded next.state then emit reload ended else ended)
    else seen

-- The rest of `readProgress`.
unfoldable pub progress_done : Bool → Reply → Panel → Panel
unfolding follow
progress_done watching (fulfilled b) p =
    record (if p.disposed then p else follow watching b.as_job p) { polling = false }
progress_done watching (rejected e) p = record p {
  reconnecting = p.reconnecting || watching;
  polling = false;
}

-- `install`, up to its request.
unfoldable pub install : Panel → Panel × List Waiting
unfolding busy
install p =
    if busy p then (p, []) else (emit post_update (record p { starting = true }), installed ∷ [])

-- The rest of `install`: its `catch` awaits `readProgress` first.
unfoldable pub install_done : Reply → Panel → Panel × List Waiting
unfolding watch_job read_progress
install_done (fulfilled b) p =
    (record (watch_job (record p { job = some b.as_job })) { starting = false }, [])
install_done (rejected e) p = read_progress false (some e) p

unfoldable pub recover_done : Thrown → Panel → Panel
unfolding job_running error_message
recover_done e p = record (if job_running p then p else emit (toast (error_message e)) p) {
  starting = false;
}

unfoldable pub resume : Waiting → Reply → Panel → Panel × List Waiting
unfolding check_done progress_done install_done recover_done
resume (checked notify) r p = (check_done notify r p, [])
resume (progressed watching caller) r p = (progress_done watching r p, resume_caller caller)
resume installed r p = install_done r p
resume (recovered e) r p = (recover_done e p, [])

-- What the user, the browser and the interval of `watchJob` call.
pub data Action : Type 0 where
  mounted unmounted interval check_clicked install_clicked retry_clicked closed : Action

unfoldable pub handle : Action → Panel → Panel × List Waiting
unfolding check read_progress install
handle mounted p =
    let (q, first) = check false p in
    let (q', second) = read_progress false none q in (q', first ++ second)
handle unmounted p = (record p { disposed = true; ticking = false }, [])
handle interval p = if p.ticking then read_progress true none p else (p, [])
handle check_clicked p = check true p
handle install_clicked p = install p
handle retry_clicked p = check true (record p { job = none })
handle closed p = (record p { is_open = false }, [])
