-- ===== src/PanelUpdate/Script.antt =====
-- The runs of web/scripts/panel-update-unit.mjs, with the polls of its interval as the reads that it calls.
use sbm.Base.{◌≡◌, refl, ℕ, Bool, true, false, Option, none, some, List, [], ◌∷◌, ◌++◌, sum_by}
use sbm.Base.Text.{codes}
use sbm.Message.{exception}
use sbm.Async.{Sys, Event, call, settle, fulfilled, rejected, run}
use sbm.PanelUpdate.{
  Panel, setup, PanelUpdateJob, JobState, idle, running, succeeded, failed, Effect, post_update,
  Body, Reply, Action, Waiting, mounted, unmounted, interval, check_clicked, install_clicked,
  closed, job_running, handle, resume,
}
use sbm.PanelUpdate.Invariant.{start}
use sbm.PanelUpdate.Laws.{reloads}

dialog : Unit {0}
unfolding run handle resume setup job_running
dialog = tt

abbrev answer : JobState → Bool → Body
answer s rolled_back = record {
  as_status = record {
    current_version = "";
    latest_version = "v2.1.1";
    update_available = true;
    release_url = "";
    checked_at = "";
    can_install = true;
  };
  as_job = record {
    state = s;
    phase = "queued";
    target_version = "v2.1.1";
    rolled_back = rolled_back;
    updated_at = "";
  };
}

abbrev from_start : List (Event Action Reply) → Sys Panel Waiting
from_start = run handle resume start

abbrev posts : Effect → ℕ
posts post_update = 1
posts _ = 0

-- A check, and two clicks on the install.
abbrev double_click : List (Event Action Reply)
double_click =
    call check_clicked
    ∷ settle 0 (fulfilled (answer idle false))
    ∷ call install_clicked
    ∷ settle 0 (fulfilled (answer running false))
    ∷ call install_clicked
    ∷ []

posts-double_click : sum_by posts (from_start double_click).state.log ≡ 1
unfolding dialog
posts-double_click = refl

is_open-double_click : (from_start double_click).state.is_open ≡ true
unfolding dialog
is_open-double_click = refl

-- A poll that finds no connection.
abbrev outage : List (Event Action Reply)
outage =
    double_click
    ++ (call interval ∷ settle 0 (rejected (exception (codes "temporarily disconnected"))) ∷ [])

reconnecting-outage : (from_start outage).state.reconnecting ≡ true
unfolding dialog
reconnecting-outage = refl

job_running-outage : job_running (from_start outage).state ≡ true
unfolding dialog
job_running-outage = refl

-- And one that finds the job done.
abbrev ended : List (Event Action Reply)
ended = outage ++ (call interval ∷ settle 0 (fulfilled (answer succeeded false)) ∷ [])

reloads-ended : reloads (from_start ended).state.log ≡ 1
unfolding dialog
reloads-ended = refl

-- A job that fails and is rolled back.
abbrev failure : List (Event Action Reply)
failure =
    call install_clicked
    ∷ settle 0 (fulfilled (answer running false))
    ∷ call interval
    ∷ settle 0 (fulfilled (answer failed true))
    ∷ []

abbrev was_rolled_back : Option PanelUpdateJob → Bool
was_rolled_back none = false
was_rolled_back (some j) = j.rolled_back

rolled_back-failure : was_rolled_back (from_start failure).state.job ≡ true
unfolding dialog
rolled_back-failure = refl

reloads-failure : reloads (from_start failure).state.log ≡ 0
unfolding dialog
reloads-failure = refl

-- A page that is opened while a job runs, and a dialog that is closed then.
abbrev restored : List (Event Action Reply)
restored = call mounted ∷ settle 1 (fulfilled (answer running false)) ∷ []

is_open-restored : (from_start restored).state.is_open ≡ true
unfolding dialog
is_open-restored = refl

ticking-restored : (from_start restored).state.ticking ≡ true
unfolding dialog
ticking-restored = refl

abbrev hidden : List (Event Action Reply)
hidden =
    restored ++ (call closed ∷ call interval ∷ settle 1 (fulfilled (answer running false)) ∷ [])

is_open-hidden : (from_start hidden).state.is_open ≡ false
unfolding dialog
is_open-hidden = refl

-- The answer to the install is lost, and the job is found running.
abbrev lost : List (Event Action Reply)
lost =
    call install_clicked
    ∷ settle 0 (rejected (exception (codes "lost launch response")))
    ∷ settle 0 (fulfilled (answer running false))
    ∷ settle 0 (fulfilled (answer running false))
    ∷ []

job_running-lost : job_running (from_start lost).state ≡ true
unfolding dialog
job_running-lost = refl

log-lost : (from_start lost).state.log ≡ post_update ∷ []
unfolding dialog
log-lost = refl

-- The page is left before the install is answered.
abbrev navigated : List (Event Action Reply)
navigated = call install_clicked ∷ call unmounted ∷ settle 0 (fulfilled (answer running false)) ∷ []

ticking-navigated : (from_start navigated).state.ticking ≡ false
unfolding dialog
ticking-navigated = refl
