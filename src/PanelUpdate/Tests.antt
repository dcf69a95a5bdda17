-- ===== src/PanelUpdate/Tests.antt =====
-- Runs of the update dialog.
use sbm.Base.{◌≡◌, refl, ℕ, true, false, none, some, List, [], ◌∷◌, arith, sum_by}
use sbm.Base.Text.{codes}
use sbm.Message.{Thrown, exception, error_message}
use sbm.Async.{Event, call, settle, fulfilled, rejected, step, run}
use sbm.PanelUpdate.{
  Panel, setup, UpdateStatus, JobState, running, succeeded, post_update, Body, Reply, Action,
  interval, install_clicked, busy, job_running, handle, resume, progressed, toast,
}
use sbm.PanelUpdate.Invariant.{IsSound, start, run-IsSound, installs}
use sbm.PanelUpdate.Laws.{
  reloads, posts-step, reloads-step, Finished, job-run, lost_answer, run-lost_answer, polled_answer,
  run-polled_answer,
}

dialog : Unit {0}
unfolding run handle resume setup
dialog = tt

abbrev release : UpdateStatus
release = record {
  current_version = "2.1.6";
  latest_version = "2.1.7";
  update_available = true;
  release_url = "";
  checked_at = "";
  can_install = true;
}

abbrev answer : JobState → Body
answer s = record {
  as_status = release;
  as_job = record {
    state = s;
    phase = "downloading";
    target_version = "2.1.7";
    rolled_back = false;
    updated_at = "";
  };
}

abbrev offline : Thrown
offline = exception (codes "timeout")

-- An install, a poll that fails during the restart, and one that finds the job done.
abbrev session : List (Event Action Reply)
session =
    call install_clicked
    ∷ settle 0 (fulfilled (answer running))
    ∷ call interval
    ∷ settle 0 (rejected offline)
    ∷ call interval
    ∷ []

session_end :
    reloads
      (step handle resume
        (run handle resume start session)
        (settle 0 (fulfilled (answer succeeded)))).state.log
    ≡ 1
unfolding dialog
session_end = refl

run-IsSound_example : IsSound (run handle resume start session)
run-IsSound_example = run-IsSound session

posts-step_example :
    (◌≡◌ {A = Event Action Reply} (call install_clicked) (call install_clicked))
    × (job_running start.state ≡ false)
    × (sum_by installs start.waiting ≡ 0)
unfolding dialog
posts-step_example = posts-step start (call install_clicked) (run-IsSound []) (omega arith)

reloads-step_example :
    (i : ℕ) × (r : Reply) × (◌≡◌ {A = Event Action Reply}
      (settle 0 (fulfilled (answer succeeded)))
      (settle i r))
    × Finished (run handle resume start session) i r
unfolding dialog
reloads-step_example =
    reloads-step (run handle resume start session) (settle 0 (fulfilled (answer succeeded)))
      (omega arith)

abbrev followed : Panel
followed = record {
  release = some release;
  job = some (answer running).as_job;
  is_open = true;
  checking = false;
  starting = false;
  reconnecting = false;
  timer = true;
  ticking = true;
  disposed = false;
  polling = false;
  log = [];
}

job-run_outage :
    (run handle resume
      (record { state = followed; waiting = [] })
      (call interval ∷ settle 0 (rejected offline) ∷ [])).state.job
    ≡ some (answer running).as_job
job-run_outage =
    job-run (record { state = followed; waiting = [] })
      (call interval ∷ settle 0 (rejected offline) ∷ []) ((λ e. cc), (tt, tt))

abbrev ready : Panel
ready = record {
  release = some release;
  job = none;
  is_open = true;
  checking = false;
  starting = false;
  reconnecting = true;
  timer = false;
  ticking = false;
  disposed = false;
  polling = false;
  log = [];
}

ready_free : busy ready ≡ false
unfolding busy
ready_free = refl

reading_free : busy (record ready { polling = true }) ≡ false
unfolding busy
reading_free = refl

run-lost_answer_example :
    run handle resume
      (record { state = ready; waiting = [] })
      (lost_answer offline (answer running))
    ≡ record {
      state = record {
        release = some release;
        job = some (answer running).as_job;
        is_open = true;
        checking = false;
        starting = false;
        reconnecting = false;
        timer = true;
        ticking = true;
        disposed = false;
        polling = false;
        log = post_update ∷ [];
      };
      waiting = [];
    }
run-lost_answer_example =
    run-lost_answer ready offline (answer running) ready_free refl refl refl refl

run-polled_answer_example :
    run handle resume
      (record { state = record ready { polling = true }; waiting = progressed false none ∷ [] })
      (polled_answer offline (answer running))
    ≡ record {
      state = record {
        release = some release;
        job = some (answer running).as_job;
        is_open = true;
        checking = false;
        starting = false;
        reconnecting = false;
        timer = true;
        ticking = true;
        disposed = false;
        polling = false;
        log = toast (error_message offline) ∷ post_update ∷ [];
      };
      waiting = [];
    }
run-polled_answer_example =
    run-polled_answer (record ready { polling = true }) offline (answer running) reading_free refl
      refl refl refl
