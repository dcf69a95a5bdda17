-- ===== src/Server/Tests.antt =====
-- Runs of the page of the traffic, among them that of web/scripts/polling-unit.mjs.
use sbm.Base.{◌≡◌, refl, true, false, some, none, List, [], ◌∷◌}
use sbm.Base.Text.{codes}
use sbm.Message.{exception}
use sbm.Async.{Sys, Event, call, settle, fulfilled, rejected, run}
use sbm.PollStatus.{use_poll_status, stale, tick, succeeded, failed}
use sbm.Types.{gb, single, CoreStatus, SampleStatus}
use sbm.Types.Gateway.{Dashboard}
use sbm.Server.{
  View, setup, Waiting, Reply, load, load_done, Action, mounted, interval, tab_clicked, apps,
  handle, resume,
}
use sbm.Server.Laws.{start, run-Taken}

abbrev overview : Dashboard
overview = record {
  traffic_source = [];
  network_interface = [];
  network_reason = [];
  network_available = false;
  network_partial = false;
  egress_gateways = [];
  core_status = CoreStatus.running;
  core_version = [];
  panel_version = [];
  upload = 0;
  download = 0;
  proxy_used_bytes = 0;
  traffic_quota = record {
    amount = record { digits = 0; behind = 0 };
    unit = gb;
    billing_mode = single;
    headroom_percent = 10;
  };
  effective_limit_bytes = 0;
  provider_allowance_bytes = 0;
  estimated_provider_used_bytes = 0;
  provider_stop_bytes = 0;
  provider_remaining_bytes = 0;
  provider_progress = record { digits = 0; behind = 0 };
  realtime_estimate_bytes = none;
  usage_calibrated = none;
  period_started_at = [];
  next_reset_at = none;
  quota_exceeded = false;
  sample_health = record {
    status = SampleStatus.healthy;
    last_success_at = none;
    failure_since = none;
  };
  persistence_health = none;
  subscription_url = [];
  subscription_name = [];
}

view : Unit {0}
unfolding run handle resume setup load load_done use_poll_status stale tick succeeded failed
view = tt

-- A load that succeeds; one that fails at once, and one that fails after 16 seconds; one that succeeds then.
abbrev outage : Sys View Waiting
outage = run handle resume (start 100000) (
    call (mounted 100000)
    ∷ settle 0 (fulfilled overview, 100000)
    ∷ call (interval 100000)
    ∷ settle 0 (rejected (exception (codes "offline")), 100000)
    ∷ [])

abbrev outage_goes_on : Sys View Waiting
outage_goes_on =
    run handle resume outage
      (call (interval 116000) ∷ settle 0 (rejected (exception (codes "offline")), 116000) ∷ [])

abbrev recovered : Sys View Waiting
recovered =
    run handle resume outage_goes_on
      (call (interval 116000) ∷ settle 0 (fulfilled overview, 116000) ∷ [])

stale-outage : stale outage.state.status ≡ false
unfolding view
stale-outage = refl

stale-outage_goes_on : stale outage_goes_on.state.status ≡ true
unfolding view
stale-outage_goes_on = refl

stale-recovered : stale recovered.state.status ≡ false
unfolding view
stale-recovered = refl

-- Two polls, one of them while the other's request is in flight.
abbrev polls : List (Event Action Reply)
polls =
    call (mounted 0)
    ∷ settle 0 (fulfilled overview, 0)
    ∷ call (interval 15000)
    ∷ call (tab_clicked apps)
    ∷ call (interval 30000)
    ∷ []

run-Taken_example :
    (load_done 2 (fulfilled overview, 30001) (run handle resume (start 0) polls).state).data_shown
    ≡ some overview
unfolding view
run-Taken_example = run-Taken 0 polls 0 2 overview 30001 refl refl
