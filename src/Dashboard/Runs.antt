-- ===== src/Dashboard/Runs.antt =====
-- Runs of the overview, among them those of web/scripts/ui-state-unit.mjs and polling-unit.mjs.
use sbm.Base.{ℕ, ◌≡◌, refl, Bool, true, false, Option, none, some, List, [], ◌∷◌}
use sbm.Base.Text.{Text, codes}
use sbm.Message.{exception}
use sbm.Async.{Sys, Event, call, settle, fulfilled, rejected, step, run}
use sbm.PollStatus.{use_poll_status, stale, tick, succeeded, failed}
use sbm.Types.{ServerStatus, HealthStatus, SampleStatus, gb, single, CoreStatus, JsonNumber}
use sbm.Types.Gateway.{Dashboard}
use sbm.Dashboard.{main_part, hash_part, has_query, separator, with_target, format_sub_url}
use sbm.Dashboard.View.{
  View, setup, Waiting, Body, Reply, load, accept, fail, load_done, render_done, load_server,
  load_server_done, returned_to, refresh_traffic, start_mutation, post_done, select_sub_format,
  draw_done, poll, calibrated, save_qr, Action, mounted, interval, unmounted, reset_confirmed,
  handle, resume,
}
use sbm.Dashboard.Invariant.{start}

view : Unit {0}
unfolding run step handle resume setup load accept fail load_done render_done load_server
    load_server_done returned_to refresh_traffic start_mutation post_done select_sub_format
    draw_done poll calibrated save_qr use_poll_status stale tick succeeded failed main_part
    hash_part has_query separator with_target format_sub_url
view = tt

abbrev nothing : JsonNumber
nothing = record { digits = 0; behind = 0 }

abbrev pub snapshot : Text → ℕ → Bool → Dashboard
snapshot url used exceeded = record {
  traffic_source = [];
  network_interface = [];
  network_reason = [];
  network_available = false;
  network_partial = false;
  egress_gateways = [];
  core_status = CoreStatus.running;
  core_version = [];
  panel_version = [];
  upload = 0;
  download = 0;
  proxy_used_bytes = 0;
  traffic_quota = record {
    amount = nothing;
    unit = gb;
    billing_mode = single;
    headroom_percent = 10;
  };
  effective_limit_bytes = 0;
  provider_allowance_bytes = 0;
  estimated_provider_used_bytes = used;
  provider_stop_bytes = 0;
  provider_remaining_bytes = 0;
  provider_progress = nothing;
  realtime_estimate_bytes = none;
  usage_calibrated = none;
  period_started_at = [];
  next_reset_at = none;
  quota_exceeded = exceeded;
  sample_health = record {
    status = SampleStatus.healthy;
    last_success_at = none;
    failure_since = none;
  };
  persistence_health = none;
  subscription_url = url;
  subscription_name = codes "Demo";
}

abbrev pub host : ServerStatus
host = record {
  hostname = [];
  os = [];
  kernel = [];
  architecture = [];
  cpu_cores = 1;
  cpu_percent = nothing;
  load1 = nothing;
  load5 = nothing;
  load15 = nothing;
  memory_total = 0;
  memory_used = 0;
  memory_percent = nothing;
  disk_total = 0;
  disk_used = 0;
  disk_percent = nothing;
  uptime_seconds = 0;
  collected_at = [];
  health = record { overall = HealthStatus.ok; checks = []; checked_at = [] };
}

abbrev pub answer : Dashboard → Text → Body
answer d c = record { as_dashboard = d; as_server = host; as_card = c }

abbrev pub sent : Dashboard → Text → ℕ → Reply
sent d c now = (fulfilled (answer d c), now)

abbrev pub full : Dashboard
full = snapshot (codes "https://n/s") 900 true

abbrev pub emptied : Dashboard
emptied = snapshot (codes "https://n/s") 0 false

-- A load; another, whose answer is held back; the reset with its own load; and the old answer.
abbrev pub race : List (Event Action Reply)
race =
    call (mounted 0)
    ∷ settle 1 (sent full [] 0)
    ∷ settle 0 (sent full [] 0)
    ∷ settle 0 (sent full (codes "demo") 0)
    ∷ settle 0 (sent full [] 0)
    ∷ call (interval 5000)
    ∷ settle 1 (sent full [] 0)
    ∷ call reset_confirmed
    ∷ settle 1 (sent full [] 0)
    ∷ settle 1 (sent emptied [] 5000)
    ∷ settle 1 (sent full [] 0)
    ∷ settle 0 (sent full [] 5000)
    ∷ []

abbrev used_of : Option Dashboard → ℕ
used_of none = 0
used_of (some d) = d.estimated_provider_used_bytes

-- Used bytes, whether the core stopped, and whether a change is under way.
data_shown-race : (run handle resume (start 0) race).state.data_shown ≡ some emptied
unfolding view
data_shown-race = refl

mutating-race : (run handle resume (start 0) race).state.mutating ≡ false
unfolding view
mutating-race = refl

-- Another load, whose answer comes when the view has been left.
abbrev left : List (Event Action Reply)
left = call (interval 10000) ∷ call unmounted ∷ settle 1 (sent full [] 10000) ∷ []

data_shown-left :
    (run handle resume (run handle resume (start 0) race) left).state.data_shown ≡ some emptied
unfolding view
data_shown-left = refl

-- A load that succeeds, and one that fails at once.
abbrev outage : Sys View Waiting
outage = run handle resume (start 100000) (
    call (mounted 100000)
    ∷ settle 0 (sent full [] 100000)
    ∷ settle 1 (sent full (codes "demo") 100000)
    ∷ settle 0 (sent full [] 100000)
    ∷ settle 0 (sent full [] 100000)
    ∷ call (interval 100000)
    ∷ settle 0 (rejected (exception (codes "offline")), 100000)
    ∷ settle 1 (rejected (exception []), 100000)
    ∷ settle 0 (sent full [] 100000)
    ∷ [])

-- A load that fails after 16 seconds, and one that succeeds then.
abbrev outage_goes_on : Sys View Waiting
outage_goes_on = run handle resume outage (
    call (interval 116000)
    ∷ settle 0 (rejected (exception (codes "offline")), 116000)
    ∷ settle 1 (sent full [] 116000)
    ∷ settle 0 (sent full [] 116000)
    ∷ [])

abbrev recovered : Sys View Waiting
recovered =
    run handle resume outage_goes_on (call (interval 116000) ∷ settle 0 (sent full [] 116000) ∷ [])

stale-outage : stale outage.state.status ≡ false
unfolding view
stale-outage = refl

stale-outage_goes_on : stale outage_goes_on.state.status ≡ true
unfolding view
stale-outage_goes_on = refl

stale-recovered : stale recovered.state.status ≡ false
unfolding view
stale-recovered = refl
