-- ===== src/Dashboard/Page.antt =====
-- The texts in the template of web/src/views/DashboardView.vue.
use sbm.Base.{ℕ, Bool, true, false, ◌&&◌, not, Option, none, some, List, [], ◌∷◌, ◌++◌, ◌==◌}
use sbm.Base.Text.{Text, codes, text_eq}
use sbm.Base.Decimal.{decimal}
use sbm.Message.{Message, t, tr}
use sbm.PollStatus.{stale}
use sbm.Page.{
  Block, each, Format, date_of, undated, is_some, is_empty, is_true, is_nonzero, is_interrupted,
}
use sbm.Types.{CoreStatus, SampleStatus, ServerStatus}
use sbm.Types.Gateway.{GatewayUsage, GatewaySampleStatus, Dashboard}
use sbm.Dashboard.{SubFormat, auto, clash, singbox, v2ray, uptime}
use sbm.Dashboard.Texts.{
  Label, one, joined, sample_label, sample_detail, active_gateways, known_time,
}
use sbm.Dashboard.View.{View}

-- The times that the labels of the sampling compare, and the text of a message in the language of the moment.
pub record Clock : Type 0 where
  pub time_of : Text → ℕ
  pub now : ℕ
  pub text_of : Option Message → Text

abbrev pub core_label : CoreStatus → Message
core_label CoreStatus.running = t "dashboard.running"
core_label CoreStatus.stopped = t "dashboard.stopped"
core_label CoreStatus.unknown = t "dashboard.unknown"

abbrev format_label : SubFormat → Message
format_label auto = t "dashboard.subFormatAuto"
format_label clash = t "dashboard.subFormatClash"
format_label singbox = t "dashboard.subFormatSingbox"
format_label v2ray = t "dashboard.subFormatV2ray"

abbrev pub label_texts : Label → List Message
label_texts (one m) = m ∷ []
label_texts (joined m none) = m ∷ []
label_texts (joined m (some n)) = m ∷ n ∷ []

abbrev pub detail_texts : Option Message → List Message
detail_texts none = []
detail_texts (some m) = m ∷ []

abbrev is_broken : SampleStatus → Bool
is_broken SampleStatus.interrupted = true
is_broken _ = false

abbrev pub sample_text : GatewaySampleStatus → Message
sample_text GatewaySampleStatus.waiting = t "egress.sample.waiting"
sample_text GatewaySampleStatus.healthy = t "egress.sample.healthy"
sample_text GatewaySampleStatus.interrupted = t "egress.sample.interrupted"
sample_text GatewaySampleStatus.disabled = t "egress.sample.disabled"

-- The head, the state of the core and the subscription.
unfoldable pub head : View → Dashboard → List Block
head v d =
    (
      true,
      t "dashboard.title"
          ∷ t "dashboard.reset"
          ∷ t "dashboard.resetConfirm"
          ∷ t "dashboard.restart"
          ∷ t "dashboard.restartConfirm"
          ∷ [],
    )
    ∷ (stale v.status, t "api.stale" ∷ [])
    ∷ (d.quota_exceeded, t "dashboard.exceeded" ∷ t "dashboard.exceededHelp" ∷ [])
    ∷ (true, core_label d.core_status ∷ [])
    ∷ undated (t "dashboard.noReset") (some d.period_started_at)
    ∷ undated (t "dashboard.noReset") d.next_reset_at
    ∷ (
      true,
      t "dashboard.subscription"
          ∷ format_label auto
          ∷ format_label clash
          ∷ format_label singbox
          ∷ format_label v2ray
          ∷ t "dashboard.subscriptionHelp"
          ∷ t "dashboard.copy"
          ∷ t "dashboard.secretHelp"
          ∷ tr "dashboard.qrAlt" (("name", d.subscription_name) ∷ [])
          ∷ t "dashboard.qrDownload"
          ∷ [],
    )
    ∷ []

abbrev or_zero : Option ℕ → ℕ
or_zero none = 0
or_zero (some n) = n

-- The usage of the plan, but for the sampling.
unfoldable pub usage : Format → Dashboard → List Block
usage f d =
    let unit = d.traffic_quota.unit in
    let limited = not (d.provider_allowance_bytes == 0) in
    let estimate = or_zero d.realtime_estimate_bytes in
    (true, t "dashboard.refreshHelp" ∷ t "dashboard.refresh" ∷ [])
    ∷ (
      text_eq d.traffic_source (codes "vnstat"),
      t "network.calibrateHelp" ∷ t "network.calibrate" ∷ [],
    )
    ∷ (
      limited,
      tr "dashboard.providerSummary" (
            ("total", f.amount d.provider_allowance_bytes unit)
            ∷ ("remaining", f.amount d.provider_remaining_bytes unit)
            ∷ ("reserve", decimal d.traffic_quota.headroom_percent)
            ∷ [])
          ∷ [],
    )
    ∷ (not limited, t "dashboard.unlimitedHelp" ∷ [])
    ∷ (d.network_partial, t "network.partial" ∷ [])
    ∷ (is_true d.usage_calibrated, t "network.calibrated" ∷ [])
    ∷ (
      is_nonzero d.realtime_estimate_bytes && is_broken d.sample_health.status,
      tr "network.realtimeEstimate" (("amount", f.amount estimate unit) ∷ []) ∷ [],
    )
    ∷ (is_interrupted d.persistence_health, t "egress.persistenceFailed" ∷ [])
    ∷ (not limited, t "dashboard.unlimited" ∷ [])
    ∷ (true, t "network.tx" ∷ t "network.rx" ∷ [])
    ∷ (
      limited,
      tr "dashboard.safetyThreshold" (("amount", f.amount d.provider_stop_bytes unit) ∷ []) ∷ [],
    )
    ∷ []

-- What `sampleDetail` and `sampleLabel` give.
unfoldable pub sampling : Format → Clock → Dashboard → List Block
sampling f c d =
    (
      not (text_eq d.traffic_source (codes "vnstat"))
          && (is_broken d.sample_health.status
              && not (is_some (known_time d.sample_health.failure_since))),
      t "dashboard.noReset" ∷ [],
    )
    ∷ (true, detail_texts (sample_detail (date_of f (t "dashboard.noReset")) (some d)))
    ∷ (true, label_texts (sample_label c.time_of c.now c.text_of (some d)))
    ∷ []

unfoldable pub gateway : Format → GatewayUsage → List Block
gateway f g =
    let paused = is_true g.paused in
    let limited = not (g.provider_allowance_bytes == 0) in
    (true, sample_text g.sample_health.status ∷ [])
    ∷ (is_true g.sample_health.partial, t "egress.partialUsage" ∷ [])
    ∷ (is_true g.usage_calibrated, t "network.calibrated" ∷ [])
    ∷ (paused, t "egress.paused" ∷ [])
    ∷ (not paused && g.warning, t "egress.quotaWarning" ∷ [])
    ∷ (
      not paused && not g.warning && limited,
      tr "egress.remaining"
            (("amount", f.amount g.provider_remaining_bytes g.traffic_quota.unit) ∷ [])
          ∷ [],
    )
    ∷ undated (t "dashboard.noReset") g.next_reset_at
    ∷ (
      true,
      tr "egress.nextReset" (("date", date_of f (t "dashboard.noReset") g.next_reset_at) ∷ []) ∷ [],
    )
    ∷ []

unfoldable pub gateways : Format → List GatewayUsage → List Block
gateways f gs =
    (not (is_empty gs), t "egress.title" ∷ t "egress.estimate" ∷ []) ∷ each (gateway f) gs

unfoldable pub resources : Format → ServerStatus → List Block
resources f s =
    (
      true,
      t "server.cpu"
          ∷ tr "server.cores" (("count", decimal s.cpu_cores) ∷ [])
          ∷ t "server.memory"
          ∷ tr "server.usedOf"
              (("used", f.host s.memory_used) ∷ ("total", f.host s.memory_total) ∷ [])
          ∷ t "server.disk"
          ∷ tr "server.usedOf" (("used", f.host s.disk_used) ∷ ("total", f.host s.disk_total) ∷ [])
          ∷ t "server.uptime"
          ∷ uptime s.uptime_seconds
          ∷ [],
    )
    ∷ []

abbrev pub resources_of : Format → Option ServerStatus → List Block
resources_of f none = []
resources_of f (some s) = resources f s

abbrev pub page_of : Format → Clock → View → Option Dashboard → List Block
page_of f c v none =
    (stale v.status, t "api.stale" ∷ []) ∷ (not (stale v.status), t "dashboard.loading" ∷ []) ∷ []
page_of f c v (some d) =
    head v d
    ++ (usage f d
        ++ (sampling f c d ++ (gateways f (active_gateways (some d)) ++ resources_of f v.server)))

-- The page, but for the dialogs of the update and the calibration, which are components.
unfoldable pub page : Format → Clock → View → List Block
unfolding head usage sampling gateway gateways resources
page f c v = page_of f c v v.data_shown
