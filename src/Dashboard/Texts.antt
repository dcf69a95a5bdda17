-- ===== src/Dashboard/Texts.antt =====
-- The labels of web/src/views/DashboardView.vue that tell of the sampling and of the usage. `Date.now()`
-- and the milliseconds that `new Date(value).getTime()` gives for a time are arguments.
use sbm.Base.{
  ℕ, ◌-◌, ◌*◌, ◌/◌, ◌^◌, ◌≤◌, Bool, true, false, Option, none, some, List, [], ◌∷◌, ltb,
  if◌then◌else◌, arith,
}
use sbm.Base.Text.{Text, codes, text_eq}
use sbm.Base.Decimal.{decimal}
use sbm.Message.{Message, t, tr, said}
use sbm.I18n.{starts_with}
use sbm.Types.{JsonNumber, SampleStatus, SampleHealth}
use sbm.Types.Gateway.{Dashboard, GatewayUsage}

-- One text, or two with a dot between them, where the second may be empty.
pub data Label : Type 0 where
  one : Message → Label
  joined : Message → Option Message → Label

abbrev enabled_of : List GatewayUsage → List GatewayUsage
enabled_of [] = []
enabled_of (g ∷ gs) = let rest = enabled_of gs in if g.enabled then g ∷ rest else rest

unfoldable pub active_gateways : Option Dashboard → List GatewayUsage
active_gateways none = []
active_gateways (some d) = enabled_of d.egress_gateways

-- A bar's width in per cent, and the figure beside it, which is rounded down.
unfoldable pub bar : JsonNumber → JsonNumber
bar p = if ltb (100 * 10 ^ p.behind) p.digits then record { digits = 100; behind = 0 } else p

unfoldable pub percent : JsonNumber → ℕ
percent p = p.digits / 10 ^ p.behind

-- A time that is there, and is not the zero of the server's clock.
unfoldable pub known_time : Option Text → Option Text
known_time none = none
known_time (some []) = none
known_time (some (c ∷ s)) = if starts_with (codes "0001") (c ∷ s) then none else some (c ∷ s)

module _ (time_of : Text → ℕ) (now : ℕ) where
  -- At least 0, as `Math.max` makes it.
  abbrev pub seconds_since : Text → ℕ
  seconds_since value = (now - time_of value) / 1000

  abbrev pub age_text : Option Text → Option Message
  age_text none = none
  age_text (some s) = some (
      if ltb (seconds_since s) 10
      then t "dashboard.justNow"
      else if ltb (seconds_since s) 60
      then tr "dashboard.secondsAgo" (("count", decimal (seconds_since s)) ∷ [])
      else tr "dashboard.minutesAgo" (("count", decimal (seconds_since s / 60)) ∷ []))

  unfoldable pub sample_age : Option Text → Option Message
  sample_age value = age_text (known_time value)

  abbrev pub elapsed_text : Option Text → Message
  elapsed_text none = t "dashboard.durationUnknown"
  elapsed_text (some s) =
      if ltb (seconds_since s) 60
      then tr "dashboard.durationSeconds" (("count", decimal (seconds_since s)) ∷ [])
      else tr "dashboard.durationMinutes" (("count", decimal (seconds_since s / 60)) ∷ [])

  unfoldable pub elapsed : Option Text → Message
  elapsed value = elapsed_text (known_time value)

  -- The sampling of the proxy's own counters; an age that is empty stays so in the text.
  abbrev pub status_label : (Option Message → Text) → SampleHealth → SampleStatus → Label
  status_label text_of h SampleStatus.paused = one (t "dashboard.samplePaused")
  status_label text_of h SampleStatus.interrupted =
      joined (t "dashboard.sampleInterrupted") (some (elapsed h.failure_since))
  status_label text_of h SampleStatus.waiting = one (t "dashboard.sampleWaiting")
  status_label text_of h SampleStatus.healthy =
      one (tr "dashboard.sampleHealthy" (("age", text_of (sample_age h.last_success_at)) ∷ []))

  unfoldable pub proxy_label : (Option Message → Text) → SampleHealth → Label
  unfolding sample_age elapsed
  proxy_label text_of h = status_label text_of h h.status

  abbrev pub is_healthy : SampleStatus → Bool
  is_healthy SampleStatus.healthy = true
  is_healthy _ = false

  unfoldable pub network_label : Dashboard → Label
  network_label d =
      if is_healthy d.sample_health.status
      then joined (tr "network.source" (("interface", d.network_interface) ∷ []))
          (sample_age d.sample_health.last_success_at)
      else if d.network_available
      then one (t "network.interrupted")
      else one (t "network.waiting")

  -- `text_of` is the text of a message, in the language of the moment.
  unfoldable pub sample_label : (Option Message → Text) → Option Dashboard → Label
  sample_label text_of none = one (t "dashboard.sampleWaiting")
  sample_label text_of (some d) =
      if text_eq d.traffic_source (codes "vnstat")
      then network_label d
      else proxy_label text_of d.sample_health

abbrev pub or_guide : Text → Message
or_guide [] = t "network.guideDelay"
or_guide (c ∷ s) = said (c ∷ s)

abbrev pub status_detail : (Option Text → Text) → SampleHealth → SampleStatus → Message
status_detail date h SampleStatus.interrupted =
    tr "dashboard.sampleInterruptedHelp" (("time", date h.failure_since) ∷ [])
status_detail date h SampleStatus.paused = t "dashboard.samplePausedHelp"
status_detail date h _ = t "dashboard.sampleHelp"

abbrev pub proxy_detail : (Option Text → Text) → SampleHealth → Message
proxy_detail date h = status_detail date h h.status

-- `date` formats a time for the browser.
unfoldable pub sample_detail : (Option Text → Text) → Option Dashboard → Option Message
sample_detail date none = none
sample_detail date (some d) = some (
    if text_eq d.traffic_source (codes "vnstat")
    then or_guide d.network_reason
    else proxy_detail date d.sample_health)

-- A bar is never wider than its track.
bar-le : (p : JsonNumber) → (bar p).digits ≤ 100 * 10 ^ (bar p).behind
unfolding bar
bar-le p = ground arith
