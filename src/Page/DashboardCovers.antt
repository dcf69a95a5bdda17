-- ===== src/Page/DashboardCovers.antt =====
-- The texts of the overview.
use sbm.Base.{
  ℕ, ◌/◌, ltb, if◌then◌else◌, Bool, true, ◌==◌, ◌≡◌, refl, Option, none, some, List, [], ◌∷◌, ◌++◌,
}
use sbm.Base.Text.{Text, codes, text_eq}
use sbm.Base.Decimal.{decimal}
use sbm.Message.{Message, t, tr}
use sbm.Catalog.Covered.{covered, all_covered}
use sbm.Page.{Format, date_of, covered_blocks, covered_blocks-append, covered_blocks-each, either}
use sbm.Types.{CoreStatus, SampleStatus, SampleHealth, ServerStatus}
use sbm.Types.Gateway.{GatewayUsage, GatewaySampleStatus, Dashboard}
use sbm.Dashboard.{uptime, days_of, hours_of, minutes_of}
use sbm.Dashboard.Texts.{
  Label, one, joined, known_time, seconds_since, age_text, sample_age, elapsed_text, elapsed,
  proxy_label, status_label, status_detail, network_label, sample_label, sample_detail, is_healthy,
  or_guide, proxy_detail, active_gateways,
}
use sbm.Dashboard.View.{View}
use sbm.Dashboard.Page.{
  Clock, core_label, label_texts, detail_texts, sample_text, head, usage, sampling, gateway,
  gateways, resources, resources_of, page_of, page,
}

core_label-covered : (s : CoreStatus) → covered (core_label s) ≡ true
unfolding covered
core_label-covered CoreStatus.running = refl
core_label-covered CoreStatus.stopped = refl
core_label-covered CoreStatus.unknown = refl

sample_text-covered : (s : GatewaySampleStatus) → covered (sample_text s) ≡ true
unfolding covered
sample_text-covered GatewaySampleStatus.waiting = refl
sample_text-covered GatewaySampleStatus.healthy = refl
sample_text-covered GatewaySampleStatus.interrupted = refl
sample_text-covered GatewaySampleStatus.disabled = refl

head-covered : (v : View) (d : Dashboard) → covered_blocks (head v d) ≡ true
unfolding head all_covered
head-covered v d = rw (core_label-covered d.core_status) refl

usage-covered : (f : Format) (d : Dashboard) → covered_blocks (usage f d) ≡ true
unfolding usage all_covered
usage-covered f d = refl

gateway-covered : (f : Format) (g : GatewayUsage) → covered_blocks (gateway f g) ≡ true
unfolding gateway all_covered
gateway-covered f g = rw (sample_text-covered g.sample_health.status) refl

gateways-covered : (f : Format) (gs : List GatewayUsage) → covered_blocks (gateways f gs) ≡ true
unfolding gateways all_covered
gateways-covered f gs = rw (covered_blocks-each (gateway f) gs (gateway-covered f)) refl

uptime-covered : (n : ℕ) → covered (uptime n) ≡ true
unfolding uptime covered
uptime-covered n =
    either covered (days_of n == 0)
      (tr "server.hours"
        (("hours", decimal (hours_of n)) ∷ ("minutes", decimal (minutes_of n)) ∷ []))
      (tr "server.days" (("days", decimal (days_of n)) ∷ ("hours", decimal (hours_of n)) ∷ [])) refl
      refl

resources_of-covered :
    (f : Format) (o : Option ServerStatus) → covered_blocks (resources_of f o) ≡ true
unfolding resources all_covered
resources_of-covered f none = refl
resources_of-covered f (some s) = rw (uptime-covered s.uptime_seconds) refl

module _ (c : Clock) where
  age_text-covered :
      (o : Option Text) → all_covered (detail_texts (age_text c.time_of c.now o)) ≡ true
  unfolding all_covered
  age_text-covered none = refl
  age_text-covered (some s) =
      let n = seconds_since c.time_of c.now s in
      let seconds = tr "dashboard.secondsAgo" (("count", decimal n) ∷ []) in
      let minutes = tr "dashboard.minutesAgo" (("count", decimal (n / 60)) ∷ []) in
      let older = if ltb n 60 then seconds else minutes in
      rw
        (either covered (ltb n 10) (t "dashboard.justNow") older refl
          (either covered (ltb n 60) seconds minutes refl refl))
        refl

  elapsed_text-covered : (o : Option Text) → covered (elapsed_text c.time_of c.now o) ≡ true
  unfolding covered
  elapsed_text-covered none = refl
  elapsed_text-covered (some s) =
      let n = seconds_since c.time_of c.now s in
      either covered (ltb n 60) (tr "dashboard.durationSeconds" (("count", decimal n) ∷ []))
        (tr "dashboard.durationMinutes" (("count", decimal (n / 60)) ∷ [])) refl refl

  status_label-covered :
      (h : SampleHealth) (s : SampleStatus)
      → all_covered (label_texts (status_label c.time_of c.now c.text_of h s)) ≡ true
  unfolding all_covered elapsed
  status_label-covered h SampleStatus.waiting = refl
  status_label-covered h SampleStatus.healthy = refl
  status_label-covered h SampleStatus.interrupted =
      rw (elapsed_text-covered (known_time h.failure_since)) refl
  status_label-covered h SampleStatus.paused = refl

  joined-covered :
      (m : Message) (o : Option Message)
      → covered m ≡ true
      → all_covered (detail_texts o) ≡ true
      → all_covered (label_texts (joined m o)) ≡ true
  unfolding all_covered
  joined-covered m none h k = rw h refl
  joined-covered m (some n) h k = rw h k

  network_label-covered :
      (d : Dashboard) → all_covered (label_texts (network_label c.time_of c.now d)) ≡ true
  unfolding network_label all_covered sample_age
  network_label-covered d =
      let source = tr "network.source" (("interface", d.network_interface) ∷ []) in
      let age = age_text c.time_of c.now (known_time d.sample_health.last_success_at) in
      let texts : Label → Bool = λ l. all_covered (label_texts l) in
      let bad = one (t "network.interrupted") in
      let none_yet = one (t "network.waiting") in
      either texts (is_healthy c.time_of c.now d.sample_health.status) (joined source age)
        (if d.network_available then bad else none_yet)
        (joined-covered source age refl
          (age_text-covered (known_time d.sample_health.last_success_at)))
        (either texts d.network_available bad none_yet refl refl)

  label-covered :
      (d : Dashboard)
      → all_covered (label_texts (sample_label c.time_of c.now c.text_of (some d))) ≡ true
  unfolding sample_label proxy_label
  label-covered d =
      either (λ l. all_covered (label_texts l)) (text_eq d.traffic_source (codes "vnstat"))
        (network_label c.time_of c.now d)
        (status_label c.time_of c.now c.text_of d.sample_health d.sample_health.status)
        (network_label-covered d) (status_label-covered d.sample_health d.sample_health.status)

or_guide-covered : (s : Text) → covered (or_guide s) ≡ true
unfolding covered
or_guide-covered [] = refl
or_guide-covered (x ∷ s) = refl

status_detail-covered :
    (date : Option Text → Text) (h : SampleHealth) (s : SampleStatus)
    → covered (status_detail date h s) ≡ true
unfolding covered
status_detail-covered date h SampleStatus.waiting = refl
status_detail-covered date h SampleStatus.healthy = refl
status_detail-covered date h SampleStatus.interrupted = refl
status_detail-covered date h SampleStatus.paused = refl

detail-covered :
    (date : Option Text → Text) (d : Dashboard)
    → all_covered (detail_texts (sample_detail date (some d))) ≡ true
unfolding sample_detail all_covered
detail-covered date d =
    rw
      (either covered (text_eq d.traffic_source (codes "vnstat")) (or_guide d.network_reason)
        (proxy_detail date d.sample_health) (or_guide-covered d.network_reason)
        (status_detail-covered date d.sample_health d.sample_health.status))
      refl

sampling-covered : (f : Format) (c : Clock) (d : Dashboard) → covered_blocks (sampling f c d) ≡ true
unfolding sampling all_covered
sampling-covered f c d =
    rw (detail-covered (date_of f (t "dashboard.noReset")) d, label-covered c d) refl

page_of-covered :
    (f : Format) (c : Clock) (v : View) (o : Option Dashboard)
    → covered_blocks (page_of f c v o) ≡ true
unfolding all_covered
page_of-covered f c v none = refl
page_of-covered f c v (some d) =
    let gs = gateways f (active_gateways (some d)) in
    let server = resources_of f v.server in
    covered_blocks-append (head v d) (usage f d ++ (sampling f c d ++ (gs ++ server)))
      (head-covered v d)
      (covered_blocks-append (usage f d) (sampling f c d ++ (gs ++ server)) (usage-covered f d) (
        covered_blocks-append (sampling f c d) (gs ++ server) (sampling-covered f c d) (
          covered_blocks-append gs server (gateways-covered f (active_gateways (some d)))
            (resources_of-covered f v.server))))

pub page-covered : (f : Format) (c : Clock) (v : View) → covered_blocks (page f c v) ≡ true
unfolding page
page-covered f c v = page_of-covered f c v v.data_shown
