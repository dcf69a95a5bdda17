-- ===== src/Egress/Page.antt =====
-- The texts in the template of web/src/views/EgressView.vue, the guide in it included.
use sbm.Base.{Bool, true, false, ◌&&◌, not, Option, none, some, List, [], ◌∷◌, ◌++◌, ◌==◌, ltb}
use sbm.Base.Decimal.{decimal}
use sbm.Message.{t, tr}
use sbm.PollStatus.{stale}
use sbm.Page.{
  Block, each, Format, date_of, undated, is_empty, is_some, is_true, is_nonzero, is_monthly,
  is_interrupted,
}
use sbm.Types.{bidirectional, single, TrafficBillingMode}
use sbm.Types.Gateway.{GatewayInput, EgressGateway, GatewaySampleStatus}
use sbm.Egress.{View}
use sbm.Egress.Guide.{guide}

abbrev is_bidirectional : TrafficBillingMode → Bool
is_bidirectional bidirectional = true
is_bidirectional single = false

abbrev waits : GatewaySampleStatus → Bool
waits GatewaySampleStatus.waiting = true
waits _ = false

abbrev is_healthy : GatewaySampleStatus → Bool
is_healthy GatewaySampleStatus.healthy = true
is_healthy _ = false

abbrev is_broken : GatewaySampleStatus → Bool
is_broken GatewaySampleStatus.interrupted = true
is_broken _ = false

abbrev is_disabled : GatewaySampleStatus → Bool
is_disabled GatewaySampleStatus.disabled = true
is_disabled _ = false

-- The head of the page, and what stands in place of the cards.
unfoldable pub head : View → List Block
head v =
    (true, t "egress.title" ∷ t "egress.help" ∷ t "egress.add" ∷ [])
    ∷ (stale v.status, t "api.stale" ∷ [])
    ∷ (
      true,
      t "egress.client"
          ∷ t "egress.entry"
          ∷ t "egress.gateway"
          ∷ t "egress.estimate"
          ∷ t "egress.warningOnly"
          ∷ [],
    )
    ∷ (not v.loaded, t "egress.loading" ∷ [])
    ∷ (v.loaded && is_empty v.items, t "egress.empty" ∷ t "egress.emptyHelp" ∷ t "egress.add" ∷ [])
    ∷ []

module _ (f : Format) where
  -- The data of a gateway.
  unfoldable pub card_data : EgressGateway → List Block
  card_data g =
      let i = g.input in
      let monthly = is_monthly i.reset.mode in
      (i.enabled, t "egress.enabled" ∷ t "protocol.disable" ∷ [])
      ∷ (not i.enabled, t "egress.disabled" ∷ t "protocol.enable" ∷ [])
      ∷ (true, t "egress.exitIP" ∷ t "egress.detected" ∷ [])
      ∷ (
        is_empty g.geo.country_code && is_empty g.geo.region && is_empty g.geo.city,
        t "egress.unknown" ∷ [],
      )
      ∷ (not (is_empty i.location_override), t "egress.override" ∷ [])
      ∷ (true, t "egress.aAddress" ∷ t "egress.bAddress" ∷ t "settings.planAllowance" ∷ [])
      ∷ (i.traffic_quota.amount.digits == 0, t "settings.unlimited" ∷ [])
      ∷ (is_bidirectional i.traffic_quota.billing_mode, t "settings.billingBidirectional" ∷ [])
      ∷ (not (is_bidirectional i.traffic_quota.billing_mode), t "settings.billingSingle" ∷ [])
      ∷ (true, t "settings.autoReset" ∷ [])
      ∷ (
        monthly && is_nonzero i.reset.hour,
        tr "egress.resetDayHour" (("day", decimal i.reset.day) ∷ ("hour", f.hour i.reset.hour) ∷ [])
            ∷ [],
      )
      ∷ (
        monthly && not (is_nonzero i.reset.hour),
        tr "egress.resetDay" (("day", decimal i.reset.day) ∷ ("hour", f.hour i.reset.hour) ∷ [])
            ∷ [],
      )
      ∷ (not monthly, t "settings.noReset" ∷ [])
      ∷ []

  -- Its usage.
  unfoldable pub card_usage : EgressGateway → List Block
  card_usage g =
      let u = g.usage in
      let unit = g.input.traffic_quota.unit in
      let paused = is_true u.paused in
      let limited = not (u.provider_allowance_bytes == 0) in
      (waits u.sample_health.status, t "egress.sample.waiting" ∷ [])
      ∷ (is_healthy u.sample_health.status, t "egress.sample.healthy" ∷ [])
      ∷ (is_broken u.sample_health.status, t "egress.sample.interrupted" ∷ [])
      ∷ (is_disabled u.sample_health.status, t "egress.sample.disabled" ∷ [])
      ∷ (is_interrupted u.persistence_health, t "egress.persistenceFailed" ∷ [])
      ∷ (is_true u.sample_health.partial, t "egress.partialUsage" ∷ [])
      ∷ (is_true u.usage_calibrated, t "network.calibrated" ∷ [])
      ∷ (paused, t "egress.paused" ∷ [])
      ∷ (not paused && u.warning, t "egress.quotaWarning" ∷ [])
      ∷ (
        not paused && not u.warning && limited,
        tr "egress.remaining" (("amount", f.amount u.provider_remaining_bytes unit) ∷ []) ∷ [],
      )
      ∷ undated (t "settings.noReset") u.next_reset_at
      ∷ (
        true,
        tr "egress.nextReset" (("date", date_of f (t "settings.noReset") u.next_reset_at) ∷ [])
            ∷ [],
      )
      ∷ []

unfoldable pub buttons : List Block
buttons =
    (
      true,
      t "egress.edit"
          ∷ t "egress.redetect"
          ∷ t "network.calibrate"
          ∷ t "egress.resetTraffic"
          ∷ t "egress.resetConfirm"
          ∷ t "egress.deleteConfirm"
          ∷ t "egress.delete"
          ∷ [],
    )
    ∷ []

unfoldable pub card : Format → EgressGateway → List Block
unfolding card_data card_usage buttons
card f g = card_data f g ++ (card_usage f g ++ buttons)

-- The dialog of the form.
unfoldable pub dialog : View → GatewayInput → List Block
dialog v g =
    let monthly = is_monthly g.reset.mode in
    (is_some v.editing, t "egress.edit" ∷ [])
    ∷ (not (is_some v.editing), t "egress.add" ∷ [])
    ∷ (
      true,
      t "egress.setupHelp"
          ∷ t "egress.marker"
          ∷ t "egress.markerPlaceholder"
          ∷ t "egress.position"
          ∷ t "egress.exitIP"
          ∷ t "egress.port"
          ∷ t "egress.privateKey"
          ∷ t "egress.generateKeys"
          ∷ t "egress.keyHelp"
          ∷ t "egress.publicKey"
          ∷ [],
    )
    ∷ (is_empty v.public_key, t "egress.noPublicKey" ∷ [])
    ∷ (true, t "settings.copy" ∷ t "egress.peerKey" ∷ [])
    ∷ (is_some v.editing, t "egress.aAddress" ∷ t "egress.bAddress" ∷ [])
    ∷ (
      true,
      t "egress.override"
          ∷ t "egress.overrideHelp"
          ∷ t "settings.quotaAmount"
          ∷ t "settings.quotaUnit"
          ∷ t "settings.billingMode"
          ∷ t "settings.billingSingle"
          ∷ t "settings.billingBidirectional"
          ∷ t "settings.headroom"
          ∷ t "settings.autoReset"
          ∷ t "settings.noReset"
          ∷ t "settings.monthly"
          ∷ [],
    )
    ∷ (monthly, t "settings.day" ∷ t "settings.hour" ∷ t "settings.timezone" ∷ [])
    ∷ (monthly && ltb 28 g.reset.day, t "settings.dayHelp" ∷ [])
    ∷ (
      true,
      t "egress.stopOnQuota"
          ∷ t "egress.stopOnQuotaHelp"
          ∷ t "egress.enableForm"
          ∷ t "protocol.cancel"
          ∷ [],
    )
    ∷ (v.busy, t "egress.saving" ∷ [])
    ∷ (not v.busy, t "egress.save" ∷ [])
    ∷ []

abbrev pub dialog_of : View → Option GatewayInput → List Block
dialog_of v none = []
dialog_of v (some g) = dialog v g

abbrev pub cards_of : Format → Bool → List EgressGateway → List Block
cards_of f true gs = each (card f) gs
cards_of f false gs = []

unfoldable pub page : Format → View → List Block
unfolding head card dialog guide
page f v = head v ++ (guide ++ (cards_of f v.loaded v.items ++ dialog_of v v.form))
