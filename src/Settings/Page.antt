-- ===== src/Settings/Page.antt =====
-- The texts in the template of web/src/views/SettingsView.vue, with the labels of its selects and of the checks
-- of the server. The keys of a check's reason and, but for the listeners, of its title are completed by the
-- server's answer, and are left out.
use sbm.Base.{ℕ, true, ◌&&◌, Option, none, some, List, [], ◌∷◌, ◌++◌, ltb, length}
use sbm.Base.Text.{Text, codes, text_eq}
use sbm.Base.Decimal.{decimal}
use sbm.Message.{Message, t, tr}
use sbm.Page.{Block, each, is_monthly}
use sbm.Types.{HealthStatus, Network, tcp, udp, HealthCheck, ServerStatus, Settings}
use sbm.Settings.{View, passed_checks, check_detail}

abbrev pub status_label : HealthStatus → Message
status_label HealthStatus.ok = t "server.status.ok"
status_label HealthStatus.warning = t "server.status.warning"
status_label HealthStatus.error = t "server.status.error"
status_label HealthStatus.unknown = t "server.status.unknown"

abbrev pub overall_status_label : HealthStatus → Message
overall_status_label HealthStatus.ok = t "server.overall.ok"
overall_status_label HealthStatus.warning = t "server.overall.warning"
overall_status_label HealthStatus.error = t "server.overall.error"
overall_status_label HealthStatus.unknown = t "server.overall.unknown"

-- `toUpperCase` of a network, and its port.
abbrev upper : Option Network → Text
upper none = []
upper (some tcp) = codes "TCP"
upper (some udp) = codes "UDP"

abbrev port_of : Option ℕ → ℕ
port_of none = 0
port_of (some n) = n

-- `checkTitle` of a listener.
unfoldable pub listener_title : HealthCheck → List Block
listener_title c =
    let params = ("protocol", upper c.protocol) ∷ ("port", decimal (port_of c.port)) ∷ [] in
    (text_eq c.kind (codes "listener_panel"), tr "server.check.listenerPanel" params ∷ [])
    ∷ (text_eq c.kind (codes "listener_inbound"), tr "server.check.listenerInbound" params ∷ [])
    ∷ []

abbrev pub detail_of : Option Message → List Message
detail_of none = []
detail_of (some m) = m ∷ []

unfoldable pub form : Settings → List Block
form s =
    let monthly = is_monthly s.reset.mode in
    (
      true,
      t "settings.title"
          ∷ t "settings.help"
          ∷ t "settings.traffic"
          ∷ t "settings.trafficHelp"
          ∷ t "settings.quotaAmount"
          ∷ t "settings.quotaUnit"
          ∷ t "network.interface"
          ∷ t "network.autoInterface"
          ∷ t "settings.billingMode"
          ∷ t "settings.billingBidirectional"
          ∷ t "settings.billingSingle"
          ∷ t "settings.headroom"
          ∷ t "settings.planAllowance"
          ∷ t "settings.estimatedProviderStop"
          ∷ t "settings.autoReset"
          ∷ t "settings.noReset"
          ∷ t "settings.monthly"
          ∷ [],
    )
    ∷ (monthly, t "settings.day" ∷ t "settings.hour" ∷ t "settings.timezone" ∷ [])
    ∷ (monthly && ltb 28 s.reset.day, t "settings.dayHelp" ∷ [])
    ∷ (true, t "settings.saveTraffic" ∷ [])
    ∷ []

-- The outbound, the subscription and the password.
unfoldable pub forms : List Block
forms =
    (
      true,
      t "settings.outbound"
          ∷ t "settings.outboundHelp"
          ∷ t "settings.outboundStrategy"
          ∷ t "settings.outboundAuto"
          ∷ t "settings.outboundPreferIPv4"
          ∷ t "settings.outboundPreferIPv6"
          ∷ t "settings.outboundIPv4Only"
          ∷ t "settings.outboundIPv6Only"
          ∷ t "settings.outboundGuideTitle"
          ∷ t "settings.outboundGuidePrefer"
          ∷ t "settings.outboundGuideOnly"
          ∷ t "settings.saveOutbound"
          ∷ [],
    )
    ∷ (
      true,
      t "settings.subscription"
          ∷ t "settings.subscriptionHelp"
          ∷ t "settings.copy"
          ∷ t "settings.regenerate"
          ∷ t "settings.tokenConfirm"
          ∷ [],
    )
    ∷ (
      true,
      t "settings.password"
          ∷ t "settings.passwordHelp"
          ∷ t "settings.currentPassword"
          ∷ t "settings.newPassword"
          ∷ t "settings.confirmPassword"
          ∷ t "settings.changePassword"
          ∷ [],
    )
    ∷ []

module _ (date_time : Text → Option Text → Text) where
  unfoldable pub check : HealthCheck → List Block
  unfolding listener_title
  check c = (true, status_label c.status ∷ detail_of (check_detail date_time c)) ∷ listener_title c

  unfoldable pub doctor : ServerStatus → List Block
  unfolding check
  doctor s =
      (
        true,
        t "server.doctor"
            ∷ tr "server.somePassed" (
                ("passed", decimal (passed_checks (some s)))
                ∷ ("total", decimal (length s.health.checks))
                ∷ [])
            ∷ overall_status_label s.health.overall
            ∷ [],
      )
      ∷ each check s.health.checks

  abbrev pub doctor_of : Option ServerStatus → List Block
  doctor_of none = []
  doctor_of (some s) = doctor s

  abbrev pub page_of : View → Option Settings → List Block
  page_of v none = (true, t "settings.loading" ∷ []) ∷ []
  page_of v (some s) = form s ++ (forms ++ doctor_of v.server)

  unfoldable pub page : View → List Block
  unfolding form forms doctor
  page v = page_of v v.settings
