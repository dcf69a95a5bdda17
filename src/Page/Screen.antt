-- ===== src/Page/Screen.antt =====
-- What the whole panel shows, from web/src/App.vue down: the page of a login, or the shell with the view of the
-- page that is open, and the components in that view.
use sbm.Base.{ℕ, Bool, true, false, not, if◌then◌else◌, Option, none, some, List, [], ◌++◌}
use sbm.Base.Text.{Text, codes}
use sbm.Page.{Block, Format, is_true}
use sbm.Types.Gateway.{Dashboard, EgressGateway}
use sbm.Calibrate.{Props}
use sbm.Calibrate
use sbm.Session.{App, Page, signed_in, dashboard, protocols, egress, server, settings}
use sbm.Server.{TrafficTab, history, apps}
use sbm.Session.Login.{Form}
use sbm.Session.Shell.{login_page, shell}
use sbm.Dashboard.Page.{Clock}
use sbm.Dashboard.View as Overview
use sbm.Dashboard.Page as DashboardPage
use sbm.Egress
use sbm.Egress.Page as EgressPage
use sbm.Protocols
use sbm.Protocols.Page as ProtocolsPage
use sbm.Server
use sbm.Server.Page as ServerPage
use sbm.Settings
use sbm.Settings.Page as SettingsPage
use sbm.TrafficHistory
use sbm.TrafficHistory.Page as TrafficHistoryPage
use sbm.TrafficApps
use sbm.TrafficApps.Page as TrafficAppsPage
use sbm.PanelUpdate.{Panel}
use sbm.PanelUpdate.Page as PanelUpdatePage
use sbm.Calibrate.Page as CalibratePage

-- The states of all components.
pub record Screen : Type 0 where
  pub app : App
  pub login : Form
  pub overview : Overview.View
  pub panel : Panel
  pub inbounds : Protocols.View
  pub gateways : Egress.View
  pub traffic : Server.View
  pub by_day : TrafficHistory.View
  pub by_app : TrafficApps.View
  pub options : Settings.View
  pub calibration : Calibrate.View

-- What the views give to the calibration dialog.
abbrev pub plan_props : Dashboard → Props
plan_props d = record {
  name = d.subscription_name;
  endpoint = codes "/api/traffic/calibrate";
  unit = d.traffic_quota.unit;
  used_bytes = d.estimated_provider_used_bytes;
  calibrated = is_true d.usage_calibrated;
}

abbrev pub gateway_props : EgressGateway → Props
gateway_props g = record {
  name = g.name;
  endpoint = codes "/api/egress/" ++ (g.id ++ codes "/calibrate");
  unit = g.input.traffic_quota.unit;
  used_bytes = g.usage.estimated_provider_used_bytes;
  calibrated = is_true g.usage.usage_calibrated;
}

-- The components stand in the overview once it has been loaded.
abbrev pub plan_parts : Format → Bool → Panel → Calibrate.View → Option Dashboard → List Block
plan_parts f calibrating p v none = []
plan_parts f true p v (some d) = PanelUpdatePage.page p ++ CalibratePage.page f (plan_props d) v
plan_parts f false p v (some d) = PanelUpdatePage.page p

abbrev pub gateway_parts : Format → Calibrate.View → Option EgressGateway → List Block
gateway_parts f v none = []
gateway_parts f v (some g) = CalibratePage.page f (gateway_props g) v

module _ (f : Format) (c : Clock) (bytes : ℕ → Text) (date_time : Text → Option Text → Text) where
  -- The tab of the traffic's page that is open.
  abbrev pub tab : Screen → TrafficTab → List Block
  tab s history = TrafficHistoryPage.page bytes s.by_day
  tab s apps = TrafficAppsPage.page bytes s.by_app

  -- `v-if="page === …"`
  abbrev pub view : Screen → Page → List Block
  view s dashboard =
      DashboardPage.page f c s.overview
      ++ plan_parts f s.overview.calibrating s.panel s.calibration s.overview.data_shown
  view s protocols = ProtocolsPage.page s.inbounds
  view s egress =
      EgressPage.page f s.gateways ++ gateway_parts f s.calibration s.gateways.calibrating
  view s server = ServerPage.page s.traffic ++ tab s s.traffic.active_tab
  view s settings = SettingsPage.page date_time s.options

  -- Nothing but the mark is shown before the first answer.
  unfoldable pub screen : Screen → List Block
  screen s =
      if not s.app.ready
      then []
      else if not (signed_in s.app)
      then login_page s.app.session_expired s.login
      else shell ++ view s s.app.page
