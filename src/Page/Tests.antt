-- ===== src/Page/Tests.antt =====
-- What is shown of some states of the panel, and emitted in some runs.
use sbm.Base.{List, ◌≡◌, refl, true, false, some, [], ◌∷◌, All}
use sbm.Base.Text.{codes}
use sbm.Base.Decimal.{decimal}
use sbm.Message.{t, exception, value, error_message}
use sbm.I18n.{en}
use sbm.Catalog.Covered.{Reads, covered}
use sbm.Page.{Format, shown, alert}
use sbm.Dashboard.Page.{Clock}
use sbm.Dashboard.Runs.{full, host}
use sbm.Dashboard.View as Overview
use sbm.Egress as Gateways
use sbm.Protocols as Inbounds
use sbm.Server as Traffic
use sbm.Settings as Options
use sbm.TrafficHistory as History
use sbm.TrafficApps as Apps
use sbm.PanelUpdate
use sbm.Session as Session
use sbm.Session.Login as Login
use sbm.Page.Screen.{Screen, screen, plan_props}
use sbm.Page.EmitsRead.{calibrated_message, run-Reads}
use sbm.Async.{Event, call, settle, rejected, run, step}
use sbm.Egress.Change as Change
use sbm.Egress.Invariant as GatewaysLaws
use sbm.Dashboard.Invariant as OverviewLaws
use sbm.TrafficHistory.Invariant as HistoryLaws
use sbm.TrafficApps.Invariant as AppsLaws
use sbm.Calibrate
use sbm.Settings.Laws as OptionsLaws
use sbm.Protocols.Laws as InboundsLaws

abbrev plain : Format
plain = record {
  amount = λ n u. decimal n;
  host = decimal;
  date = λ s. s;
  hour = λ o. codes "00";
  text = λ m. codes "-";
}

abbrev clock : Clock
clock = record { time_of = λ s. 0; now = 5000; text_of = λ o. [] }

-- A device that knows no zone, in which both tabs have been opened and their loads have failed.
abbrev day_browser : History.Browser
day_browser = record { zone = []; parts = λ tz n. rejected (exception []) }

abbrev app_browser : Apps.Browser
app_browser = record { zone = []; parts = λ tz n. rejected (exception []) }

abbrev day_events : List (Event History.Action History.Reply)
day_events = call History.mounted ∷ settle 0 (rejected (value []), 0) ∷ []

abbrev app_events : List (Event Apps.Action Apps.Reply)
app_events = call Apps.mounted ∷ settle 0 (rejected (value []), 0) ∷ []

abbrev front : Screen
front = record {
  app = record (Session.setup) { ready = true; username = codes "admin" };
  login = Login.setup;
  overview = record (Overview.setup 0) { data_shown = some full; server = some host };
  panel = PanelUpdate.setup;
  inbounds = Inbounds.setup [];
  gateways = Gateways.setup 0;
  traffic = Traffic.setup 0;
  by_day =
      (run (History.handle day_browser) (History.resume day_browser)
        (HistoryLaws.start (codes "2026-01")) day_events).state;
  by_app =
      (run (Apps.handle app_browser) (Apps.resume app_browser) (AppsLaws.start (codes "2026-01-01"))
        app_events).state;
  options = Options.setup;
  calibration = record (Calibrate.setup (plan_props full)) {
    error = some (error_message (exception []));
  };
}

-- What the tab of the apps shows then.
alert-front : alert front.by_app.error ≡ t "apps.failed" ∷ []
unfolding Apps.setup Apps.handle Apps.resume Apps.load Apps.load_done run step
alert-front = refl

-- Signed out, the form of the login is shown.
shown-signed_out :
    shown (
      screen plain clock decimal
        (λ s o. s)
        (record front { app = record (Session.setup) { ready = true } }))
    ≡ t "language"
      ∷ t "login.title"
      ∷ t "login.help"
      ∷ t "login.username"
      ∷ t "login.password"
      ∷ t "login.submit"
      ∷ []
unfolding screen Session.setup Login.setup Session.Shell.login_page Login.notice
shown-signed_out = refl

-- A key that no table has, and a placeholder that is not given.
covered-wrong : (covered (t "egress.none") ≡ false) × (covered (t "egress.remaining") ≡ false)
unfolding covered
covered-wrong = (refl, refl)

-- A load that fails and a calibration, in both views that have one; a password that is not repeated; and a list of
-- inbounds that cannot be reached.
abbrev gateways_run : List (Event Change.Action Gateways.Reply)
gateways_run =
    call Change.mounted
    ∷ settle 0 (rejected (exception (codes "down")), 0)
    ∷ settle 0 (rejected (exception []), 0)
    ∷ call (Change.calibrate_done (calibrated_message true))
    ∷ []

abbrev overview_run : List (Event Overview.Action Overview.Reply)
overview_run =
    call Overview.reset_confirmed
    ∷ settle 0 (rejected (exception []), 0)
    ∷ call (Overview.calibrate_done (calibrated_message false))
    ∷ []

abbrev options_run : List (Event Options.Action Options.Reply)
options_run =
    call (
      Options.password_typed
        (record { current_password = []; new_password = codes "a"; confirm = [] }))
    ∷ call Options.password_submitted
    ∷ []

abbrev inbounds_run : List (Event Inbounds.Action Inbounds.Reply)
inbounds_run = call Inbounds.mounted ∷ settle 0 (rejected (exception [])) ∷ []

run-Reads_example :
    All
      (Reads en)
      (run Change.handle Change.resume (GatewaysLaws.start 0) gateways_run).state.toasts
    × All
        (Reads en)
        (run Overview.handle Overview.resume (OverviewLaws.start 0) overview_run).state.toasts
    × All (Reads en) (run Options.handle Options.resume OptionsLaws.start options_run).state.toasts
    × All
        (Reads en)
        (run Inbounds.handle Inbounds.resume (InboundsLaws.start []) inbounds_run).state.toasts
run-Reads_example =
    run-Reads en 0 [] gateways_run overview_run options_run inbounds_run
      (tt, (tt, (tt, (((true, refl), tt), tt)))) (tt, (tt, (((false, refl), tt), tt)))
