-- ===== src/Page/ScreenCovers.antt =====
-- Everything that the panel shows can be read.
use sbm.Base.{◌≡◌, List}
use sbm.Base.Text.{Text}
use sbm.Page.EgressCovers as EgressCovers
use sbm.Page.DashboardCovers as OverviewCovers
use sbm.Types.Gateway.{Dashboard}
use sbm.Calibrate
use sbm.Async.{Event, run}
use sbm.TrafficHistory as History
use sbm.TrafficHistory.Invariant as HistoryLaws
use sbm.TrafficApps as Apps
use sbm.TrafficApps.Invariant as AppsLaws
use sbm.Page.Alerts.{FineAlert, IsCaught}
use sbm.Calibrate.Page as CalibratePage
use sbm.PanelUpdate.Page as UpdatePage
use sbm.Dashboard.Page as OverviewPage
use sbm.Egress.Page as EgressPage
use sbm.Server.Page as TrafficPage
use sbm.Session.{Page}
use sbm.Page.Screen.{Screen}

-- The tabs of the traffic are in states of runs, each from its start, in some browser; and the errors of the
-- form of the login and of the dialog of the calibration are ones that `errorMessage` gives.
pub record Arises (s : Screen) : Type 0 where
  pub day_browser : History.Browser
  pub first_month : Text
  pub day_events : List (Event History.Action History.Reply)
  pub by_day_run :
      s.by_day
      ≡ (run
          (History.handle day_browser)
          (History.resume day_browser)
          (HistoryLaws.start first_month)
          day_events).state
  pub app_browser : Apps.Browser
  pub first_day : Text
  pub app_events : List (Event Apps.Action Apps.Reply)
  pub by_app_run :
      s.by_app
      ≡ (run
          (Apps.handle app_browser)
          (Apps.resume app_browser)
          (AppsLaws.start first_day)
          app_events).state
  pub login_caught : IsCaught s.login.error
  pub calibration_caught : IsCaught s.calibration.error

-- So no error is shown that cannot be read.
record Readable (s : Screen) : Type 0 where
  by_day_fine : FineAlert s.by_day.error
  by_app_fine : FineAlert s.by_app.error
  login_fine : FineAlert s.login.error
  calibration_fine : FineAlert s.calibration.error
