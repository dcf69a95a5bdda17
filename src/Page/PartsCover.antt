-- ===== src/Page/PartsCover.antt =====
-- The texts of the traffic's page, of the dialogs of the update and the calibration, and around the views.
use sbm.Base.{ℕ, Bool, true, false, ◌≡◌, refl, Option, none, some, [], ◌∷◌, ◌++◌}
use sbm.Base.Text.{Text, codes}
use sbm.Message.{Message, t, tr}
use sbm.Catalog.Covered.{covered, all_covered}
use sbm.Page.{Format, covered_blocks, covered_blocks-append, covered_blocks-each, each, either}
use sbm.TrafficHistory as History
use sbm.TrafficHistory.Page as HistoryPage
use sbm.TrafficApps as Apps
use sbm.TrafficApps.Page as AppsPage
use sbm.Calibrate.{Props}
use sbm.Calibrate
use sbm.Page.Alerts.{FineAlert}
use sbm.Calibrate.Page as CalibratePage
use sbm.Server as Traffic
use sbm.Server.Page as TrafficPage
use sbm.PanelUpdate.{UpdateStatus, Panel, busy, release_label, label}
use sbm.PanelUpdate.Page as UpdatePage
use sbm.Session.Login.{Form, notice}
use sbm.Session.Shell.{login_page, shell}

module _ (bytes : ℕ → Text) where
  history_head-covered :
      (v : History.View) → FineAlert v.error → covered_blocks (HistoryPage.head v) ≡ true
  unfolding HistoryPage.head all_covered
  history_head-covered v h = rw h refl

  history_row-covered :
      (a : History.Answer) (r : History.TrafficUsage) → covered_blocks (HistoryPage.row a r) ≡ true
  unfolding HistoryPage.row all_covered
  history_row-covered a r = refl

  history_table-covered :
      (v : History.View) (a : History.Answer) → covered_blocks (HistoryPage.table bytes v a) ≡ true
  unfolding HistoryPage.table all_covered
  history_table-covered v a = refl

  history_foot-covered : (v : History.View) → covered_blocks (HistoryPage.foot v) ≡ true
  unfolding HistoryPage.foot all_covered
  history_foot-covered v = refl

  history_table_of-covered :
      (v : History.View) (o : Option History.Answer)
      → covered_blocks (HistoryPage.table_of bytes v o) ≡ true
  history_table_of-covered v none = refl
  history_table_of-covered v (some a) =
      covered_blocks-append (HistoryPage.table bytes v a)
        (each (HistoryPage.row a) (History.rows v) ++ HistoryPage.foot v)
        (history_table-covered v a)
        (covered_blocks-append (each (HistoryPage.row a) (History.rows v)) (HistoryPage.foot v)
          (covered_blocks-each (HistoryPage.row a) (History.rows v) (history_row-covered a))
          (history_foot-covered v))

  pub history-covered :
      (v : History.View) → FineAlert v.error → covered_blocks (HistoryPage.page bytes v) ≡ true
  unfolding HistoryPage.page
  history-covered v h =
      covered_blocks-append (HistoryPage.head v) (HistoryPage.table_of bytes v v.history)
        (history_head-covered v h) (history_table_of-covered v v.history)

  apps_head-covered : (v : Apps.View) → FineAlert v.error → covered_blocks (AppsPage.head v) ≡ true
  unfolding AppsPage.head all_covered
  apps_head-covered v h = rw h refl

  apps_row-covered : (a : Apps.AppUsage) → covered_blocks (AppsPage.row a) ≡ true
  unfolding AppsPage.row all_covered
  apps_row-covered a = refl

  apps_table-covered :
      (v : Apps.View) (a : Apps.AppTrafficResponse)
      → covered_blocks (AppsPage.table bytes v a) ≡ true
  unfolding AppsPage.table all_covered
  apps_table-covered v a = refl

  apps_foot-covered : (v : Apps.View) → covered_blocks (AppsPage.foot v) ≡ true
  unfolding AppsPage.foot all_covered
  apps_foot-covered v = refl

  apps_table_of-covered :
      (v : Apps.View) (o : Option Apps.AppTrafficResponse)
      → covered_blocks (AppsPage.table_of bytes v o) ≡ true
  apps_table_of-covered v none = refl
  apps_table_of-covered v (some a) =
      covered_blocks-append (AppsPage.table bytes v a)
        (each AppsPage.row (Apps.apps v) ++ AppsPage.foot v) (apps_table-covered v a)
        (covered_blocks-append (each AppsPage.row (Apps.apps v)) (AppsPage.foot v)
          (covered_blocks-each AppsPage.row (Apps.apps v) apps_row-covered) (apps_foot-covered v))

  pub apps-covered :
      (v : Apps.View) → FineAlert v.error → covered_blocks (AppsPage.page bytes v) ≡ true
  unfolding AppsPage.page
  apps-covered v h =
      covered_blocks-append (AppsPage.head v) (AppsPage.table_of bytes v v.data_shown)
        (apps_head-covered v h) (apps_table_of-covered v v.data_shown)

pub traffic-covered : (v : Traffic.View) → covered_blocks (TrafficPage.page v) ≡ true
unfolding TrafficPage.page all_covered
traffic-covered v = refl

pub calibrate-covered :
    (f : Format) (p : Props) (v : Calibrate.View)
    → FineAlert v.error
    → covered_blocks (CalibratePage.page f p v) ≡ true
unfolding CalibratePage.page all_covered
calibrate-covered f p v h = rw h refl

-- The error of a login, or the note on the session.
notice-FineAlert :
    (expired : Bool) (f : Form) (o : Option Message)
    → FineAlert o
    → FineAlert (notice expired (record f { error = o }))
unfolding notice all_covered
notice-FineAlert expired f (some m) h = h
notice-FineAlert true f none h = refl
notice-FineAlert false f none h = refl

pub login_page-covered :
    (expired : Bool) (f : Form) → FineAlert f.error → covered_blocks (login_page expired f) ≡ true
unfolding login_page all_covered
login_page-covered expired f h = rw (notice-FineAlert expired f f.error h) refl

pub shell-covered : covered_blocks shell ≡ true
unfolding shell all_covered
shell-covered = refl

-- The label of the button that checks for an update.
release_label-covered : (o : Option UpdateStatus) → covered (release_label o) ≡ true
unfolding covered
release_label-covered none = refl
release_label-covered (some r) =
    either covered r.update_available
      (tr "dashboard.updateFound" (("version", codes r.latest_version) ∷ []))
      (t "dashboard.checkUpdate") refl refl

label-covered : (p : Panel) → covered (label p) ≡ true
unfolding label covered
label-covered p =
    either covered (busy p) (t "update.running") (release_label p.release) refl
      (release_label-covered p.release)

pub update-covered : (p : Panel) → covered_blocks (UpdatePage.page p) ≡ true
unfolding UpdatePage.page all_covered
update-covered p = rw (label-covered p) refl
