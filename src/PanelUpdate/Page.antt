-- ===== src/PanelUpdate/Page.antt =====
-- The texts in the template of web/src/components/PanelUpdate.vue.
use sbm.Base.{Bool, true, false, ◌&&◌, not, Option, none, some, List, [], ◌∷◌}
use sbm.Base.Text.{Text, codes}
use sbm.Message.{t, tr}
use sbm.Page.{Block}
use sbm.PanelUpdate.{UpdateStatus, PanelUpdateJob, is_failed, Panel, busy, label}

abbrev has_failed : Option PanelUpdateJob → Bool
has_failed none = false
has_failed (some j) = is_failed j.state

abbrev was_rolled_back : Option PanelUpdateJob → Bool
was_rolled_back none = false
was_rolled_back (some j) = j.rolled_back

abbrev latest : Option UpdateStatus → Text
latest none = []
latest (some r) = codes r.latest_version

abbrev can_install : Option UpdateStatus → Bool
can_install none = false
can_install (some r) = r.can_install

-- The phase of a job has a key that the server's answer completes, and is left out.
unfoldable pub page : Panel → List Block
page p =
    let working = p.is_open && busy p in
    let failed = p.is_open && not (busy p) && has_failed p.job in
    let offered = p.is_open && not (busy p) && not (has_failed p.job) in
    (true, label p ∷ [])
    ∷ (p.is_open, t "update.title" ∷ [])
    ∷ (working && p.reconnecting, t "update.reconnecting" ∷ [])
    ∷ (working, t "update.waitHelp" ∷ [])
    ∷ (failed, t "update.failed" ∷ [])
    ∷ (failed && was_rolled_back p.job, t "update.rolledBack" ∷ [])
    ∷ (failed && not (was_rolled_back p.job), t "update.failedHelp" ∷ [])
    ∷ (failed, t "update.retry" ∷ [])
    ∷ (
      offered,
      tr "dashboard.updateFound" (("version", latest p.release) ∷ [])
          ∷ t "update.installHelp"
          ∷ t "update.install"
          ∷ [],
    )
    ∷ (offered && not (can_install p.release), t "update.unavailable" ∷ [])
    ∷ []
