-- ===== src/Calibrate/Page.antt =====
-- The texts in the template of web/src/components/CalibrateUsageModal.vue. `measured` formats the bytes in use.
use sbm.Base.{true, List, [], ◌∷◌}
use sbm.Message.{t, tr}
use sbm.Page.{Block, Format, is_some, alert}
use sbm.Calibrate.{Props, View}

unfoldable pub page : Format → Props → View → List Block
page f p v =
    (
      true,
      t "network.calibrateTitle"
          ∷ t "network.calibrateHelp"
          ∷ tr "network.calibrateMeasured"
              (("name", p.name) ∷ ("amount", f.amount p.used_bytes p.unit) ∷ [])
          ∷ t "network.calibrateUsed"
          ∷ t "protocol.cancel"
          ∷ t "network.calibrateSave"
          ∷ [],
    )
    ∷ (is_some v.error, alert v.error)
    ∷ (p.calibrated, t "network.calibrateClear" ∷ [])
    ∷ []
