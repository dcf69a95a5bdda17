-- ===== src/Calibrate/Tests.antt =====
-- Dialogs of calibration.
use sbm.Base.{◌≡◌, refl, true, false, [], ◌∷◌}
use sbm.Base.Text.{codes}
use sbm.Message.{t}
use sbm.Async.{fulfilled}
use sbm.Types.{gib}
use sbm.Calibrate.{Props, setup, used, bytes_of, posted, submit, submit_done, done}
use sbm.Calibrate.Laws.{Near, submit-setup}

abbrev props : Props
props = record {
  name = codes "Demo";
  endpoint = codes "/api/traffic/calibrate";
  unit = gib;
  used_bytes = 3000000000;
  calibrated = false;
}

submit-setup_example :
    ((submit props false (setup props)).1 ≡ posted false (used 2995739689) ∷ [])
    × Near gib 2995739689 3000000000
unfolding setup bytes_of
submit-setup_example = submit-setup props

-- A second click sends nothing.
submit-submit : (submit props true (submit props false (setup props)).0).1 ≡ []
unfolding submit setup
submit-submit = refl

cleared :
    (submit_done true (fulfilled tt) (setup props)).emitted
    ≡ done (t "network.calibrateCleared") ∷ []
unfolding submit_done setup
cleared = refl
