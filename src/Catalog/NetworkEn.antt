-- ===== src/Catalog/NetworkEn.antt =====
-- The English texts of web/src/network-i18n.ts.
use sbm.Base.{List, [], ◌∷◌, String}

unfoldable pub network_en : List (String × String)
network_en =
    ("network.calibrate", "Calibrate")
    ∷ ("network.calibrateTitle", "Calibrate current-period usage")
    ∷ ("network.calibrateUsed", "Usage shown by the provider")
    ∷ (
      "network.calibrateHelp",
      "Enter the current-period usage shown in the provider dashboard. SBM keeps counting from there until the next reset or a billing-mode change. Use it when SBM or the gateway was added mid-period, or when the host carries other traffic.",
    )
    ∷ ("network.calibrateMeasured", "{name} · SBM currently counts {amount}")
    ∷ ("network.calibrateSave", "Save calibration")
    ∷ ("network.calibrateClear", "Clear calibration")
    ∷ ("network.calibrateDone", "Usage calibrated")
    ∷ ("network.calibrateCleared", "Calibration cleared")
    ∷ ("network.calibrated", "Current-period usage calibrated to the provider dashboard")
    ∷ ("network.source", "Source: vnStat · {interface}")
    ∷ ("network.waiting", "No vnStat data available yet")
    ∷ ("network.interrupted", "vnStat unavailable; showing the last saved result")
    ∷ ("network.partial", "Incomplete period coverage")
    ∷ (
      "network.realtimeEstimate",
      "vnStat has not updated; {amount} counted from sing-box proxy totals",
    )
    ∷ ("network.rx", "Received RX")
    ∷ ("network.tx", "Sent TX")
    ∷ ("network.total", "Public interface traffic")
    ∷ ("network.reference", "sing-box reference")
    ∷ ("network.missing", "No vnStat record")
    ∷ ("network.interface", "vnStat public interface")
    ∷ ("network.autoInterface", "Leave blank to use the default-route interface")
    ∷ (
      "network.guideDelay",
      "Whole-host traffic on the selected public interface, including proxy, WireGuard, SSH and system updates. Collected every 30 seconds; vnStat saves each minute.",
    )
    ∷ []
