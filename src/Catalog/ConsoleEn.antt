-- ===== src/Catalog/ConsoleEn.antt =====
-- English texts of web/src/i18n.ts, from
-- `dashboard.durationSeconds` to `dashboard.updateFailed`.
use sbm.Base.{List, [], ◌∷◌, String}

unfoldable pub console_en : List (String × String)
console_en =
    ("dashboard.durationSeconds", "{count}s")
    ∷ ("dashboard.durationMinutes", "{count}m")
    ∷ ("dashboard.durationUnknown", "a while")
    ∷ ("settings.trafficHelp", "Choose GB or GiB exactly as shown by the provider.")
    ∷ ("settings.quotaUnit", "Unit")
    ∷ ("dashboard.qrDownload", "Save QR code")
    ∷ ("dashboard.qrSaved", "QR code image saved")
    ∷ ("protocol.qrDownload", "Save QR code")
    ∷ ("protocol.qrSaved", "QR code image saved")
    ∷ ("app.title", "SBM")
    ∷ ("language", "中文")
    ∷ ("close", "Close")
    ∷ ("confirm", "Confirm")
    ∷ ("logout", "Sign out")
    ∷ ("overview", "Overview")
    ∷ ("protocols", "Protocols")
    ∷ ("server", "Traffic")
    ∷ ("traffic", "Traffic")
    ∷ ("settings", "Settings")
    ∷ ("copied", "Copied")
    ∷ ("password.show", "Show password")
    ∷ ("password.hide", "Hide password")
    ∷ ("traffic.title", "Traffic analytics")
    ∷ (
      "traffic.help",
      "Proxy application & site rankings (persisted in local SQLite) and network daily/monthly traffic history.",
    )
    ∷ ("traffic.tabHistory", "Traffic history")
    ∷ ("traffic.tabApps", "Apps & sites")
    ∷ ("login.title", "Administrator sign in")
    ∷ ("login.help", "These credentials stay on this server.")
    ∷ ("login.username", "Username")
    ∷ ("login.password", "Password")
    ∷ ("login.loading", "Verifying…")
    ∷ ("login.submit", "Open console")
    ∷ ("login.expired", "Your session expired. Sign in again.")
    ∷ ("dashboard.title", "Runtime overview")
    ∷ ("dashboard.reset", "Reset traffic")
    ∷ ("dashboard.restart", "Restart sing-box")
    ∷ ("dashboard.exceeded", "Safety threshold reached")
    ∷ (
      "dashboard.exceededHelp",
      "sing-box stopped at the configured safety reserve. Reset traffic or increase the plan allowance in Settings to recover.",
    )
    ∷ ("dashboard.running", "Running")
    ∷ ("dashboard.stopped", "Stopped")
    ∷ ("dashboard.unknown", "Unknown")
    ∷ ("dashboard.noReset", "No automatic reset")
    ∷ (
      "dashboard.providerSummary",
      "Plan {total} · about {remaining} remaining · {reserve}% reserved",
    )
    ∷ ("dashboard.unlimitedHelp", "No plan traffic limit configured")
    ∷ ("dashboard.unlimited", "Unlimited")
    ∷ ("dashboard.upload", "Upload")
    ∷ ("dashboard.download", "Download")
    ∷ ("dashboard.refresh", "Refresh")
    ∷ ("dashboard.refreshHelp", "Refreshes every 5 seconds; click to refresh now")
    ∷ ("dashboard.refreshed", "Traffic data refreshed")
    ∷ ("dashboard.sampleWaiting", "Source: sing-box · waiting for a sample")
    ∷ ("dashboard.sampleHealthy", "Source: sing-box · {age}")
    ∷ ("dashboard.sampleInterrupted", "Source: sing-box · sampling interrupted")
    ∷ ("dashboard.samplePaused", "Source: sing-box · paused with quota")
    ∷ ("dashboard.sampleHelp", "Proxy traffic recorded by sing-box.")
    ∷ (
      "dashboard.sampleInterruptedHelp",
      "Sampling interrupted since {time}; showing the last result.",
    )
    ∷ (
      "dashboard.samplePausedHelp",
      "sing-box reached the safety threshold; proxy sampling is paused.",
    )
    ∷ ("dashboard.justNow", "updated just now")
    ∷ ("dashboard.secondsAgo", "updated {count}s ago")
    ∷ ("dashboard.minutesAgo", "updated {count}m ago")
    ∷ ("dashboard.safetyThreshold", "Safety stop threshold: about {amount}")
    ∷ ("dashboard.subscription", "Master subscription")
    ∷ (
      "dashboard.subscriptionHelp",
      "One URL for all enabled nodes, with client auto-detection or explicit target format.",
    )
    ∷ ("dashboard.subFormatAuto", "Auto (Universal)")
    ∷ ("dashboard.subFormatClash", "Clash Meta")
    ∷ ("dashboard.subFormatSingbox", "sing-box")
    ∷ ("dashboard.subFormatV2ray", "Base64")
    ∷ ("dashboard.copy", "Copy")
    ∷ ("dashboard.secretHelp", "This URL contains an access token. Keep it private.")
    ∷ ("dashboard.qrAlt", "Master subscription QR code")
    ∷ ("dashboard.loading", "Reading core status…")
    ∷ ("dashboard.resetConfirm", "Reset current-period traffic? History will be retained.")
    ∷ (
      "dashboard.restartConfirm",
      "Restarting sing-box briefly disconnects proxy connections. Continue?",
    )
    ∷ ("dashboard.resetDone", "Traffic has been reset")
    ∷ ("dashboard.restartDone", "sing-box restarted")
    ∷ ("dashboard.copyDone", "Subscription URL copied")
    ∷ ("dashboard.checkUpdate", "Check for a panel update")
    ∷ ("dashboard.updateFound", "SBM {version} is available.")
    ∷ ("dashboard.updateCurrent", "SBM is up to date")
    ∷ ("dashboard.updateFailed", "Could not check for updates. Try again later.")
    ∷ []
