-- ===== src/Catalog/HealthEn.antt =====
-- The English texts of web/src/i18n.ts, from `update.title` to `api.unreachable`.
use sbm.Base.{List, [], ◌∷◌, String}

unfoldable pub health_en : List (String × String)
health_en =
    ("update.title", "Update SBM panel")
    ∷ ("update.running", "Updating — view progress")
    ∷ ("update.install", "Update now")
    ∷ (
      "update.installHelp",
      "Download and verify the release, install it, then restart the panel. Configuration and traffic records are retained; sing-box keeps running.",
    )
    ∷ (
      "update.waitHelp",
      "The update continues in the background. This page reloads when it finishes.",
    )
    ∷ ("update.reconnecting", "The panel is restarting. Waiting to reconnect…")
    ∷ ("update.failed", "Update did not complete")
    ∷ ("update.rolledBack", "The previous panel was restored. You can try again later.")
    ∷ ("update.failedHelp", "Check journalctl -u sbm-panel-update on the server before retrying.")
    ∷ ("update.retry", "Check again")
    ∷ ("update.unavailable", "Automatic panel updates are unavailable in this environment.")
    ∷ ("update.phase.queued", "Starting the update task…")
    ∷ ("update.phase.preparing", "Preparing the update…")
    ∷ ("update.phase.downloading", "Downloading, verifying and installing the release…")
    ∷ ("update.phase.restarting", "Restarting the panel and verifying the service…")
    ∷ ("update.phase.rollback", "The new panel failed to start. Restoring the previous version…")
    ∷ ("update.phase.done", "The update task has finished")
    ∷ ("update.phase.launch", "The update task could not start")
    ∷ ("update.phase.interrupted", "The update task was interrupted")
    ∷ ("server.title", "Server health")
    ∷ ("server.help", "Host resources and service diagnostics, refreshed every five seconds.")
    ∷ ("server.cpu", "CPU usage")
    ∷ ("server.memory", "Memory")
    ∷ ("server.disk", "Root filesystem")
    ∷ ("server.usedOf", "{used} used of {total}")
    ∷ ("server.load", "System load")
    ∷ ("server.loadHelp", "Over the last 1, 5, and 15 minutes")
    ∷ ("server.uptime", "Uptime")
    ∷ ("server.days", "{days}d {hours}h")
    ∷ ("server.hours", "{hours}h {minutes}m")
    ∷ ("server.hostname", "Hostname")
    ∷ ("server.system", "Operating system")
    ∷ ("server.kernel", "Kernel")
    ∷ ("server.arch", "Architecture")
    ∷ ("server.cores", "{count} cores")
    ∷ ("server.updated", "Updated {time}")
    ∷ ("server.loading", "Reading traffic analytics…")
    ∷ ("server.doctor", "Diagnostic checks")
    ∷ ("server.somePassed", "{passed}/{total} checks passed")
    ∷ ("server.overall.ok", "Healthy")
    ∷ ("server.overall.warning", "Warning")
    ∷ ("server.overall.error", "Error")
    ∷ ("server.overall.unknown", "Unknown")
    ∷ ("server.status.ok", "OK")
    ∷ ("server.status.warning", "Warning")
    ∷ ("server.status.error", "Error")
    ∷ ("server.status.unknown", "Unknown")
    ∷ ("server.check.core", "sing-box core")
    ∷ ("server.check.traffic", "Traffic sampling")
    ∷ ("server.check.config", "sing-box configuration")
    ∷ ("server.check.tls", "TLS certificate")
    ∷ ("server.check.disk", "Root filesystem")
    ∷ ("server.check.reset", "Traffic reset")
    ∷ ("server.check.listenerPanel", "Panel listener · {protocol}/{port}")
    ∷ ("server.check.listenerInbound", "Inbound listener · {protocol}/{port}")
    ∷ ("server.reason.running", "sing-box is running.")
    ∷ ("server.reason.stopped", "sing-box is not running.")
    ∷ ("server.reason.state_unavailable", "The sing-box service state could not be read.")
    ∷ (
      "server.reason.quota_paused",
      "The core is intentionally paused at the proxy safety threshold.",
    )
    ∷ (
      "server.reason.quota_enforcement_failed",
      "The proxy safety threshold was reached, but sing-box is still running.",
    )
    ∷ ("server.reason.sample_waiting", "Waiting for a traffic sample.")
    ∷ ("server.reason.sample_unavailable", "The traffic sampler is unavailable.")
    ∷ ("server.reason.sample_healthy", "Traffic counters are updating.")
    ∷ (
      "server.reason.sample_interrupted",
      "Traffic reads are interrupted; the last result is retained.",
    )
    ∷ ("server.reason.config_unavailable", "Configuration validation is unavailable.")
    ∷ ("server.reason.config_valid", "The current configuration passes sing-box check.")
    ∷ ("server.reason.config_timeout", "The sing-box configuration check timed out.")
    ∷ ("server.reason.config_invalid", "The current configuration does not pass sing-box check.")
    ∷ ("server.reason.certificate_unavailable", "The TLS certificate could not be read.")
    ∷ ("server.reason.certificate_invalid", "The TLS certificate file could not be parsed.")
    ∷ ("server.reason.certificate_expired", "The TLS certificate has expired.")
    ∷ ("server.reason.certificate_critical", "The TLS certificate expires within 7 days.")
    ∷ ("server.reason.certificate_expiring", "The TLS certificate expires within 30 days.")
    ∷ ("server.reason.certificate_valid", "The TLS certificate has sufficient validity remaining.")
    ∷ ("server.reason.listening", "The local endpoint is listening.")
    ∷ ("server.reason.listener_unavailable", "The local listener table could not be read.")
    ∷ (
      "server.reason.not_listening",
      "No listener for the configured protocol is present on this port.",
    )
    ∷ ("server.reason.disk_ok", "The root filesystem has sufficient free space.")
    ∷ ("server.reason.disk_unavailable", "Root filesystem usage could not be read.")
    ∷ ("server.reason.disk_high", "Root filesystem usage has reached 85%.")
    ∷ ("server.reason.disk_critical", "Root filesystem usage has reached 95%.")
    ∷ ("server.reason.reset_disabled", "Automatic reset is disabled.")
    ∷ ("server.reason.reset_unavailable", "The reset configuration could not be read.")
    ∷ (
      "server.reason.reset_schedule_missing",
      "Monthly reset is enabled but the next reset time is missing.",
    )
    ∷ ("server.reason.reset_scheduled", "The monthly traffic reset schedule is valid.")
    ∷ ("server.detail.expires", "Expires {time}")
    ∷ ("server.detail.failedSince", "Interrupted since {time}")
    ∷ ("server.detail.lastSample", "Last sample {time}")
    ∷ ("server.detail.nextReset", "Next {time} · {timezone}")
    ∷ ("api.failed", "Request failed ({status})")
    ∷ ("api.stale", "Connection lost. Showing the last available data.")
    ∷ ("api.unreachable", "Could not reach the panel. Check your connection and retry.")
    ∷ []
