-- ===== src/Catalog/HistoryEn.antt =====
-- The English texts of web/src/history-i18n.ts.
use sbm.Base.{List, [], ◌∷◌, String}

unfoldable pub history_en : List (String × String)
history_en =
    ("history.title", "Traffic history")
    ∷ (
      "history.help",
      "Daily and calendar-month public-interface traffic, with sing-box proxy traffic as a reference.",
    )
    ∷ ("history.granularity", "Summary interval")
    ∷ ("history.daily", "Daily")
    ∷ ("history.monthly", "Monthly")
    ∷ ("history.selectMonth", "Select month")
    ∷ ("history.selectYear", "Select year")
    ∷ ("history.day", "Date")
    ∷ ("history.month", "Month")
    ∷ ("history.proxyTotal", "Proxy traffic")
    ∷ ("history.providerTotal", "Estimated plan usage")
    ∷ ("history.since", "Recording since {date} · {timezone}")
    ∷ ("history.importedHelp", "sing-box reference total: {amount} (no daily breakdown)")
    ∷ ("history.imported", "Summary record")
    ∷ ("history.partial", "Partial record")
    ∷ ("history.tableLabel", "Traffic records · {timezone}")
    ∷ ("history.empty", "No saved records for the selected period.")
    ∷ ("history.loading", "Reading traffic history…")
    ∷ ("history.failed", "Could not read traffic history")
    ∷ ("history.swipe", "Swipe horizontally to see all columns")
    ∷ ("history.invalidPeriod", "Select a valid month or year.")
    ∷ (
      "history.footnote",
      "Collected every 30 seconds; this page refreshes each minute. Dates or months with incomplete coverage are marked as partial records.",
    )
    ∷ ("apps.title", "Application & site traffic")
    ∷ (
      "apps.help",
      "Classified from sing-box proxy connection domains (SNI/Host) and known service IPs. Click a row to view root domains.",
    )
    ∷ ("apps.daily", "Daily")
    ∷ ("apps.monthly", "Monthly")
    ∷ ("apps.selectDay", "Select date")
    ∷ ("apps.selectMonth", "Select month")
    ∷ ("apps.export", "Export JSON")
    ∷ ("apps.exportDone", "Exported application traffic JSON")
    ∷ ("apps.clear", "Clear stats")
    ∷ (
      "apps.clearConfirm",
      "Clear all saved application and site traffic ranking records? Plan usage and interface traffic history will not be affected.",
    )
    ∷ ("apps.clearDone", "Application traffic statistics cleared")
    ∷ ("apps.empty", "No application traffic recorded for the selected period yet.")
    ∷ ("apps.loading", "Reading application traffic…")
    ∷ ("apps.failed", "Could not read application traffic")
    ∷ ("apps.invalidPeriod", "Select a valid date or month.")
    ∷ ("apps.app", "App / Root domain")
    ∷ ("apps.upload", "Upload")
    ∷ ("apps.download", "Download")
    ∷ ("apps.total", "Total / Share")
    ∷ ("apps.domainsCount", "{count} domains")
    ∷ ("apps.proxyTotal", "Proxy total: {amount}")
    ∷ (
      "apps.footnote",
      "Privacy-preserving storage: aggregates hourly bytes by root domain (eTLD+1) only; client source IPs, exact timestamps, and private subdomains are never stored. Connections that close between two samples cannot be tied to an app and count as Unattributed.",
    )
    ∷ ("apps.cat.streaming", "Streaming")
    ∷ ("apps.cat.ai", "AI")
    ∷ ("apps.cat.social", "Social")
    ∷ ("apps.cat.messaging", "Messaging")
    ∷ ("apps.cat.dev", "Developer")
    ∷ ("apps.cat.gaming", "Gaming")
    ∷ ("apps.cat.ecosystem", "Shared Ecosystem")
    ∷ ("apps.cat.cdn", "CDN / Edge")
    ∷ ("apps.cat.site", "Website")
    ∷ ("apps.cat.direct_ip", "Direct IP")
    ∷ ("apps.cat.other", "Other")
    ∷ ("apps.cat.unattributed", "Unattributed")
    ∷ ("apps.cat.productivity", "Productivity")
    ∷ ("apps.name.ecosystem:google", "Google Services")
    ∷ ("apps.name.ecosystem:apple", "Apple Services")
    ∷ ("apps.name.ecosystem:meta", "Meta / Facebook")
    ∷ ("apps.name.ecosystem:microsoft", "Microsoft Services")
    ∷ ("apps.name.ecosystem:amazon", "Amazon / AWS")
    ∷ ("apps.name.ip:tcp", "Direct IP (TCP)")
    ∷ ("apps.name.ip:udp", "Direct IP (UDP)")
    ∷ ("apps.name.other", "Other long-tail domains")
    ∷ ("apps.name.unattributed", "Unattributed (closed short connections)")
    ∷ []
