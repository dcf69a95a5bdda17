-- ===== src/Catalog/FormsEn.antt =====
-- The English texts of web/src/i18n.ts, from `protocol.title` to `settings.passwordDone`.
use sbm.Base.{List, [], ◌∷◌, String}

unfoldable pub forms_en : List (String × String)
forms_en =
    ("protocol.title", "Protocol management")
    ∷ (
      "protocol.help",
      "VLESS Reality and Hysteria2 with automatic configuration validation on save.",
    )
    ∷ ("protocol.add", "Add protocol")
    ∷ ("protocol.disable", "Disable")
    ∷ ("protocol.enable", "Enable")
    ∷ ("protocol.off", "Off")
    ∷ ("protocol.copyLink", "Copy link")
    ∷ ("protocol.showQr", "Show QR code")
    ∷ ("protocol.edit", "Edit protocol")
    ∷ ("protocol.delete", "Delete protocol")
    ∷ ("protocol.addAnother", "Add another protocol")
    ∷ ("protocol.addAnotherHelp", "Add an inbound on a separate port")
    ∷ ("protocol.newTitle", "Add protocol")
    ∷ ("protocol.type", "Protocol type")
    ∷ (
      "protocol.duplicate",
      "Multiple inbounds of the same protocol can use different ports and configurations.",
    )
    ∷ ("protocol.name", "Node name")
    ∷ ("protocol.port", "Listen port")
    ∷ ("protocol.portHelp", "{network} port; allow it in your cloud security group too")
    ∷ ("protocol.cancel", "Cancel")
    ∷ ("protocol.generate", "Generate and apply")
    ∷ ("protocol.editTitle", "Edit protocol")
    ∷ ("protocol.privateKey", "Reality private key")
    ∷ ("protocol.publicKey", "Reality public key")
    ∷ ("protocol.password", "Authentication password")
    ∷ ("protocol.obfs", "Obfuscation")
    ∷ ("protocol.obfsPassword", "Obfuscation password")
    ∷ (
      "protocol.firewall",
      "SBM configures the host firewall. Allow the matching port in your cloud security group.",
    )
    ∷ ("protocol.apply", "Validate and apply")
    ∷ ("protocol.qrAlt", "Node QR code")
    ∷ ("protocol.qrHelp", "Scan to import this node directly")
    ∷ ("protocol.created", "Protocol created and applied")
    ∷ ("protocol.saved", "Configuration validated and applied")
    ∷ ("protocol.disabled", "Protocol disabled")
    ∷ ("protocol.enabled", "Protocol enabled")
    ∷ ("protocol.deleteConfirm", "Delete “{name}”?")
    ∷ ("protocol.deleted", "Protocol deleted")
    ∷ ("protocol.linkCopied", "Node link copied")
    ∷ ("protocol.defaultName", "New node")
    ∷ ("settings.title", "Settings")
    ∷ (
      "settings.help",
      "Manage proxy egress, traffic quota, and security. Each section saves independently.",
    )
    ∷ ("settings.traffic", "Plan traffic and period")
    ∷ ("settings.quotaAmount", "Plan allowance")
    ∷ ("settings.billingMode", "Billing direction")
    ∷ ("settings.billingBidirectional", "Two-way (RX + TX)")
    ∷ ("settings.billingSingle", "One-way (TX)")
    ∷ ("settings.headroom", "Safety reserve")
    ∷ ("settings.planAllowance", "Provider plan")
    ∷ ("settings.estimatedProviderStop", "vnStat safety stop")
    ∷ ("settings.proxyStop", "Actual proxy stop")
    ∷ ("settings.unlimited", "Unlimited")
    ∷ ("settings.autoReset", "Automatic reset")
    ∷ ("settings.noReset", "No automatic reset")
    ∷ ("settings.monthly", "Monthly")
    ∷ ("settings.day", "Day of month")
    ∷ ("settings.dayHelp", "Days 29–31 reset on the last day of shorter months")
    ∷ ("settings.hour", "Reset hour")
    ∷ ("settings.timezone", "Timezone")
    ∷ ("settings.outbound", "Proxy egress network")
    ∷ (
      "settings.outboundHelp",
      "Choose whether sing-box prefers IPv4 or IPv6 when connecting to domain destinations.",
    )
    ∷ ("settings.outboundStrategy", "Address-family strategy")
    ∷ ("settings.outboundAuto", "Automatic (system default)")
    ∷ ("settings.outboundPreferIPv4", "Prefer IPv4, fall back to IPv6")
    ∷ ("settings.outboundPreferIPv6", "Prefer IPv6, fall back to IPv4")
    ∷ ("settings.outboundIPv4Only", "IPv4 only")
    ∷ ("settings.outboundIPv6Only", "IPv6 only")
    ∷ ("settings.outboundGuideTitle", "Address-family strategy")
    ∷ (
      "settings.outboundGuidePrefer",
      "Prefer allows fallback to the other address family. Only limits connections to the selected family.",
    )
    ∷ (
      "settings.outboundGuideOnly",
      "Applies to domain destinations. Client-resolved IP destinations use that IP’s address family.",
    )
    ∷ ("settings.saveTraffic", "Save traffic settings")
    ∷ ("settings.saveOutbound", "Save egress strategy")
    ∷ ("settings.trafficSaved", "Traffic settings saved")
    ∷ ("settings.outboundSaved", "Egress strategy validated and applied")
    ∷ ("settings.subscription", "Master subscription token")
    ∷ (
      "settings.subscriptionHelp",
      "Regenerating it prevents every client using the old URL from updating.",
    )
    ∷ ("settings.copy", "Copy")
    ∷ ("settings.regenerate", "Regenerate token")
    ∷ ("settings.password", "Administrator password")
    ∷ (
      "settings.passwordHelp",
      "Passwords use 12–72 UTF-8 bytes. Changing the password invalidates all sessions.",
    )
    ∷ ("settings.passwordLength", "Use 12–72 UTF-8 bytes for the password.")
    ∷ ("settings.currentPassword", "Current password")
    ∷ ("settings.newPassword", "New password")
    ∷ ("settings.confirmPassword", "Confirm new password")
    ∷ ("settings.changePassword", "Change password")
    ∷ ("settings.loading", "Reading settings…")
    ∷ (
      "settings.tokenConfirm",
      "The old subscription URL will stop working immediately. Regenerate it?",
    )
    ∷ ("settings.tokenDone", "Subscription token regenerated")
    ∷ ("settings.passwordMismatch", "The new passwords do not match")
    ∷ ("settings.passwordDone", "Password changed. Sign in again.")
    ∷ []
