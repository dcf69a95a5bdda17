-- ===== src/Catalog/EgressEn.antt =====
-- The English texts of web/src/egress-i18n.ts.
use sbm.Base.{List, [], ◌∷◌, String}

unfoldable pub egress_en : List (String × String)
egress_en =
    ("egress", "Egress")
    ∷ ("egress.delete", "Delete gateway")
    ∷ ("egress.title", "Egress gateways")
    ∷ (
      "egress.help",
      "One entry, multiple exits. Client credentials select Direct or a WireGuard gateway.",
    )
    ∷ ("egress.add", "Add gateway")
    ∷ ("egress.edit", "Edit gateway")
    ∷ ("egress.save", "Save and validate")
    ∷ ("egress.saving", "Applying…")
    ∷ ("egress.client", "Client")
    ∷ ("egress.entry", "SBM entry")
    ∷ ("egress.gateway", "Exit gateway")
    ∷ ("egress.enabled", "Enabled")
    ∷ ("egress.disabled", "Disabled")
    ∷ ("egress.enableForm", "Enable this gateway and its derived nodes")
    ∷ ("egress.estimate", "Estimated from WireGuard tunnel traffic")
    ∷ (
      "egress.warningOnly", "Warnings only by default; a gateway can pause itself at its threshold",
    )
    ∷ ("egress.loading", "Reading egress gateways…")
    ∷ ("egress.empty", "Internet traffic leaves through the entry")
    ∷ (
      "egress.emptyHelp",
      "Add a gateway to use its exit IP in the master subscription. Direct nodes are always available.",
    )
    ∷ ("egress.location", "Exit location")
    ∷ ("egress.detected", "Detected location")
    ∷ ("egress.override", "Location override")
    ∷ (
      "egress.overrideHelp",
      "Takes precedence over IP geolocation. Example: JP-Tokyo. Leave empty to use the detected location.",
    )
    ∷ ("egress.unknown", "No detected location yet")
    ∷ ("egress.exitIP", "B public IPv4")
    ∷ ("egress.port", "WireGuard UDP port")
    ∷ ("egress.marker", "Marker (optional)")
    ∷ ("egress.markerPlaceholder", "AWS, JP1, SG1")
    ∷ ("egress.position", "Display order")
    ∷ ("egress.privateKey", "A private key")
    ∷ ("egress.publicKey", "A public key (copy to B)")
    ∷ ("egress.peerKey", "B public key")
    ∷ ("egress.generateKeys", "Generate A keys")
    ∷ ("egress.keyHelp", "After changing A’s private key, update the peer public key on B.")
    ∷ ("egress.noPublicKey", "Generate keys or enter A’s private key")
    ∷ ("egress.aAddress", "A tunnel address")
    ∷ ("egress.bAddress", "B interface address")
    ∷ (
      "egress.setupHelp",
      "Save disabled first to obtain a stable B tunnel address. Configure WireGuard, forwarding and NAT on B, then enable it.",
    )
    ∷ ("egress.saved", "Gateway saved")
    ∷ (
      "egress.savedGeoFailed",
      "Saved. Geolocation is unavailable; you can enter a location override.",
    )
    ∷ ("egress.deleted", "Gateway deleted")
    ∷ ("egress.redetect", "Detect location")
    ∷ ("egress.geoDone", "Exit location updated")
    ∷ (
      "egress.geoFailed",
      "Geolocation failed. The previous result is retained; you can set an override.",
    )
    ∷ ("egress.resetDay", "Monthly on day {day}")
    ∷ ("egress.resetDayHour", "Monthly on day {day} at {hour}:00")
    ∷ ("egress.nextReset", "Next reset: {date}")
    ∷ ("egress.remaining", "About {amount} remaining")
    ∷ ("egress.resetTraffic", "Reset gateway traffic")
    ∷ (
      "egress.resetConfirm",
      "Clear this gateway’s current period usage. Other gateways and local usage keep their totals.",
    )
    ∷ ("egress.resetDone", "Gateway traffic reset")
    ∷ (
      "egress.deleteConfirm",
      "Deleting removes this gateway’s derived credentials and traffic state. Adding it again creates new credentials.",
    )
    ∷ ("egress.quotaWarning", "Plan warning threshold reached; this gateway keeps running")
    ∷ (
      "egress.paused",
      "Safety threshold reached; this gateway is paused until a reset or calibration",
    )
    ∷ ("egress.stopOnQuota", "Pause this gateway at its safety threshold")
    ∷ (
      "egress.stopOnQuotaHelp",
      "Only this gateway’s nodes are refused; they never fall back to another exit. The entry and other gateways keep running. Pausing and resuming each restart sing-box once.",
    )
    ∷ ("egress.sample.waiting", "Waiting for a tunnel sample")
    ∷ ("egress.sample.healthy", "Tunnel counters healthy")
    ∷ ("egress.sample.interrupted", "Tunnel sampling interrupted; showing the last result")
    ∷ ("egress.sample.disabled", "Gateway disabled")
    ∷ ("egress.persistenceFailed", "Traffic data is not fully saved yet. Retrying.")
    ∷ ("egress.partialUsage", "Incomplete period coverage; usage is approximate.")
    ∷ ("egress.managed", "Read-only derived node. Manage its configuration on the Egress page.")
    ∷ ("egress.guide.title", "Set up the exit machine B")
    ∷ (
      "egress.guide.subtitle",
      "5 steps · Ubuntu / Debian · Installation, keys, fields and verification",
    )
    ∷ (
      "egress.guide.intro",
      "A is the entry machine running SBM. Run every command marked B · SSH on B; manage A’s keys and nodes in this panel.",
    )
    ∷ ("egress.guide.installTitle", "Install WireGuard on B")
    ∷ (
      "egress.guide.installHelp",
      "SSH into B, confirm it has a reachable public IPv4, then install WireGuard, iptables and network tools. B runs WireGuard and does not need SBM.",
    )
    ∷ (
      "egress.guide.interfaceHelp",
      "Find the interface name after dev in the output of ip route show default, for example ens5, ens4 or eth0.",
    )
    ∷ ("egress.guide.keysTitle", "Generate B’s keys and copy its public key")
    ∷ (
      "egress.guide.keysHelp",
      "These commands store the private key on B and print only the public key. Repeating them preserves the existing private key. Copy the printed public key to the panel; keep B’s private key on B.",
    )
    ∷ ("egress.guide.panelTitle", "Add a gateway in the panel and save it disabled")
    ∷ (
      "egress.guide.panelHelp",
      "Click Add gateway and fill the fields as shown below. The panel generates A’s keys by default; A and B each have their own key pair.",
    )
    ∷ (
      "egress.guide.ipHelp",
      "Enter B’s public IPv4. The UDP port defaults to 51820 and must match ListenPort on B.",
    )
    ∷ (
      "egress.guide.aKeyHelp",
      "Use the A private key generated by the panel. Its public key is derived automatically and goes into B’s Peer in the next step.",
    )
    ∷ ("egress.guide.bKeyHelp", "Paste the B public key printed at the end of step 2.")
    ∷ (
      "egress.guide.draftHelp",
      "Leave Enable this gateway and its derived nodes unchecked, then save. Read the stable A tunnel address and B interface address from this gateway’s card; use these values in B’s configuration below.",
    )
    ∷ ("egress.guide.configTitle", "Configure forwarding, NAT and WireGuard on B")
    ∷ (
      "egress.guide.configHelp",
      "Enable IPv4 forwarding on B and create its configuration file. Replace the placeholders below with real values, then paste and save the configuration. Use the addresses shown on this gateway’s card.",
    )
    ∷ (
      "egress.guide.configNotice",
      "Replace X, A_PUBLIC_KEY and B_PUBLIC_INTERFACE with real values. This example uses ordinary iptables. With UFW, firewalld or existing DROP rules, allow forwarding and NAT through your existing policy; do not flush the firewall.",
    )
    ∷ (
      "egress.guide.firewallHelp",
      "The example uses UDP/{port}; use your actual port if changed. Allow that UDP port from A’s public IP in both B’s cloud and host firewalls. A’s outbound policy must also allow this UDP port to B. Then run the start commands below.",
    )
    ∷ (
      "egress.guide.restartHelp",
      "After editing B’s configuration, run sudo systemctl restart wg-quick@sbm-egress. Changing A’s private key also requires updating B’s peer public key.",
    )
    ∷ ("egress.guide.verifyTitle", "Enable the gateway and verify its exit IP")
    ∷ (
      "egress.guide.verifyHelp",
      "Once B starts successfully, enable the gateway in the panel and refresh your client subscription. Test its VLESS and HY2 nodes with the link below: ip= should show B. Direct nodes should show A.",
    )
    ∷ (
      "egress.guide.troubleshoot",
      "If a connection fails, check latest handshake and transfer with sudo wg show sbm-egress on B, then check both public keys, UDP rules, IPv4 forwarding and NAT. Test with an IPv4 destination.",
    )
    ∷ (
      "egress.guide.slotHelp",
      "Use the third segment of the tunnel addresses shown in the panel. For 10.66.2.1/24 and 10.66.2.2/32, X=2; do not always use 1.",
    )
    ∷ (
      "egress.guide.aPublicKeyHelp",
      "Edit this gateway and copy A public key (copy to B). Enter A’s public key here; B’s private key is read from its local file.",
    )
    ∷ ("egress.guide.reference", "WireGuard official quick start")
    ∷ []
