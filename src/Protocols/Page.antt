-- ===== src/Protocols/Page.antt =====
-- The texts in the template of web/src/views/ProtocolsView.vue.
use sbm.Base.{true, ◌&&◌, not, Option, none, some, List, [], ◌∷◌, ◌++◌}
use sbm.Base.Text.{Text, codes}
use sbm.Message.{t, tr}
use sbm.Page.{Block, each, is_empty, is_some}
use sbm.Types.{InboundType, vless_reality, hysteria2, Hysteria2Options, EgressNode, Inbound}
use sbm.Protocols.{LinkNode, InboundInput, View, duplicate}

abbrev obfs : Option Hysteria2Options → Text
obfs none = []
obfs (some h) = elim h.obfs [ none ↦ [] | some s ↦ s ]

abbrev network_of : InboundType → Text
network_of vless_reality = codes "TCP"
network_of hysteria2 = codes "UDP"

unfoldable pub card : Inbound → List Block
card i =
    (i.enabled, t "protocol.disable" ∷ [])
    ∷ (not i.enabled, t "protocol.enable" ∷ [])
    ∷ (not (is_some i.vless) && is_empty (obfs i.hysteria2), t "protocol.off" ∷ [])
    ∷ (
      true,
      t "protocol.copyLink"
          ∷ t "protocol.showQr"
          ∷ t "protocol.edit"
          ∷ tr "protocol.deleteConfirm" (("name", i.name) ∷ [])
          ∷ t "protocol.delete"
          ∷ [],
    )
    ∷ []

unfoldable pub node : EgressNode → List Block
node n =
    (
      true,
      t "egress.enabled"
          ∷ t "egress.entry"
          ∷ t "egress.location"
          ∷ t "egress.managed"
          ∷ t "protocol.copyLink"
          ∷ t "protocol.showQr"
          ∷ [],
    )
    ∷ []

abbrev pub nodes_of : Option (List EgressNode) → List Block
nodes_of none = []
nodes_of (some ns) = each node ns

unfoldable pub item : Inbound → List Block
unfolding card node
item i = card i ++ nodes_of i.egress_nodes

-- The dialog that makes an inbound.
unfoldable pub create_dialog : View → List Block
create_dialog v =
    (
      v.creating,
      t "protocol.newTitle"
          ∷ t "protocol.addAnotherHelp"
          ∷ t "protocol.type"
          ∷ t "protocol.name"
          ∷ t "protocol.port"
          ∷ tr "protocol.portHelp" (("network", network_of v.create_form.type) ∷ [])
          ∷ t "protocol.cancel"
          ∷ t "protocol.generate"
          ∷ [],
    )
    ∷ (v.creating && duplicate v, t "protocol.duplicate" ∷ [])
    ∷ []

unfoldable pub edit_dialog : InboundInput → List Block
edit_dialog i =
    (
      true,
      t "protocol.editTitle" ∷ t "protocol.firewall" ∷ t "protocol.name" ∷ t "protocol.port" ∷ [],
    )
    ∷ (is_some i.vless, t "protocol.privateKey" ∷ t "protocol.publicKey" ∷ [])
    ∷ (is_some i.hysteria2, t "protocol.password" ∷ t "protocol.obfs" ∷ t "protocol.off" ∷ [])
    ∷ (not (is_empty (obfs i.hysteria2)), t "protocol.obfsPassword" ∷ [])
    ∷ (true, t "protocol.cancel" ∷ t "protocol.apply" ∷ [])
    ∷ []

abbrev pub edit_of : Option InboundInput → List Block
edit_of none = []
edit_of (some i) = edit_dialog i

abbrev pub qr_of : Option LinkNode → List Block
qr_of none = []
qr_of (some n) =
    (
      true,
      t "protocol.qrHelp"
          ∷ tr "protocol.qrAlt" (("name", n.name) ∷ [])
          ∷ t "protocol.qrDownload"
          ∷ [],
    )
    ∷ []

unfoldable pub head : List Block
head =
    (
      true,
      t "protocol.title"
          ∷ t "protocol.help"
          ∷ t "protocol.add"
          ∷ t "protocol.addAnother"
          ∷ t "protocol.addAnotherHelp"
          ∷ [],
    )
    ∷ []

unfoldable pub page : View → List Block
unfolding head item create_dialog edit_dialog
page v = head ++ (each item v.items ++ (create_dialog v ++ (edit_of v.editing ++ qr_of v.qr_item)))
