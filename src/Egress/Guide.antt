-- ===== src/Egress/Guide.antt =====
-- The texts in the template of web/src/components/EgressGuide.vue, which stand between its commands.
use sbm.Base.{true, List, [], ◌∷◌}
use sbm.Base.Decimal.{decimal}
use sbm.Message.{t, tr}
use sbm.Page.{Block}

unfoldable pub guide : List Block
guide =
    (
      true,
      t "egress.guide.title"
          ∷ t "egress.guide.subtitle"
          ∷ t "egress.guide.intro"
          ∷ t "egress.guide.installTitle"
          ∷ t "egress.guide.installHelp"
          ∷ t "egress.guide.interfaceHelp"
          ∷ t "egress.guide.keysTitle"
          ∷ t "egress.guide.keysHelp"
          ∷ t "egress.guide.panelTitle"
          ∷ t "egress.guide.panelHelp"
          ∷ t "egress.exitIP"
          ∷ t "egress.guide.ipHelp"
          ∷ t "egress.privateKey"
          ∷ t "egress.guide.aKeyHelp"
          ∷ t "egress.peerKey"
          ∷ t "egress.guide.bKeyHelp"
          ∷ t "egress.guide.draftHelp"
          ∷ [],
    )
    ∷ (
      true,
      t "egress.guide.configTitle"
          ∷ t "egress.guide.configHelp"
          ∷ t "egress.guide.slotHelp"
          ∷ t "egress.guide.aPublicKeyHelp"
          ∷ t "egress.guide.interfaceHelp"
          ∷ t "egress.guide.ipHelp"
          ∷ t "egress.guide.configNotice"
          ∷ tr "egress.guide.firewallHelp" (("port", decimal 51820) ∷ [])
          ∷ t "egress.guide.restartHelp"
          ∷ t "egress.guide.verifyTitle"
          ∷ t "egress.guide.verifyHelp"
          ∷ t "egress.guide.troubleshoot"
          ∷ t "egress.guide.reference"
          ∷ [],
    )
    ∷ []
