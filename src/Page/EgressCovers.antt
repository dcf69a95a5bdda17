-- ===== src/Page/EgressCovers.antt =====
-- The texts of the gateways' page.
use sbm.Base.{Bool, true, false, ◌≡◌, refl, Option, none, some, List, ◌++◌}
use sbm.Catalog.Covered.{all_covered}
use sbm.Page.{Format, covered_blocks, covered_blocks-append, covered_blocks-each}
use sbm.Types.Gateway.{GatewayInput, EgressGateway}
use sbm.Egress.{View}
use sbm.Egress.Guide.{guide}
use sbm.Egress.Page.{head, card_data, card_usage, buttons, card, dialog, dialog_of, cards_of, page}

head-covered : (v : View) → covered_blocks (head v) ≡ true
unfolding head all_covered
head-covered v = refl

card_data-covered : (f : Format) (g : EgressGateway) → covered_blocks (card_data f g) ≡ true
unfolding card_data all_covered
card_data-covered f g = refl

card_usage-covered : (f : Format) (g : EgressGateway) → covered_blocks (card_usage f g) ≡ true
unfolding card_usage all_covered
card_usage-covered f g = refl

buttons-covered : covered_blocks buttons ≡ true
unfolding buttons all_covered
buttons-covered = refl

card-covered : (f : Format) (g : EgressGateway) → covered_blocks (card f g) ≡ true
unfolding card
card-covered f g =
    covered_blocks-append (card_data f g) (card_usage f g ++ buttons) (card_data-covered f g)
      (covered_blocks-append (card_usage f g) buttons (card_usage-covered f g) buttons-covered)

dialog_of-covered : (v : View) (o : Option GatewayInput) → covered_blocks (dialog_of v o) ≡ true
unfolding dialog all_covered
dialog_of-covered v none = refl
dialog_of-covered v (some g) = refl

cards_of-covered :
    (f : Format) (b : Bool) (gs : List EgressGateway) → covered_blocks (cards_of f b gs) ≡ true
cards_of-covered f true gs = covered_blocks-each (card f) gs (card-covered f)
cards_of-covered f false gs = refl

guide-covered : covered_blocks guide ≡ true
unfolding guide all_covered
guide-covered = refl

pub page-covered : (f : Format) (v : View) → covered_blocks (page f v) ≡ true
unfolding page
page-covered f v =
    let cards = cards_of f v.loaded v.items in
    let form = dialog_of v v.form in
    covered_blocks-append (head v) (guide ++ (cards ++ form)) (head-covered v) (
      covered_blocks-append guide (cards ++ form) guide-covered (
        covered_blocks-append cards form (cards_of-covered f v.loaded v.items)
          (dialog_of-covered v v.form)))
