-- ===== src/Egress/Position.antt =====
-- Where a new gateway stands in the list.
use sbm.Base.{◌≡◌, true, List, [], ◌∷◌, All, All_map, Option, none, some, arith}
use sbm.Base.Int.{ℤ, pos, ◌≤ℤ◌, ltb_ℤ, +ℤ_parts}
use sbm.Types.Gateway.{GatewayInput, EgressGateway}
use sbm.Egress.{View, max_position, next_position, empty_form, generate, create}

max_position-Bounds :
    (g : EgressGateway) (hs : List EgressGateway)
    → All (λ h. h.input.position ≤ℤ max_position g hs) (g ∷ hs)
unfolding max_position
max_position-Bounds g [] = (omega arith, tt)
max_position-Bounds g (h ∷ hs) =
    let rest = max_position-Bounds h hs in
    (
      ground arith,
      All_map (λ x. x.input.position ≤ℤ max_position h hs)
          (λ x. x.input.position ≤ℤ max_position g (h ∷ hs)) (h ∷ hs) (λ x le. ground arith) rest,
    )

next_position-Above :
    (gs : List EgressGateway) → All (λ g. ltb_ℤ g.input.position (next_position gs) ≡ true) gs
unfolding next_position
next_position-Above [] = tt
next_position-Above (g ∷ hs) =
    All_map (λ x. x.input.position ≤ℤ max_position g hs)
      (λ x. ltb_ℤ x.input.position (next_position (g ∷ hs)) ≡ true) (g ∷ hs)
      (λ x le. ground (arith, +ℤ_parts (max_position g hs) (pos 1))) (max_position-Bounds g hs)

-- Whatever the form's position is compared with: nothing is above it where there is no form.
abbrev pub position_of : Option GatewayInput → ℤ
position_of none = pos 0
position_of (some f) = f.position

-- A new gateway's form has a position above those of all listed gateways, whatever their signs.
pub create-Above :
    (v : View) → All (λ g. ltb_ℤ g.input.position (position_of (create v).0.form) ≡ true) v.items
unfolding create empty_form generate
create-Above v = next_position-Above v.items
