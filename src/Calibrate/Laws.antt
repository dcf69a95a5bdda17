-- ===== src/Calibrate/Laws.antt =====
-- What the dialog sends if the amount is left as it was offered.
use sbm.Base.{ℕ, ◌+◌, ◌*◌, ◌/◌, ◌≤◌, ◌≡◌, refl, false, [], ◌∷◌, arith}
use sbm.Types.{TrafficUnit, gb, gib}
use sbm.Calibrate.{Props, unit_bytes, round, setup, used, bytes_of, body_of, posted, submit}

-- As far as the hundredths of a unit that are offered can tell.
abbrev pub Near : TrafficUnit → ℕ → ℕ → Type 0
Near u a b = (a ≤ b + unit_bytes u / 200) × (b ≤ a + unit_bytes u / 200)

Near-round :
    (u : TrafficUnit) (n : ℕ) → Near u (round (round (n * 100) (unit_bytes u) * unit_bytes u) 100) n
Near-round gb n = (omega arith, omega arith)
Near-round gib n = (omega arith, omega arith)

bytes_of-setup : (p : Props) → Near p.unit (bytes_of p.unit (setup p).amount) p.used_bytes
unfolding setup bytes_of
bytes_of-setup p = Near-round p.unit p.used_bytes

-- A dialog that is submitted as it opens sends a single request, with what was measured, to half a
-- hundredth of the unit.
pub submit-setup :
    (p : Props)
    → ((submit p false (setup p)).1 ≡ posted false (used (bytes_of p.unit (setup p).amount)) ∷ [])
      × Near p.unit (bytes_of p.unit (setup p).amount) p.used_bytes
unfolding submit setup body_of
submit-setup p = (refl, bytes_of-setup p)
