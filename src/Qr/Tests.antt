-- ===== src/Qr/Tests.antt =====
-- Titles on a canvas where every character is a tenth as wide as the card.
use sbm.Base.{ℕ, ◌≡◌, refl, Bool, [], ◌∷◌, ◌==◌, leb, length}
use sbm.Base.Text.{Text, codes}
use sbm.Qr.{trim_start, trim_end, wrap_title, fit_title}
use sbm.Qr.Lines.{joined}
use sbm.Qr.Laws.{Fitted, fit_title-Fitted, wrap_title-keeps}

abbrev blank : ℕ → Bool
blank c = c == b' '

abbrev ten : ℕ → Text → Bool
ten size s = leb (length s) 10

broken :
    wrap_title blank ten 36 (codes "los angeles node") ≡ codes "los angele" ∷ codes "s node" ∷ []
unfolding wrap_title trim_start trim_end
broken = refl

shortened :
    fit_title blank ten (codes "a node with a long name")
    ≡ record { font_size = 22; lines = codes "a node wit" ∷ codes "h a long …" ∷ [] }
unfolding fit_title wrap_title trim_start trim_end
shortened = refl

wrap_title-keeps_example :
    joined blank (wrap_title blank ten 36 (codes "los angeles node")) ≡ codes "losangelesnode"
wrap_title-keeps_example = wrap_title-keeps blank ten 36 (codes "los angeles node")

fit_title-Fitted_example :
    Fitted blank ten
      (codes "a node with a long name")
      (fit_title blank ten (codes "a node with a long name"))
fit_title-Fitted_example = fit_title-Fitted blank ten (codes "a node with a long name")
