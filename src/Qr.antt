-- ===== src/Qr.antt =====
-- `wrapTitle` and `fitTitle` of web/src/qr.ts: the title under a QR code. A text is here the list of its
-- characters, as `Array.from` gives it. What the canvas measures is a parameter, and so is which
-- characters `trim` takes for blanks.
pub mod Laws
pub mod Lines
pub mod FileName
mod Tests
use sbm.Base.{
  ℕ, zero, suc, ◌-◌, Bool, true, false, ◌&&◌, ◌||◌, not, List, [], ◌∷◌, ◌++◌, ◌==◌, leb, ltb,
  if◌then◌else◌, length, take,
}
use mathlib.Core.List.{reverse}
use sbm.Base.Text.{Text}

abbrev pub is_empty : Text → Bool
is_empty [] = true
is_empty (c ∷ s) = false

pub record Title : Type 0 where
  pub font_size : ℕ
  pub lines : List Text

module _ (is_space : ℕ → Bool) where
  unfoldable pub trim_start : Text → Text
  trim_start [] = []
  trim_start (c ∷ s) = let rest = trim_start s in if is_space c then rest else c ∷ s

  unfoldable pub trim_end : Text → Text
  trim_end [] = []
  trim_end (c ∷ s) = let rest = trim_end s in if is_empty rest && is_space c then [] else c ∷ rest

-- `fits size s` says that `measureText(s).width <= maxTitleWidth` in that size.
module _ (is_space : ℕ → Bool) (fits : ℕ → Text → Bool) where
  unfoldable pub wrap_from : ℕ → Text → Text → List Text
  wrap_from size line [] = if is_empty line then [] else trim_end is_space line ∷ []
  wrap_from size line (c ∷ s) =
      let longer = wrap_from size (line ++ c ∷ []) s in
      let broken = trim_end is_space line ∷ wrap_from size (trim_start is_space (c ∷ [])) s in
      if is_empty line || fits size (line ++ c ∷ []) then longer else broken

  unfoldable pub wrap_title : ℕ → Text → List Text
  unfolding wrap_from
  wrap_title size value = wrap_from size [] value

  -- The loop over the sizes, on fuel.
  unfoldable pub fit_from : ℕ → ℕ → Text → Title
  fit_from zero size value = record { font_size = size; lines = wrap_title size value }
  fit_from (suc f) size value =
      let lines = wrap_title size value in
      let smaller = fit_from f (size - 2) value in
      if leb (length lines) 2 || size == 22
      then record { font_size = size; lines = lines }
      else smaller

  -- The loop that shortens the last line, which stands here in reverse.
  unfoldable pub shorten : ℕ → Text → Text
  shorten size [] = []
  shorten size (c ∷ s) =
      let rest = shorten size s in
      if fits size (reverse (c ∷ s) ++ 0x2026 ∷ []) then c ∷ s else rest

  unfoldable pub cut : ℕ → List Text → List Text
  unfolding shorten
  cut size (first ∷ last ∷ x ∷ more) =
      first ∷ (reverse (shorten size (reverse last)) ++ 0x2026 ∷ []) ∷ []
  cut size lines = lines

  unfoldable pub fit_title : Text → Title
  unfolding fit_from cut
  fit_title value =
      let t = fit_from 7 36 value in
      record { font_size = t.font_size; lines = cut t.font_size t.lines }
