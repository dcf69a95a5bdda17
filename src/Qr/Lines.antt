-- ===== src/Qr/Lines.antt =====
-- A text and its lines without their blanks.
use sbm.Base.{
  ℕ, ◌≡◌, ◌∙◌, sym, refl, ap, Bool, true, false, List, [], ◌∷◌, ◌++◌, if◌then◌else◌, Bool-cases,
  inl, inr,
}
use sbm.Base.Text.{Text}
use sbm.Qr.{is_empty, trim_start, trim_end}

module _ (is_space : ℕ → Bool) where
  -- A text without its blanks, and all lines in a row.
  abbrev pub solid : Text → Text
  solid [] = []
  solid (c ∷ s) = let rest = solid s in if is_space c then rest else c ∷ rest

  abbrev pub joined : List Text → Text
  joined [] = []
  joined (l ∷ ls) = solid l ++ joined ls

  pub solid_letter : (c : ℕ) (s : Text) → is_space c ≡ false → solid (c ∷ s) ≡ c ∷ solid s
  solid_letter c s h = rw h refl

  pub solid-append : (s r : Text) → solid (s ++ r) ≡ solid s ++ solid r
  solid-append [] r = refl
  solid-append (c ∷ s) r = elim (Bool-cases (is_space c)) [
    | inl blank ↦ rw blank (solid-append s r)
    | inr other ↦ rw other (ap (λ x. c ∷ x) (solid-append s r))
  ]

  pub solid-trim_start : (s : Text) → solid (trim_start is_space s) ≡ solid s
  unfolding trim_start
  solid-trim_start [] = refl
  solid-trim_start (c ∷ s) = elim (Bool-cases (is_space c)) [
    | inl blank ↦ rw (trim_start, blank) (solid-trim_start s)
    | inr other ↦ rw (trim_start, other) (solid_letter c s other)
  ]

  pub solid-of_empty : (s : Text) → is_empty s ≡ true → solid s ≡ []
  solid-of_empty [] h = refl
  solid-of_empty (c ∷ s) h = absurd (cc h)

  pub solid-trim_end : (s : Text) → solid (trim_end is_space s) ≡ solid s
  unfolding trim_end
  solid-trim_end [] = refl
  solid-trim_end (c ∷ s) = elim (Bool-cases (is_space c)) [
    | inl blank ↦ elim (Bool-cases (is_empty (trim_end is_space s))) [
      | inl all ↦
          rw (trim_end, all, blank)
            (sym (solid-of_empty (trim_end is_space s) all) ∙ solid-trim_end s)
      | inr part ↦ rw (trim_end, part, blank) (solid-trim_end s)
    ]
    | inr other ↦ elim (Bool-cases (is_empty (trim_end is_space s))) [
      | inl all ↦
          rw (trim_end, all, other)
            (solid_letter c (trim_end is_space s) other ∙ ap (λ x. c ∷ x) (solid-trim_end s))
      | inr part ↦ rw (trim_end, part, other) (ap (λ x. c ∷ x) (solid-trim_end s))
    ]
  ]
