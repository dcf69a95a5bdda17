-- ===== src/Qr/Laws.antt =====
-- What the title keeps of a name, and in which size.
use sbm.Base.{
  ℕ, zero, suc, ◌+◌, ◌-◌, ◌*◌, ◌≤◌, ◌<◌, ◌≡◌, ◌∙◌, sym, ◌⊎◌, refl, ap, Bool, ◌||◌, List, [], ◌∷◌,
  ◌++◌, ◌==◌, leb, length, arith, Bool-cases, inl, inr,
}
use mathlib.Core.List.{append_assoc}
use sbm.Base.Text.{Text}
use sbm.Qr.{is_empty, Title, trim_start, wrap_from, wrap_title, fit_from, cut, fit_title}
use sbm.Qr.Lines.{solid, joined, solid-append, solid-trim_start, solid-of_empty, solid-trim_end}

module _ (is_space : ℕ → Bool) (fits : ℕ → Text → Bool) where
  -- What the loop over the sizes stops with, begun at a size.
  pub record Chosen (size : ℕ) (value : Text) (t : Title) : Type 0 where
    pub low : 22 ≤ t.font_size
    pub high : t.font_size ≤ size
    pub wrapped : t.lines ≡ wrap_title is_space fits t.font_size value
    pub stops : (length t.lines ≤ 2) ⊎ (t.font_size ≡ 22)
    pub larger :
        (k : ℕ)
        → t.font_size < 22 + 2 * k
        → 22 + 2 * k ≤ size
        → 3 ≤ length (wrap_title is_space fits (22 + 2 * k) value)

  fit_smallest :
      (size : ℕ) (value : Text)
      → size ≡ 22
      → Chosen size value (fit_from is_space fits zero size value)
  unfolding fit_from
  fit_smallest size value e = record {
    low = omega arith;
    high = omega arith;
    wrapped = refl;
    stops = inr e;
    larger = λ k a b. absurd (omega arith);
  }

  fit_from-Chosen :
      (f size : ℕ) (value : Text)
      → size ≡ 22 + 2 * f
      → Chosen size value (fit_from is_space fits f size value)
  unfolding fit_from
  fit_from-Chosen zero size value e = fit_smallest size value (omega arith)
  fit_from-Chosen (suc f) size value e =
      let lines = wrap_title is_space fits size value in
      elim (Bool-cases (leb (length lines) 2 || size == 22)) [
        | inl done ↦
            rw (fit_from, done)
              (record {
                low = omega arith;
                high = omega arith;
                wrapped = refl;
                stops = ground arith;
                larger = λ k a b. absurd (omega arith);
              })
        | inr more ↦
            let long : 3 ≤ length lines = ground arith in
            let h = fit_from-Chosen f (size - 2) value (omega arith) in
            rw (fit_from, more)
              (record {
                low = h.low;
                high = omega (arith, h.high);
                wrapped = h.wrapped;
                stops = h.stops;
                larger = λ k a b. elim (next k b) [
                  | inl here ↦ rw here long
                  | inr below ↦ h.larger k a below
                ];
              })
      ]
    where
      next : (k : ℕ) → 22 + 2 * k ≤ size → (22 + 2 * k ≡ size) ⊎ (22 + 2 * k ≤ size - 2)
      next k b = omega (arith, e)

  cut-length : (size : ℕ) (lines : List Text) → length (cut is_space fits size lines) ≤ 2
  unfolding cut
  cut-length size [] = omega arith
  cut-length size (a ∷ []) = omega arith
  cut-length size (a ∷ b ∷ []) = omega arith
  cut-length size (a ∷ b ∷ c ∷ more) = omega arith

  cut_short :
      (size : ℕ) (lines : List Text) → length lines ≤ 2 → cut is_space fits size lines ≡ lines
  unfolding cut
  cut_short size [] h = refl
  cut_short size (a ∷ []) h = refl
  cut_short size (a ∷ b ∷ []) h = refl
  cut_short size (a ∷ b ∷ c ∷ more) h = absurd (omega arith)

  -- What the title of a name is.
  pub record Fitted (value : Text) (t : Title) : Type 0 where
    pub two_lines : length t.lines ≤ 2
    pub low : 22 ≤ t.font_size
    pub high : t.font_size ≤ 36
    pub larger :
        (k : ℕ)
        → t.font_size < 22 + 2 * k
        → 22 + 2 * k ≤ 36
        → 3 ≤ length (wrap_title is_space fits (22 + 2 * k) value)
    pub whole :
        (t.lines ≡ wrap_title is_space fits t.font_size value)
        ⊎ ((t.font_size ≡ 22) × (3 ≤ length (wrap_title is_space fits 22 value)))

  whole_lem :
      (value : Text) (t : Title)
      → Chosen 36 value t
      → (cut is_space fits t.font_size t.lines ≡ wrap_title is_space fits t.font_size value)
        ⊎ ((t.font_size ≡ 22) × (3 ≤ length (wrap_title is_space fits 22 value)))
  whole_lem value t h = elim (Bool-cases (leb (length t.lines) 2)) [
    | inl short ↦ inl (cut_short t.font_size t.lines (ground arith) ∙ h.wrapped)
    | inr long ↦
        let many : 3 ≤ length t.lines = ground arith in
        let small : t.font_size ≡ 22 = at_22 many h.stops in
        inr (small, rw (← small, ← h.wrapped) many)
  ]
    where
      at_22 : 3 ≤ length t.lines → (length t.lines ≤ 2) ⊎ (t.font_size ≡ 22) → t.font_size ≡ 22
      at_22 m (inl a) = absurd (omega arith)
      at_22 m (inr b) = b

  -- The loop over the sizes ends: a title has at most two lines, in a size from 22 to 36 such that every
  -- larger one of 36, 34, … 22 takes more lines. It is the wrapped name as a whole, or the size is 22 and
  -- the name takes more than two lines in it.
  pub fit_title-Fitted : (value : Text) → Fitted value (fit_title is_space fits value)
  unfolding fit_title
  fit_title-Fitted value =
      fitted (fit_from is_space fits 7 36 value) (fit_from-Chosen 7 36 value (omega arith))
    where
      fitted :
          (t : Title)
          → Chosen 36 value t
          → Fitted value
              (record { font_size = t.font_size; lines = cut is_space fits t.font_size t.lines })
      fitted t h = record {
        two_lines = cut-length t.font_size t.lines;
        low = h.low;
        high = h.high;
        larger = h.larger;
        whole = whole_lem value t h;
      }

  keeps_lem :
      (size : ℕ) (line s : Text)
      → joined is_space (wrap_from is_space fits size line s)
        ≡ solid is_space line ++ solid is_space s
  unfolding wrap_from
  keeps_lem size line [] = elim (Bool-cases (is_empty line)) [
    | inl none ↦ rw (wrap_from, none, solid-of_empty is_space line none) refl
    | inr part ↦ rw (wrap_from, part) (ap (λ x. x ++ []) (solid-trim_end is_space line))
  ]
  keeps_lem size line (c ∷ s) = elim (Bool-cases (is_empty line || fits size (line ++ c ∷ []))) [
    | inl longer ↦
        rw (wrap_from, longer)
          (keeps_lem size (line ++ c ∷ []) s
            ∙ ap (λ x. x ++ solid is_space s) (solid-append is_space line (c ∷ []))
            ∙ split c line s)
    | inr broken ↦
        rw (wrap_from, broken)
          (ap
              (λ x.
                x
                ++ joined is_space (wrap_from is_space fits size (trim_start is_space (c ∷ [])) s))
              (solid-trim_end is_space line)
            ∙ ap (λ x. solid is_space line ++ x)
                (keeps_lem size (trim_start is_space (c ∷ [])) s
                  ∙ ap (λ x. x ++ solid is_space s) (solid-trim_start is_space (c ∷ []))
                  ∙ sym (solid-append is_space (c ∷ []) s)))
  ]
    where
      split :
          (c : ℕ) (line s : Text)
          → (solid is_space line ++ solid is_space (c ∷ [])) ++ solid is_space s
            ≡ solid is_space line ++ solid is_space (c ∷ s)
      split c line s =
          append_assoc (solid is_space line) (solid is_space (c ∷ [])) (solid is_space s)
          ∙ ap (λ x. solid is_space line ++ x) (sym (solid-append is_space (c ∷ []) s))

  -- Wrapping a name loses nothing but blanks: the lines in a row have the characters of the name that are
  -- no blanks, in their order.
  pub wrap_title-keeps :
      (size : ℕ) (value : Text)
      → joined is_space (wrap_title is_space fits size value) ≡ solid is_space value
  unfolding wrap_title
  wrap_title-keeps size value = keeps_lem size [] value
