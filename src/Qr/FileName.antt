-- ===== src/Qr/FileName.antt =====
-- The name under which `downloadQrCard` of web/src/qr.ts saves a card, with the blanks of `trim` and `\s`, which
-- are the same, as a parameter.
use sbm.Base.{
  ℕ, suc, ◌≤◌, ◌≡◌, refl, Bool, true, false, ◌||◌, [], ◌∷◌, ◌++◌, ◌==◌, if◌then◌else◌, ltb, take,
  length, arith, Bool-cases, inl, inr, zero, All,
}
use sbm.Base.Text.{Text, codes}
use sbm.Qr.{trim_start, trim_end}

-- One of the characters that a file's name must not have.
abbrev pub is_forbidden : ℕ → Bool
is_forbidden c =
    c == b'<'
    || c == b'>'
    || c == b':'
    || c == b'"'
    || c == b'/'
    || c == b'\\'
    || c == b'|'
    || c == b'?'
    || c == b'*'
    || ltb c 32

unfoldable pub dashed : Text → Text
dashed [] = []
dashed (c ∷ s) = (if is_forbidden c then b'-' else c) ∷ dashed s

module _ (is_space : ℕ → Bool) where
  -- `replace(/\s+/g, ' ')`: the flag says that the character before was a blank.
  unfoldable pub squeeze : Bool → Text → Text
  squeeze after [] = []
  squeeze after (c ∷ s) =
      let blank = squeeze true s in
      let other = squeeze false s in
      if is_space c then (if after then blank else b' ' ∷ blank) else c ∷ other

  abbrev or_sbm : Text → Text
  or_sbm [] = codes "SBM"
  or_sbm (c ∷ s) = c ∷ s

  unfoldable pub safe_name : Text → Text
  unfolding dashed squeeze
  safe_name name =
      or_sbm (take 80 (squeeze false (dashed (trim_end is_space (trim_start is_space name)))))

  -- The name of the file.
  unfoldable pub file_name : Text → Text
  unfolding safe_name
  file_name name = safe_name name ++ codes "-QR.png"

  abbrev pub IsSafe : Text → Type 0
  IsSafe = All (λ c. is_forbidden c ≡ false)

  dashed-IsSafe : (s : Text) → IsSafe (dashed s)
  unfolding dashed
  dashed-IsSafe [] = tt
  dashed-IsSafe (c ∷ s) = elim (Bool-cases (is_forbidden c)) [
    | inl bad ↦ (rw bad refl, dashed-IsSafe s)
    | inr good ↦ (rw good good, dashed-IsSafe s)
  ]

  squeeze-IsSafe : (after : Bool) (s : Text) → IsSafe s → IsSafe (squeeze after s)
  unfolding squeeze
  squeeze-IsSafe after [] h = tt
  squeeze-IsSafe after (c ∷ s) h = elim (Bool-cases (is_space c)) [
    | inl blank ↦ elim (Bool-cases after) [
      | inl again ↦ rw (blank, again) (squeeze-IsSafe true s h.1)
      | inr first ↦ rw (blank, first) (refl, squeeze-IsSafe true s h.1)
    ]
    | inr other ↦ rw other (h.0, squeeze-IsSafe false s h.1)
  ]

  take-IsSafe : (n : ℕ) (s : Text) → IsSafe s → IsSafe (take n s)
  take-IsSafe zero s h = tt
  take-IsSafe (suc n) [] h = tt
  take-IsSafe (suc n) (c ∷ s) h = (h.0, take-IsSafe n s h.1)

  or_sbm-IsSafe : (s : Text) → IsSafe s → IsSafe (or_sbm s)
  or_sbm-IsSafe [] h = (refl, (refl, (refl, tt)))
  or_sbm-IsSafe (c ∷ s) h = h

  length-take : (n : ℕ) (s : Text) → length (take n s) ≤ n
  length-take zero s = omega arith
  length-take (suc n) [] = omega arith
  length-take (suc n) (c ∷ s) = omega (arith, length-take n s)

  length-or_sbm : (s : Text) → length s ≤ 80 → length (or_sbm s) ≤ 80
  length-or_sbm [] h = omega arith
  length-or_sbm (c ∷ s) h = h

  -- Whatever an inbound is called, its file has a name of at most 80 code units, which no file system
  -- refuses for one of the characters that the source lists.
  safe_name-IsSafe : (name : Text) → IsSafe (safe_name name) × (length (safe_name name) ≤ 80)
  unfolding safe_name
  safe_name-IsSafe name =
      let s = dashed (trim_end is_space (trim_start is_space name)) in
      let q =
        squeeze-IsSafe false s (dashed-IsSafe (trim_end is_space (trim_start is_space name))) in
      (
        or_sbm-IsSafe (take 80 (squeeze false s)) (take-IsSafe 80 (squeeze false s) q),
        length-or_sbm (take 80 (squeeze false s)) (length-take 80 (squeeze false s)),
      )
