-- ===== src/I18n/Template.antt =====
-- Filling in one placeholder of a message.
use sbm.Base.{zero, ◌-◌, ◌≡◌, refl, true, false, [], ◌∷◌, ◌++◌, ◌==◌, drop, length, All, arith, ap}
use mathlib.Core.List.{append-nil, append_assoc}
use sbm.Base.Text.{Text}
use sbm.I18n.{starts_with, expand, replace_from, replace_all, placeholder}

-- A text without an opening brace, and one without a dollar.
abbrev pub NoBrace : Text → Type 0
NoBrace = All (λ c. (c == b'{') ≡ false)

abbrev pub NoDollar : Text → Type 0
NoDollar = All (λ c. (c == b'$') ≡ false)

pub expand-NoDollar : (found before after s : Text) → NoDollar s → expand found before after s ≡ s
unfolding expand
expand-NoDollar found before after [] h = refl
expand-NoDollar found before after (c ∷ []) h = refl
expand-NoDollar found before after (c ∷ d ∷ s) h =
    rw (expand, h.0) (ap (λ x. c ∷ x) (expand-NoDollar found before after (d ∷ s) h.1))

starts_with-append : (p s : Text) → starts_with p (p ++ s) ≡ true
starts_with-append [] s = refl
starts_with-append (c ∷ p) s = ground (arith, starts_with-append p s)

drop-length : (p s : Text) → drop (length p) (p ++ s) ≡ s
drop-length [] s = refl
drop-length (c ∷ p) s = drop-length p s

module _ (name repl : Text) where
  replace_from-NoBrace :
      (before s : Text) → NoBrace s → replace_from (placeholder name) repl before zero s ≡ s
  unfolding replace_from
  replace_from-NoBrace before [] h = refl
  replace_from-NoBrace before (c ∷ s) h =
      let e : (b'{' == c) ≡ false = ground (arith, h.0) in
      rw (replace_from, e) (ap (λ x. c ∷ x) (replace_from-NoBrace (before ++ c ∷ []) s h.1))

  replace_from-skip :
      (before p s : Text)
      → replace_from (placeholder name) repl before (length p) (p ++ s)
        ≡ replace_from (placeholder name) repl (before ++ p) zero s
  unfolding replace_from
  replace_from-skip before [] s = rw (append-nil before) refl
  replace_from-skip before (c ∷ p) s =
      rw (← append_assoc before (c ∷ []) p) (replace_from-skip (before ++ c ∷ []) p s)

  replace_from-prefix :
      (before pre s : Text)
      → NoBrace pre
      → replace_from (placeholder name) repl before zero (pre ++ s)
        ≡ pre ++ replace_from (placeholder name) repl (before ++ pre) zero s
  unfolding replace_from
  replace_from-prefix before [] s h = rw (append-nil before) refl
  replace_from-prefix before (c ∷ pre) s h =
      let e : (b'{' == c) ≡ false = ground (arith, h.0) in
      rw (replace_from, e, ← append_assoc before (c ∷ []) pre)
        (ap (λ x. c ∷ x) (replace_from-prefix (before ++ c ∷ []) pre s h.1))

  -- At the placeholder.
  replace_from-here :
      (before post : Text)
      → replace_from (placeholder name) repl before zero (placeholder name ++ post)
        ≡ expand (placeholder name) before post repl
          ++ replace_from (placeholder name) repl (before ++ placeholder name) zero post
  unfolding replace_from
  replace_from-here before post =
      let tail = name ++ b'}' ∷ [] in
      let skip : length (placeholder name) - 1 ≡ length tail = omega arith in
      rw
        (
          replace_from,
          starts_with-append tail post,
          drop-length (placeholder name) post,
          skip,
          replace_from-skip (before ++ b'{' ∷ []) tail post,
          append_assoc before (b'{' ∷ []) tail,
        )
        refl

-- A placeholder in a text without other braces is replaced once, by what the replacement expands to.
pub replace_all-placeholder :
    (name repl pre post : Text)
    → NoBrace pre
    → NoBrace post
    → replace_all (placeholder name) repl (pre ++ (placeholder name ++ post))
      ≡ pre ++ (expand (placeholder name) pre post repl ++ post)
unfolding replace_all
replace_all-placeholder name repl pre post h k =
    rw
      (
        replace_all,
        replace_from-prefix name repl [] pre (placeholder name ++ post) h,
        replace_from-here name repl pre post,
        replace_from-NoBrace name repl (pre ++ placeholder name) post k,
      )
      refl
