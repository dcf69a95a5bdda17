-- ===== src/Catalog/Seek.antt =====
-- A look-up that compares keys as they stand finds what `find` does by their code units.
use Prim.Native.Nat.{Ordering, compare as compare_ℕ}
use Prim.Native.Char.{code}
use Prim.Native.String.compare
use Prim.Native.String.{then as then_by, compare}
use text.Mathlib.Text.{is_eq, ◌==◌ as str_eq}
use sbm.Base.{
  Bool, true, false, ◌&&◌, ◌≡◌, refl, ap, sym, ◌∙◌, String, Option, none, some, List, [], ◌∷◌,
  if◌then◌else◌,
}
use sbm.Base.Text.{Text, codes, text_eq}
use sbm.Catalog.{Row, find}

is_eq-then : (o r : Ordering) → is_eq (then_by o r) ≡ (is_eq o && is_eq r)
is_eq-then Ordering.lt r = refl
is_eq-then Ordering.eq r = refl
is_eq-then Ordering.gt r = refl

str_eq-codes : (s r : String) → str_eq s r ≡ text_eq (codes s) (codes r)
str_eq-codes String.[] String.[] = ap is_eq compare.nil-nil
str_eq-codes String.[] (String.◌∷◌ d r) = ap is_eq (compare.nil-cons d r)
str_eq-codes (String.◌∷◌ c s) String.[] = ap is_eq (compare.cons-nil c s)
str_eq-codes (String.◌∷◌ c s) (String.◌∷◌ d r) =
    ap is_eq (compare.cons-cons c d s r)
    ∙ is_eq-then (compare_ℕ (code c) (code d)) (compare s r)
    ∙ ap (λ b. is_eq (compare_ℕ (code c) (code d)) && b) (str_eq-codes s r)

abbrev pub seek : String → List Row → Option String
seek key [] = none
seek key ((k, v) ∷ rows) = elim (seek key rows) [
  | some later ↦ some later
  | none ↦ if str_eq k key then some v else none
]

abbrev pub codes_of : Option String → Option Text
codes_of none = none
codes_of (some s) = some (codes s)

add_row :
    (b c : Bool) (v : String) (o : Option String)
    → b ≡ c
    → codes_of (elim o [ some later ↦ some later | none ↦ if b then some v else none ])
      ≡ elim (codes_of o) [ some later ↦ some later | none ↦ if c then some (codes v) else none ]
add_row b c v (some later) e = refl
add_row true c v none e = rw (← e) refl
add_row false c v none e = rw (← e) refl

pub find-seek : (key : String) (rows : List Row) → find (codes key) rows ≡ codes_of (seek key rows)
unfolding find
find-seek key [] = refl
find-seek key ((k, v) ∷ rows) = rw (find-seek key rows) (
    sym (
      add_row (str_eq k key) (text_eq (codes k) (codes key)) v (seek key rows)
        (str_eq-codes k key)))
