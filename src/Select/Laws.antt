-- ===== src/Select/Laws.antt =====
-- What choosing an option emits.
use sbm.Base.{
  ◌≡◌, ◌≢◌, ◌≤◌, refl, ap, some, List, [], ◌∷◌, map, length, All, arith, Bool-cases, inl, inr,
}
use sbm.Base.Text.{Text, text_eq, text_eq_sound}
use sbm.Select.{empty_token, Choice, encode, normalized_options, update}

update-encode : (s : Text) → s ≢ empty_token → update (some (encode (some s))) ≡ s
unfolding update encode
update-encode [] h = refl
update-encode (c ∷ s) h = elim (Bool-cases (text_eq (c ∷ s) empty_token)) [
  | inl same ↦ absurd (h (text_eq_sound (c ∷ s) empty_token same))
  | inr other ↦ rw other refl
]

encode-length : (s : Text) → 1 ≤ length (encode (some s))
unfolding encode
encode-length [] = omega arith
encode-length (c ∷ s) = omega arith

-- Choosing an option emits the option's own value, the empty one included, and no item has the empty
-- value that the select refuses, as long as no option has the token itself as its value.
pub update-normalized_options :
    (options : List Choice)
    → All (λ o. o.value ≢ empty_token) options
    → (map (λ item. update (some item.value)) (normalized_options options)
        ≡ map (λ o. o.value) options)
      × All (λ item. 1 ≤ length item.value) (normalized_options options)
unfolding normalized_options
update-normalized_options [] h = (refl, tt)
update-normalized_options (o ∷ os) h =
    let (same, filled) = update-normalized_options os h.1 in
    (rw (update-encode o.value h.0) (ap (λ x. o.value ∷ x) same), (encode-length o.value, filled))
