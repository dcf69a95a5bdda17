-- ===== src/Select.antt =====
-- The script of web/src/components/SelectControl.vue. The select of the library takes the empty text for
-- no selection, so an option with the empty value goes by a token.
pub mod Laws
mod Tests
use sbm.Base.{Option, none, some, List, [], ◌∷◌, Bool, true, false, if◌then◌else◌}
use sbm.Base.Text.{Text, codes, text_eq}

abbrev pub empty_token : Text
empty_token = codes "__sbm_empty__"

pub record Choice : Type 0 where
  pub value : Text
  pub label : Text

-- An option as it is given to the select.
pub record Item : Type 0 where
  pub raw : Text
  pub value : Text
  pub label : Text

unfoldable pub encode : Option Text → Text
encode none = empty_token
encode (some []) = empty_token
encode (some (c ∷ s)) = c ∷ s

-- `String(value ?? '')` is the value itself, or the empty text for none.
unfoldable pub decode : Option Text → Text
decode none = []
decode (some s) = if text_eq s empty_token then [] else s

unfoldable pub normalized_options : List Choice → List Item
unfolding encode
normalized_options [] = []
normalized_options (o ∷ os) =
    record { raw = o.value; value = encode (some o.value); label = o.label } ∷ normalized_options os

-- The missing model is the empty text.
abbrev model_of : Option Text → Text
model_of none = []
model_of (some s) = s

find_label : Text → List Choice → Text
find_label s [] = []
find_label s (o ∷ os) = let rest = find_label s os in if text_eq o.value s then o.label else rest

unfoldable pub selected_label : Option Text → List Choice → Text
unfolding find_label
selected_label model options = find_label (model_of model) options

-- The value that `update` emits when the select says that one was chosen.
unfoldable pub update : Option Text → Text
unfolding decode
update value = decode value
