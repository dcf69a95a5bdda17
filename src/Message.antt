-- ===== src/Message.antt =====
-- What the user is shown: a text of the catalog, kept as the call of `t` that makes it, or a text
-- of the server. And what a `catch` receives (web/src/api.ts).
use sbm.Base.{List, [], String, if◌then◌else◌}
use sbm.Base.Text.{Text, codes, text_eq}

pub data Message : Type 0 where
  tr : String → List (String × Text) → Message
  said : Text → Message

-- `t(key)`
abbrev pub t : String → Message
t key = tr key []

-- An `Error` with its `message`, or any other value with its `String(value)`.
pub data Thrown : Type 0 where
  exception : Text → Thrown
  value : Text → Thrown

unfoldable pub error_message : Thrown → Message
error_message (exception m) = if text_eq m (codes "") then t "api.unreachable" else said m
error_message (value m) = if text_eq m (codes "") then t "api.unreachable" else said m
