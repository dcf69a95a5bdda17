-- ===== src/Settings/Tests.antt =====
-- Runs of the settings.
use sbm.Base.{◌≡◌, refl, List, [], ◌∷◌, All}
use sbm.Base.Text.{Text, codes}
use sbm.Message.{t}
use sbm.Async.{Event, call, run}
use sbm.Types.{gb, single}
use sbm.Settings.{
  setup, Password, Reply, provider_stop, byte_length, load, load_server, save_traffic,
  save_outbound, token, change_password, resume, post_password, Action, password_typed,
  password_submitted, handle,
}
use sbm.Settings.Laws.{IsLong, start, run-IsLong}

view : Unit {0}
unfolding run handle resume setup load load_server save_traffic save_outbound token change_password
    byte_length provider_stop
view = tt

-- One, two, three and four bytes, and a single surrogate.
byte_length-text : byte_length (97 ∷ 233 ∷ 20013 ∷ 55357 ∷ 56832 ∷ 55357 ∷ []) ≡ 13
unfolding view
byte_length-text = refl

-- 2000 with a tenth held back.
provider_stop-tenth :
    provider_stop (record {
      amount = record { digits = 2000; behind = 0 };
      unit = gb;
      billing_mode = single;
      headroom_percent = 10;
    })
    ≡ record { digits = 180000; behind = 2 }
unfolding view
provider_stop-tenth = refl

abbrev with_new : Text → Password
with_new s = record { current_password = codes "old"; new_password = s; confirm = s }

-- Too short, then long enough.
abbrev tries : List (Event Action Reply)
tries =
    call (password_typed (with_new (codes "short")))
    ∷ call password_submitted
    ∷ call (password_typed (with_new (codes "long enough!")))
    ∷ call password_submitted
    ∷ []

toasts-tries : (run handle resume start tries).state.toasts ≡ t "settings.passwordLength" ∷ []
unfolding view
toasts-tries = refl

run-IsLong_example : All IsLong (post_password (codes "old") (codes "long enough!") ∷ [])
unfolding view
run-IsLong_example = run-IsLong tries
