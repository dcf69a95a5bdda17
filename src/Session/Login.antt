-- ===== src/Session/Login.antt =====
-- The form of web/src/views/LoginView.vue.
use sbm.Base.{Bool, true, false, Option, none, some, List, [], ◌∷◌, ◌≡◌, refl, if◌then◌else◌}
use sbm.Base.Text.{Text, codes}
use sbm.Message.{Message, t, Thrown, error_message}
use sbm.Async.{Settled, fulfilled, rejected}
use sbm.Session.{Me}

-- `emitted` has the names of the users that were signed in, the last first.
pub record Form : Type 0 where
  pub username : Text
  pub password : Text
  pub error : Option Message
  pub loading : Bool
  pub emitted : List Text

unfoldable pub setup : Form
setup = record {
  username = codes "admin";
  password = [];
  error = none;
  loading = false;
  emitted = [];
}

unfoldable pub notice : Bool → Form → Option Message
notice expired f = elim f.error [
  | some m ↦ some m
  | none ↦ if expired then some (t "login.expired") else none
]

-- What is sent: the name and the password.
pub data Waiting : Type 0 where
  logging_in : Text → Text → Waiting

unfoldable pub login : Form → Form × List Waiting
login f = (record f { loading = true; error = none }, logging_in f.username f.password ∷ [])

-- The rest of `login`, but for the token, which is the session's.
unfoldable pub login_done : Settled Me Thrown → Form → Form
login_done (fulfilled me) f = record f { loading = false; emitted = me.username ∷ f.emitted }
login_done (rejected e) f = record f { loading = false; error = some (error_message e) }

-- A login that fails shows its error in place of the note on the session, which a new try brings back.
notice-login :
    (expired : Bool) (e : Thrown) (f : Form)
    → (notice expired (login_done (rejected e) (login f).0) ≡ some (error_message e))
      × (notice expired (login (login_done (rejected e) (login f).0)).0
          ≡ (if expired then some (t "login.expired") else none))
unfolding notice login login_done
notice-login expired e f = (refl, refl)
