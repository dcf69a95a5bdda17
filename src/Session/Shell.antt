-- ===== src/Session/Shell.antt =====
-- The texts in the templates of web/src/App.vue, around its views, and of web/src/views/LoginView.vue.
use sbm.Base.{Bool, true, not, List, [], ◌∷◌}
use sbm.Message.{t}
use sbm.Page.{Block, is_some, alert}
use sbm.Session.Login.{Form, notice}

unfoldable pub login_page : Bool → Form → List Block
login_page expired f =
    (
      true,
      t "language"
          ∷ t "login.title"
          ∷ t "login.help"
          ∷ t "login.username"
          ∷ t "login.password"
          ∷ [],
    )
    ∷ (is_some (notice expired f), alert (notice expired f))
    ∷ (f.loading, t "login.loading" ∷ [])
    ∷ (not f.loading, t "login.submit" ∷ [])
    ∷ []

unfoldable pub shell : List Block
shell =
    (
      true,
      t "language"
          ∷ t "logout"
          ∷ t "overview"
          ∷ t "protocols"
          ∷ t "egress"
          ∷ t "server"
          ∷ t "settings"
          ∷ [],
    )
    ∷ []
