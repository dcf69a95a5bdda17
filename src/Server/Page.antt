-- ===== src/Server/Page.antt =====
-- The texts in the template of web/src/views/ServerView.vue, but for those of its two tabs.
use sbm.Base.{true, List, [], ◌∷◌}
use sbm.Message.{t}
use sbm.PollStatus.{stale}
use sbm.Page.{Block}
use sbm.Server.{View}

unfoldable pub page : View → List Block
page v =
    (true, t "traffic.title" ∷ t "traffic.help" ∷ t "traffic.tabHistory" ∷ t "traffic.tabApps" ∷ [])
    ∷ (stale v.status, t "api.stale" ∷ [])
    ∷ []
