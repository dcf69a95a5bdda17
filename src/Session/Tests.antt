-- ===== src/Session/Tests.antt =====
-- A session that ends.
use sbm.Base.{get_elem?, refl, ◌≡◌, true, false, none, some, List, [], ◌∷◌}
use sbm.Base.Text.{codes}
use sbm.Async.{Sys, Event, call, settle, step, run}
use sbm.Api.{get, unauthorized}
use sbm.Session.{
  App, protocols, Reply, Waiting, viewed, url_of, resume, Action, logout_clicked, left, requested,
  send, handle,
}
use sbm.Session.Laws.{SignedOut, settle-SignedOut, Left, run-logged_out}

abbrev polling : Sys App Waiting
polling = record {
  state = record {
    ready = true;
    username = codes "admin";
    page = protocols;
    session_expired = false;
    csrf_token = codes "abc";
    sent = [];
  };
  waiting = viewed (codes "/api/dashboard") ∷ [];
}

abbrev denied : Reply
denied = some (record {
  ok = false;
  status = 401;
  error = none;
  error_en = none;
  content = record { username = []; csrf_token = [] };
})

denied_view : unauthorized (url_of (viewed (codes "/api/dashboard"))) denied ≡ true
unfolding unauthorized url_of
denied_view = refl

settle-SignedOut_example :
    SignedOut (step handle resume polling (settle 0 denied)).state
    × ((step handle resume polling (settle 0 denied)).state.ready ≡ true)
    × ((step handle resume polling (settle 0 denied)).state.session_expired ≡ true)
settle-SignedOut_example =
    settle-SignedOut polling 0 denied (viewed (codes "/api/dashboard")) refl denied_view

abbrev late : List (Event Action Reply)
late = settle 0 denied ∷ call (requested (codes "/api/settings") get) ∷ settle 0 denied ∷ []

logout_sent : get_elem? (run handle resume polling (call logout_clicked ∷ [])).waiting 1 ≡ some left
unfolding run step handle send
logout_sent = refl

run-logged_out_example : Left (
    run handle resume
      (run handle resume polling (call logout_clicked ∷ []))
      (settle 1 denied ∷ late))
run-logged_out_example =
    run-logged_out polling [] 1 denied late (tt, tt) tt logout_sent (tt, (tt, (tt, tt)))
