-- ===== src/Session.antt =====
-- The script of web/src/App.vue: who is signed in, and what a 401 does, with the token of
-- web/src/api.ts. `check` and `logout` are cut at their `await`, and so is the request of any view,
-- which `api` sends with the token of that moment. `login` of web/src/views/LoginView.vue is here what
-- it does to the session.
pub mod Shell
pub mod Laws
pub mod Login
mod Tests
use sbm.Base.{ℕ, Bool, true, false, ◌||◌, not, Option, none, some, List, [], ◌∷◌, if◌then◌else◌}
use sbm.Base.Text.{Text, codes, text_eq}
use sbm.Api.{Options, Request, request, get, post, Answer, Response, unauthorized}

pub data Page : Type 0 where
  dashboard protocols egress server settings : Page

-- `sent` has the last request first.
pub record App : Type 0 where
  pub ready : Bool
  pub username : Text
  pub page : Page
  pub session_expired : Bool
  pub csrf_token : Text
  pub sent : List Request

unfoldable pub setup : App
setup = record {
  ready = false;
  username = [];
  page = dashboard;
  session_expired = false;
  csrf_token = [];
  sent = [];
}

abbrev pub signed_in : App → Bool
signed_in a = not (text_eq a.username [])

-- What an answer to `check` or `login` holds.
pub record Me : Type 0 where
  pub username : Text
  pub csrf_token : Text

abbrev pub Reply : Type 0
Reply = Response Me

pub data Waiting : Type 0 where
  checked left : Waiting
  logged_in : Text → Waiting
  viewed : Text → Waiting

abbrev me_url : Text
me_url = codes "/api/me"

abbrev logout_url : Text
logout_url = codes "/api/logout"

abbrev login_url : Text
login_url = codes "/api/login"

-- The url that was asked.
unfoldable pub url_of : Waiting → Text
url_of checked = me_url
url_of left = logout_url
url_of (logged_in body) = login_url
url_of (viewed url) = url

unfoldable pub send : Text → Options → App → App
send url o a = record a { sent = request a.csrf_token url o ∷ a.sent }

-- The handler of `setUnauthorizedHandler`.
unfoldable pub end_session : App → App
end_session a = record a {
  session_expired = a.session_expired || signed_in a;
  csrf_token = [];
  username = [];
  page = dashboard;
}

-- `api` calls the handler before it throws.
unfoldable pub heard : Text → Reply → App → App
unfolding end_session
heard url r a = if unauthorized url r then end_session a else a

unfoldable pub check_done : Reply → App → App
check_done none a = record a { username = []; ready = true }
check_done (some r) a =
    if r.ok
    then record a { username = r.content.username; csrf_token = r.content.csrf_token; ready = true }
    else record a { username = []; ready = true }

-- Whatever the server says, the page is left.
unfoldable pub logout_done : App → App
logout_done a = record a { session_expired = false; username = []; page = dashboard }

-- `setCSRF`, and `signedIn` by the event that `login` emits.
unfoldable pub login_done : Reply → App → App
login_done none a = a
login_done (some r) a =
    if r.ok
    then record a {
      csrf_token = r.content.csrf_token;
      session_expired = false;
      username = r.content.username;
    }
    else a

unfoldable pub finish : Waiting → Reply → App → App
unfolding check_done logout_done login_done
finish checked r a = check_done r a
finish left r a = logout_done a
finish (logged_in body) r a = login_done r a
finish (viewed url) r a = a

unfoldable pub resume : Waiting → Reply → App → App × List Waiting
resume w r a = (finish w r (heard (url_of w) r a), [])

pub data Action : Type 0 where
  mounted logout_clicked : Action
  navigated : Page → Action
  login_submitted : Text → Action
  requested : Text → Options → Action

unfoldable pub handle : Action → App → App × List Waiting
handle mounted a = (send me_url get a, checked ∷ [])
handle logout_clicked a = (send logout_url (post (codes "{}")) a, left ∷ [])
handle (navigated p) a = (record a { page = p }, [])
handle (login_submitted body) a = (send login_url (post body) a, logged_in body ∷ [])
handle (requested url o) a = (send url o a, viewed url ∷ [])
