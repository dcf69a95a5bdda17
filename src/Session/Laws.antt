-- ===== src/Session/Laws.antt =====
-- How a session ends.
use sbm.Base.{
  ℕ, ◌≡◌, refl, ◌||◌, Bool, true, false, none, some, List, [], ◌∷◌, get_elem?, erase_idx, All,
  All-append, All-erase_idx, All-get_elem?, arith, Option-cases, Bool-cases, inl, inr,
}
use sbm.Base.Text.{Text, codes, text_eq}
use sbm.Async.{Sys, Event, call, settle, step, step-settle, step-gone, run}
use sbm.Api.{unauthorized}
use sbm.Session.{
  dashboard, App, signed_in, Reply, Waiting, checked, left, logged_in, viewed, url_of, send, heard,
  check_done, logout_done, login_done, finish, resume, Action, mounted, logout_clicked, navigated,
  login_submitted, requested, handle,
}

-- Nobody is signed in, no token is kept, and the next session begins on the dashboard.
pub record SignedOut (a : App) : Type 0 where
  pub no_user : a.username ≡ []
  pub no_token : a.csrf_token ≡ []
  pub home : a.page ≡ dashboard

abbrev pub expires : Waiting → App → Bool
expires left a = false
expires w a = a.session_expired || signed_in a

-- Whether something is shown after the answer: from that of the first check on.
abbrev pub appears : Waiting → App → Bool
appears checked a = true
appears w a = a.ready

finish-SignedOut :
    (w : Waiting) (r : Reply) (a : App)
    → unauthorized (url_of w) r ≡ true
    → SignedOut (finish w r (heard (url_of w) r a))
      × ((finish w r (heard (url_of w) r a)).ready ≡ appears w a)
      × ((finish w r (heard (url_of w) r a)).session_expired ≡ expires w a)
unfolding url_of finish heard unauthorized check_done logout_done login_done
finish-SignedOut checked none a h = absurd (cc h)
finish-SignedOut checked (some r) a h = ground (arith, h)
finish-SignedOut left none a h = absurd (cc h)
finish-SignedOut left (some r) a h = ground (arith, h)
finish-SignedOut (logged_in body) none a h = absurd (cc h)
finish-SignedOut (logged_in body) (some r) a h =
    let same : text_eq (url_of (logged_in body)) (codes "/api/login") ≡ true = refl in
    absurd (ground (arith, h, same))
finish-SignedOut (viewed url) none a h = absurd (cc h)
finish-SignedOut (viewed url) (some r) a h = ground (arith, h)

-- Any 401 ends the session, whichever request it answers but a login: nobody is signed in, the token is
-- forgotten and the next session begins on the dashboard. The page is ready, so that the login form is
-- shown, if it was ready before or the request was its first check; and the form says that the session
-- expired exactly if somebody was signed in, or it said so before, and the request was no logout.
pub settle-SignedOut :
    (s : Sys App Waiting) (i : ℕ) (r : Reply) (w : Waiting)
    → get_elem? s.waiting i ≡ some w
    → unauthorized (url_of w) r ≡ true
    → SignedOut (step handle resume s (settle i r)).state
      × ((step handle resume s (settle i r)).state.ready ≡ appears w s.state)
      × ((step handle resume s (settle i r)).state.session_expired ≡ expires w s.state)
unfolding resume
settle-SignedOut s i r w here h =
    rw (step-settle handle resume s i r here) (finish-SignedOut w r s.state h)

-- Nobody signs in: no check of the session and no login is under way.
abbrev pub Idle : Waiting → Type 0
Idle checked = ⊥
Idle left = Unit
Idle (logged_in body) = ⊥
Idle (viewed url) = Unit

abbrev pub NoSignIn : Event Action Reply → Type 0
NoSignIn (call mounted) = ⊥
NoSignIn (call (login_submitted body)) = ⊥
NoSignIn e = Unit

pub record Left (s : Sys App Waiting) : Type 0 where
  pub no_user : s.state.username ≡ []
  pub no_notice : s.state.session_expired ≡ false
  pub idle : All Idle s.waiting

heard-Left :
    (url : Text) (r : Reply) (a : App)
    → a.username ≡ []
    → a.session_expired ≡ false
    → ((heard url r a).username ≡ []) × ((heard url r a).session_expired ≡ false)
unfolding heard
heard-Left url r a u e = elim (Bool-cases (unauthorized url r)) [
  | inl ended ↦ rw ended (refl, rw (e, u) refl)
  | inr other ↦ rw other (u, e)
]

finish-Left :
    (w : Waiting) (r : Reply) (a : App)
    → Idle w
    → a.username ≡ []
    → a.session_expired ≡ false
    → ((finish w r a).username ≡ []) × ((finish w r a).session_expired ≡ false)
unfolding finish logout_done
finish-Left checked r a n u e = absurd n
finish-Left left r a n u e = (refl, refl)
finish-Left (logged_in body) r a n u e = absurd n
finish-Left (viewed url) r a n u e = (u, e)

step-Left :
    (s : Sys App Waiting) (e : Event Action Reply)
    → NoSignIn e
    → Left s
    → Left (step handle resume s e)
unfolding step handle resume send
step-Left s (call mounted) n h = absurd n
step-Left s (call (login_submitted body)) n h = absurd n
step-Left s (call logout_clicked) n h = record {
  no_user = h.no_user;
  no_notice = h.no_notice;
  idle = All-append Idle s.waiting (left ∷ []) h.idle (tt, tt);
}
step-Left s (call (navigated p)) n h = record {
  no_user = h.no_user;
  no_notice = h.no_notice;
  idle = All-append Idle s.waiting [] h.idle tt;
}
step-Left s (call (requested url o)) n h = record {
  no_user = h.no_user;
  no_notice = h.no_notice;
  idle = All-append Idle s.waiting (viewed url ∷ []) h.idle (tt, tt);
}
step-Left s (settle i r) n h = elim (Option-cases (get_elem? s.waiting i)) [
  | inl gone ↦ rw (step-gone handle resume s i r gone) h
  | inr (w, here) ↦
      let (u, e) = heard-Left (url_of w) r s.state h.no_user h.no_notice in
      let idle = All-get_elem? Idle s.waiting i h.idle here in
      let (u', e') = finish-Left w r (heard (url_of w) r s.state) idle u e in
      rw (step-settle handle resume s i r here) (record {
        no_user = u';
        no_notice = e';
        idle =
            All-append Idle (erase_idx s.waiting i) [] (All-erase_idx Idle s.waiting i h.idle) tt;
      })
]

run-Left :
    (s : Sys App Waiting) (es : List (Event Action Reply))
    → Left s
    → All NoSignIn es
    → Left (run handle resume s es)
unfolding run
run-Left s [] h n = h
run-Left s (e ∷ es) h n = run-Left (step handle resume s e) es (step-Left s e n.0 h) n.1

step-Idle :
    (s : Sys App Waiting) (e : Event Action Reply)
    → NoSignIn e
    → All Idle s.waiting
    → All Idle (step handle resume s e).waiting
unfolding step handle resume
step-Idle s (call mounted) n h = absurd n
step-Idle s (call (login_submitted body)) n h = absurd n
step-Idle s (call logout_clicked) n h = All-append Idle s.waiting (left ∷ []) h (tt, tt)
step-Idle s (call (navigated p)) n h = All-append Idle s.waiting [] h tt
step-Idle s (call (requested url o)) n h = All-append Idle s.waiting (viewed url ∷ []) h (tt, tt)
step-Idle s (settle i r) n h = elim (Option-cases (get_elem? s.waiting i)) [
  | inl gone ↦ rw (step-gone handle resume s i r gone) h
  | inr (w, here) ↦
      rw (step-settle handle resume s i r here)
        (All-append Idle (erase_idx s.waiting i) [] (All-erase_idx Idle s.waiting i h) tt)
]

run-Idle :
    (s : Sys App Waiting) (es : List (Event Action Reply))
    → All NoSignIn es
    → All Idle s.waiting
    → All Idle (run handle resume s es).waiting
unfolding run
run-Idle s [] n h = h
run-Idle s (e ∷ es) n h = run-Idle (step handle resume s e) es n.1 (step-Idle s e n.0 h)

-- The answer to a logout leaves nobody signed in, whatever it is.
settle-Left :
    (s : Sys App Waiting) (i : ℕ) (r : Reply)
    → All Idle s.waiting
    → get_elem? s.waiting i ≡ some left
    → Left (step handle resume s (settle i r))
unfolding resume finish logout_done
settle-Left s i r h here = rw (step-settle handle resume s i r here) (record {
  no_user = refl;
  no_notice = refl;
  idle = All-append Idle (erase_idx s.waiting i) [] (All-erase_idx Idle s.waiting i h) tt;
})

-- A logout logs out, and no late answer brings anything back. If no check and no login is under way when it is
-- clicked, and none is sent before its answer or after it, then from the answer on, whatever it is, whatever the
-- views ask for and whatever else is answered, 401 included, nobody is signed in and the login form does not say
-- that the session expired.
pub run-logged_out :
    (s : Sys App Waiting) (before : List (Event Action Reply)) (i : ℕ) (r : Reply)
    (after : List (Event Action Reply))
    → All Idle s.waiting
    → All NoSignIn before
    → get_elem? (run handle resume s (call logout_clicked ∷ before)).waiting i ≡ some left
    → All NoSignIn after
    → Left (
        run handle resume (run handle resume s (call logout_clicked ∷ before)) (settle i r ∷ after))
unfolding run
run-logged_out s before i r after h b here a =
    let t = run handle resume s (call logout_clicked ∷ before) in
    let idle = run-Idle s (call logout_clicked ∷ before) (tt, b) h in
    run-Left (step handle resume t (settle i r)) after (settle-Left t i r idle here) a
