-- ===== src/TrafficApps/Laws.antt =====
-- What the view of the apps shows, and its clearing.
use sbm.Base.{
  num, ℕ, suc, ◌+◌, ◌≤◌, ◌≡◌, ◌≢◌, refl, ap, Bool, true, false, some, List, [], ◌∷◌, ◌==◌,
  get_elem?, sum_by, arith, All-get_elem?, Option-cases, Bool-cases, inl, inr,
}
use sbm.Base.Text.{Text}
use sbm.Message.{t, Thrown, error_message}
use sbm.Async.Balance.{run-Balanced}
use sbm.Async.{Sys, Event, call, settle, fulfilled, rejected, step, step-settle, step-gone, run}
use sbm.Latest.{Asks}
use sbm.Latest.Loader.{IsSound}
use sbm.TrafficApps.{
  Browser, View, setup, Query, query_of, AppTrafficResponse, Caller, nobody, clear, Waiting,
  requested, cleared, reloaded, Reply, load, load_done, clear_stats, clear_done, resume, Action,
  mounted, unmounted, interval, refresh_clicked, clear_confirmed, period_clicked, day_picked,
  month_picked, row_clicked, handle, select_period, change_date, toggle_expand, accept, emit,
}
use sbm.TrafficApps.Invariant.{loader, load_done_ne, start, run-IsSound}

-- The request at an index is the latest, and asks for what is selected.
pub record Answers (b : Browser) (s : Sys View Waiting) (i : ℕ) : Type 0 where
  pub caller : Caller
  pub sent : Query
  pub waits : get_elem? s.waiting i ≡ some (requested s.state.request sent caller)
  pub is_selected : sent ≡ query_of b s.state

clear_done-data_shown :
    (b : Browser) (r : Reply) (v : View) → (clear_done b r v).0.data_shown ≡ v.data_shown
unfolding clear_done load
clear_done-data_shown b (fulfilled a, now) v = ground arith
clear_done-data_shown b (rejected e, now) v = refl

resume-Answers :
    (b : Browser) (s : Sys View Waiting) (i : ℕ) (r : Reply) (c : Waiting)
    → IsSound (loader b) s
    → get_elem? s.waiting i ≡ some c
    → (resume b c r s.state).0.data_shown ≢ s.state.data_shown
    → Answers b s i
unfolding resume
resume-Answers b s i r (requested id q caller) h here shown =
    elim (Bool-cases (id == s.state.request)) [
      | inl same ↦
          let e : id ≡ s.state.request = ground arith in
          record {
            caller = caller;
            sent = q;
            waits = rw (← e) here;
            is_selected =
                All-get_elem? (λ x. Asks s.state.request (query_of b s.state) ((loader b).tag x))
                  s.waiting i h.current here e;
          }
      | inr differs ↦
          let e : id ≢ s.state.request = ground arith in
          absurd (shown (ap View.data_shown (load_done_ne b id r s.state e)))
    ]
resume-Answers b s i r cleared h here shown = absurd (shown (clear_done-data_shown b r s.state))
resume-Answers b s i r reloaded h here shown = absurd (shown refl)

settle-Answers :
    (b : Browser) (s : Sys View Waiting) (i : ℕ) (r : Reply)
    → IsSound (loader b) s
    → (step (handle b) (resume b) s (settle i r)).state.data_shown ≢ s.state.data_shown
    → Answers b s i
settle-Answers b s i r h shown = elim (Option-cases (get_elem? s.waiting i)) [
  | inl gone ↦ absurd (shown (rw (step-gone (handle b) (resume b) s i r gone) refl))
  | inr (c, here) ↦
      resume-Answers b s i r c h here (rw (step-settle (handle b) (resume b) s i r here) at shown)
]

-- However loads, clearings, answers and the user's choices interleave, an answer changes the shown apps
-- only if it answers the latest request, and that request asks for the period that is selected when it
-- comes.
pub run-Shows :
    (b : Browser) (local_day : Text) (es : List (Event Action Reply)) (i : ℕ) (r : Reply)
    → (step
        (handle b)
        (resume b)
        (run (handle b) (resume b) (start local_day) es)
        (settle i r)).state.data_shown
      ≢ (run (handle b) (resume b) (start local_day) es).state.data_shown
    → Answers b (run (handle b) (resume b) (start local_day) es) i
run-Shows b d es i r = settle-Answers b _ i r (run-IsSound b d es)

-- A `clearStats` that has not returned.
abbrev pub clears : Waiting → ℕ
clears (requested id q nobody) = 0
clears (requested id q clear) = 1
clears cleared = 1
clears reloaded = 1

abbrev clears_of : Caller → ℕ
clears_of nobody = 0
clears_of clear = 1

load-clears :
    (b : Browser) (background : Bool) (caller : Caller) (v : View)
    → ((load b background caller v).0.clearing ≡ v.clearing)
      × (sum_by clears (load b background caller v).1 ≡ clears_of caller)
unfolding load
load-clears b background nobody v = ground arith
load-clears b background clear v = ground arith

load_done-clearing :
    (b : Browser) (id : ℕ) (r : Reply) (v : View) → (load_done b id r v).clearing ≡ v.clearing
unfolding load_done accept
load_done-clearing b id (fulfilled a, now) v = ground arith
load_done-clearing b id (rejected e, now) v = ground arith

handle-clears :
    (b : Browser) (k : Action) (v : View)
    → sum_by clears (handle b k v).1 + num v.clearing ≡ num (handle b k v).0.clearing
unfolding handle select_period change_date clear_stats toggle_expand
handle-clears b mounted v = ground (arith, load-clears b false nobody v)
handle-clears b unmounted v = omega arith
handle-clears b interval v = ground (arith, load-clears b true nobody v)
handle-clears b refresh_clicked v = ground (arith, load-clears b false nobody v)
handle-clears b clear_confirmed v = ground arith
handle-clears b (period_clicked m) v =
    ground (arith, load-clears b false nobody (record v { period = m }))
handle-clears b (day_picked s) v = ground (
  arith,
  load-clears b false nobody (record v { day = s; request = suc v.request; loading = false }),
)
handle-clears b (month_picked s) v = ground (
  arith,
  load-clears b false nobody (record v { month = s; request = suc v.request; loading = false }),
)
handle-clears b (row_clicked id) v = omega arith

resume-clears :
    (b : Browser) (c : Waiting) (r : Reply) (v : View)
    → clears c ≤ num v.clearing
    → sum_by clears (resume b c r v).1 + num v.clearing ≡ num (resume b c r v).0.clearing + clears c
unfolding resume clear_done
resume-clears b (requested id q nobody) r v h = ground (arith, load_done-clearing b id r v)
resume-clears b (requested id q clear) r v h = ground (arith, load_done-clearing b id r v)
resume-clears b cleared (fulfilled a, now) v h = ground (
  arith,
  load-clears b false clear (emit (t "apps.clearDone") (record v { expanded = λ id. false })),
)
resume-clears b cleared (rejected e, now) v h = ground arith
resume-clears b reloaded r v h = ground arith

abbrev pub OneClear : Sys View Waiting → Type 0
OneClear s = sum_by clears s.waiting ≡ num s.state.clearing

start-OneClear : (local_day : Text) → OneClear (start local_day)
unfolding setup
start-OneClear local_day = refl

-- In every interleaving a clearing is under way exactly when `clearing` is set, and then it is the only
-- one, be it that its request or the load that follows is awaited.
pub run-OneClear :
    (b : Browser) (local_day : Text) (es : List (Event Action Reply))
    → OneClear (run (handle b) (resume b) (start local_day) es)
run-OneClear b d es =
    run-Balanced clears (λ v. num v.clearing) (handle b) (resume b)
      (λ k v. omega (arith, handle-clears b k v)) (resume-clears b) (start d) es (start-OneClear d)

-- A clearing that fails while a load is in flight takes the load's number: the answer to the load is
-- dropped, and the spinner is left as it was, with nothing in flight that would end it.
pub run-failed_clear :
    (b : Browser) (v : View) (q : Query) (a : AppTrafficResponse) (now later : ℕ) (e : Thrown)
    → v.clearing ≡ false
    → run
        (handle b)
        (resume b)
        (record { state = v; waiting = requested v.request q nobody ∷ [] })
        (call clear_confirmed ∷ settle 0 (fulfilled a, now) ∷ settle 0 (rejected e, later) ∷ [])
      ≡ record {
        state = record v {
          request = suc v.request;
          clearing = false;
          toasts = error_message e ∷ v.toasts;
        };
        waiting = [];
      }
unfolding run handle resume clear_stats load_done clear_done
run-failed_clear b v q a now later e h =
    let newer : (v.request == suc v.request) ≡ false = ground arith in rw (h, newer) refl
