-- ===== src/TrafficApps/Invariant.antt =====
-- The view of the apps as a component whose loads carry numbers.
use sbm.Base.{
  ℕ, suc, ◌≤◌, ◌≡◌, ◌≢◌, refl, inl, inr, Bool, true, false, ◌&&◌, not, Option, some, none, List, [],
  ◌∷◌, ◌==◌, if◌then◌else◌, arith, Bool-cases, All,
}
use sbm.Base.Text.{Text}
use sbm.Async.{Sys, Event, fulfilled, rejected, run}
use sbm.Latest.Loader.{
  Loader, IsSound, Loads, dropped, asked, Leaves, Issues, Settles, Outcome, other, latest, stale,
}
use sbm.Latest.Loader
use sbm.TrafficApps.{
  Browser, View, setup, Query, query_of, selected, valid_selection, Caller, nobody, clear, Waiting,
  requested, cleared, reloaded, resume_caller, Reply, load, load_done, clear_stats, clear_done,
  resume, same_mode, select_period, change_date, toggle_expand, Action, mounted, unmounted,
  interval, refresh_clicked, clear_confirmed, period_clicked, day_picked, month_picked, row_clicked,
  handle,
}

-- The request that a continuation waits for, if it is one of `load`.
abbrev pub tag_of : Waiting → Option (ℕ × Query)
tag_of (requested id q caller) = some (id, q)
tag_of cleared = none
tag_of reloaded = none

-- Nothing is said of the spinner here: `clear_stats` takes a number without a request.
abbrev pub loader : Browser → Loader View Waiting Query
loader b = record { number = View.request; busy = λ v. false; query = query_of b; tag = tag_of }

caller_untagged : (caller : Caller) → All (λ c. tag_of c ≡ none) (resume_caller caller)
caller_untagged nobody = tt
caller_untagged clear = (refl, tt)

load-Loads :
    (b : Browser) (background : Bool) (caller : Caller) (v : View)
    → Loads (loader b) v.request (load b background caller v).0 (load b background caller v).1
unfolding load
load-Loads b background caller v =
    elim (Bool-cases
      (v.initialized && not (valid_selection (record v { request = suc v.request })))) [
        | inl bad ↦ rw bad (dropped (omega arith) (caller_untagged caller) refl)
        | inr good ↦ rw good (asked _ (ground arith) refl (ground arith))
      ]

-- The interval is started after the first load, and takes no part in the query.
mounted-Loads :
    (b : Browser) (v : View)
    → Loads
        (loader b)
        v.request
        (record (load b false nobody v).0 { ticking = true })
        (load b false nobody v).1
unfolding load query_of selected
mounted-Loads b v =
    elim (Bool-cases
      (v.initialized && not (valid_selection (record v { request = suc v.request })))) [
        | inl bad ↦ rw bad (dropped (omega arith) tt refl)
        | inr good ↦ rw good (asked _ (ground arith) refl (ground arith))
      ]

Loads-le :
    (b : Browser) {r r' : ℕ} {w : View} {more : List Waiting}
    → r ≤ r'
    → Loads (loader b) r' w more
    → Loads (loader b) r w more
Loads-le b h (dropped p e f) = dropped (omega arith) e f
Loads-le b h (asked c p e t) = asked c (omega arith) e t

nothing : (b : Browser) (v : View) → Leaves (loader b) v v []
nothing b v = record { same_number = refl; same_query = refl; same_busy = λ e. e; untagged = tt }

-- Neither of these changes the number or the selection.
toggle_expand-Leaves :
    (b : Browser) (id : Text) (v : View) → Leaves (loader b) v (toggle_expand id v) []
unfolding toggle_expand query_of selected
toggle_expand-Leaves b id v = record {
  same_number = refl;
  same_query = refl;
  same_busy = λ e. e;
  untagged = tt;
}

clear_stats-Issues :
    (b : Browser) (v : View) → Issues (loader b) v (clear_stats v).0 (clear_stats v).1
unfolding clear_stats
clear_stats-Issues b v =
    let w = record v { clearing = true; request = suc v.request } in
    elim v.clearing
      as (λ on.
        Issues (loader b) v (if◌then◌else◌ {A = View × List Waiting} on (v, []) (w, cleared ∷ [])).0
          (if◌then◌else◌ {A = View × List Waiting} on (v, []) (w, cleared ∷ [])).1) [
            | true ↦ inl (nothing b v)
            | false ↦ inr (dropped (omega arith) (refl, tt) refl)
          ]

clear_done-Issues :
    (b : Browser) (r : Reply) (v : View)
    → Issues (loader b) v (clear_done b r v).0 (clear_done b r v).1
unfolding clear_done query_of selected
clear_done-Issues b (fulfilled a, now) v = inr (load-Loads b false clear _)
clear_done-Issues b (rejected e, now) v =
    inl (record { same_number = refl; same_query = refl; same_busy = λ e. e; untagged = tt })

pub handle-Issues :
    (b : Browser) (k : Action) (v : View) → Issues (loader b) v (handle b k v).0 (handle b k v).1
unfolding handle select_period change_date
handle-Issues b mounted v = inr (mounted-Loads b v)
handle-Issues b unmounted v = inr (dropped (omega arith) tt refl)
handle-Issues b interval v =
    elim v.ticking
      as (λ on.
        Issues (loader b) v (if on then load b true nobody v else (v, [])).0
          (if on then load b true nobody v else (v, [])).1) [
            | true ↦ inr (load-Loads b true nobody v)
            | false ↦ inl (nothing b v)
          ]
handle-Issues b refresh_clicked v = inr (load-Loads b false nobody v)
handle-Issues b clear_confirmed v = clear_stats-Issues b v
handle-Issues b (period_clicked m) v =
    let w = record v { period = m } in
    elim (same_mode v.period m)
      as (λ same.
        Issues (loader b) v (if same then (v, []) else load b false nobody w).0
          (if same then (v, []) else load b false nobody w).1) [
            | true ↦ inl (nothing b v)
            | false ↦ inr (load-Loads b false nobody w)
          ]
handle-Issues b (day_picked s) v = inr (
    Loads-le b (omega arith)
      (load-Loads b false nobody (record v { day = s; request = suc v.request; loading = false })))
handle-Issues b (month_picked s) v = inr (
    Loads-le b (omega arith) (
      load-Loads b false nobody (record v { month = s; request = suc v.request; loading = false })))
handle-Issues b (row_clicked id) v = inl (toggle_expand-Leaves b id v)

-- The answer to the latest request keeps the number.
load_done-latest :
    (b : Browser) (id : ℕ) (r : Reply) (v : View) → (load_done b id r v).request ≡ v.request
unfolding load_done
load_done-latest b id (fulfilled a, now) v = ground arith
load_done-latest b id (rejected x, now) v = ground arith

-- Any other answer changes nothing.
pub load_done_ne :
    (b : Browser) (id : ℕ) (r : Reply) (v : View) → id ≢ v.request → load_done b id r v ≡ v
unfolding load_done
load_done_ne b id (fulfilled a, now) v e = ground arith
load_done_ne b id (rejected x, now) v e = ground arith

pub resume-Outcome :
    (b : Browser) (c : Waiting) (r : Reply) (v : View)
    → Outcome (loader b) c v (resume b c r v).0 (resume b c r v).1
unfolding resume query_of selected
resume-Outcome b (requested id q caller) r v = elim (Bool-cases (id == v.request)) [
  | inl same ↦ latest q (ground arith) (record {
    same_number = load_done-latest b id r v;
    ends = refl;
    untagged = caller_untagged caller;
  })
  | inr differs ↦
      let e : id ≢ v.request = ground arith in
      stale id q refl e (
        rw (load_done_ne b id r v e) (record {
          same_number = refl;
          same_query = refl;
          same_busy = λ e. e;
          untagged = caller_untagged caller;
        }))
]
resume-Outcome b cleared r v = other refl (clear_done-Issues b r v)
resume-Outcome b reloaded r v =
    other refl
      (inl (record { same_number = refl; same_query = refl; same_busy = λ e. e; untagged = tt }))

abbrev pub start : Text → Sys View Waiting
start local_day = record { state = setup local_day; waiting = [] }

start-IsSound : (b : Browser) (local_day : Text) → IsSound (loader b) (start local_day)
unfolding setup
start-IsSound b d = record { old = tt; single = omega arith; awaited = λ e. cc; current = tt }

pub run-IsSound :
    (b : Browser) (local_day : Text) (es : List (Event Action Reply))
    → IsSound (loader b) (run (handle b) (resume b) (start local_day) es)
run-IsSound b d es =
    Loader.run-IsSound (loader b) (handle b) (resume b) (handle-Issues b) (resume-Outcome b)
      (start d) es (start-IsSound b d)
