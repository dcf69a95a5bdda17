-- ===== src/TrafficHistory/Invariant.antt =====
-- The history view as a component whose loads carry numbers.
use sbm.Base.{
  ℕ, suc, ◌≤◌, ◌≡◌, ◌≢◌, refl, inl, inr, Bool, true, false, ◌&&◌, not, some, List, [], ◌==◌,
  if◌then◌else◌, arith, Bool-cases,
}
use sbm.Base.Text.{Text}
use sbm.Async.{Sys, Event, fulfilled, rejected, run}
use sbm.Latest.Loader.{
  Loader, IsSound, Loads, dropped, asked, Leaves, Issues, Settles, Outcome, other, latest, stale,
}
use sbm.Latest.Loader
use sbm.TrafficHistory.{
  Browser, View, setup, Query, query_of, range_of, valid_selection, Waiting, Reply, load, load_done,
  resume, same_mode, select, change_month, Action, mounted, unmounted, interval, refresh_clicked,
  mode_clicked, month_picked, year_picked, handle,
}

-- A mounted view that shows its spinner waits for the latest request.
abbrev pub loader : Browser → Loader View Waiting Query
loader b = record {
  number = View.request;
  busy = λ v. v.loading && v.ticking;
  query = query_of b;
  tag = λ c. some (c.id, c.sent);
}

load-Loads :
    (b : Browser) (background : Bool) (v : View)
    → Loads (loader b) v.request (load b background v).0 (load b background v).1
unfolding load
load-Loads b background v =
    elim (Bool-cases
      (v.initialized && not (valid_selection (record v { request = suc v.request })))) [
        | inl bad ↦ rw bad (dropped (omega arith) tt refl)
        | inr good ↦ rw good (asked _ (ground arith) refl (ground arith))
      ]

-- The interval is started after the first load, and takes no part in the query.
mounted-Loads :
    (b : Browser) (v : View)
    → Loads (loader b) v.request (record (load b false v).0 { ticking = true }) (load b false v).1
unfolding load query_of range_of
mounted-Loads b v =
    elim (Bool-cases
      (v.initialized && not (valid_selection (record v { request = suc v.request })))) [
        | inl bad ↦ rw bad (dropped (omega arith) tt refl)
        | inr good ↦ rw good (asked _ (ground arith) refl (ground arith))
      ]

Loads-le :
    (b : Browser) {r r' : ℕ} {w : View} {more : List Waiting}
    → r ≤ r'
    → Loads (loader b) r' w more
    → Loads (loader b) r w more
Loads-le b h (dropped p e f) = dropped (omega arith) e f
Loads-le b h (asked c p e t) = asked c (omega arith) e t

nothing : (b : Browser) (v : View) → Leaves (loader b) v v []
nothing b v = record { same_number = refl; same_query = refl; same_busy = λ e. e; untagged = tt }

off-busy : (b : Bool) → (b && false) ≡ false
off-busy true = refl
off-busy false = refl

pub handle-Issues :
    (b : Browser) (k : Action) (v : View) → Issues (loader b) v (handle b k v).0 (handle b k v).1
unfolding handle select change_month
handle-Issues b mounted v = inr (mounted-Loads b v)
handle-Issues b unmounted v = inr (dropped (omega arith) tt (off-busy v.loading))
handle-Issues b interval v =
    elim v.ticking
      as (λ on.
        Issues (loader b) v (if on then load b true v else (v, [])).0
          (if on then load b true v else (v, [])).1) [
            | true ↦ inr (load-Loads b true v)
            | false ↦ inl (nothing b v)
          ]
handle-Issues b refresh_clicked v = inr (load-Loads b false v)
handle-Issues b (mode_clicked m) v =
    let w = record v { mode = m } in
    elim (same_mode v.mode m)
      as (λ same.
        Issues (loader b) v (if same then (v, []) else load b false w).0
          (if same then (v, []) else load b false w).1) [
            | true ↦ inl (nothing b v)
            | false ↦ inr (load-Loads b false w)
          ]
handle-Issues b (month_picked m) v = inr (
    Loads-le b (omega arith)
      (load-Loads b false (record v { month = m; request = suc v.request; loading = false })))
handle-Issues b (year_picked y) v = inr (
    Loads-le b (omega arith)
      (load-Loads b false (record v { year = y; request = suc v.request; loading = false })))

-- The answer to the latest request ends the loading, and keeps the number.
load_done-latest :
    (b : Browser) (c : Waiting) (r : Reply) (v : View)
    → c.id ≡ v.request
    → ((load_done b c r v).request ≡ v.request) × ((load_done b c r v).loading ≡ false)
unfolding load_done
load_done-latest b c (fulfilled a, now) v e = ground arith
load_done-latest b c (rejected x, now) v e = ground arith

-- Any other answer changes nothing.
pub load_done_ne :
    (b : Browser) (c : Waiting) (r : Reply) (v : View) → c.id ≢ v.request → load_done b c r v ≡ v
unfolding load_done
load_done_ne b c (fulfilled a, now) v e = ground arith
load_done_ne b c (rejected x, now) v e = ground arith

pub resume-Outcome :
    (b : Browser) (c : Waiting) (r : Reply) (v : View)
    → Outcome (loader b) c v (resume b c r v).0 (resume b c r v).1
unfolding resume
resume-Outcome b c r v = elim (Bool-cases (c.id == v.request)) [
  | inl same ↦
      let e : c.id ≡ v.request = ground arith in
      let (keeps, ends) = load_done-latest b c r v e in
      latest c.sent (ground arith)
        (record { same_number = keeps; ends = rw ends refl; untagged = tt })
  | inr differs ↦
      let e : c.id ≢ v.request = ground arith in
      stale c.id c.sent refl e (rw (load_done_ne b c r v e) (nothing b v))
]

abbrev pub start : Text → Sys View Waiting
start month = record { state = setup month; waiting = [] }

start-IsSound : (b : Browser) (month : Text) → IsSound (loader b) (start month)
unfolding setup
start-IsSound b month = record { old = tt; single = omega arith; awaited = λ e. cc; current = tt }

pub run-IsSound :
    (b : Browser) (month : Text) (es : List (Event Action Reply))
    → IsSound (loader b) (run (handle b) (resume b) (start month) es)
run-IsSound b month es =
    Loader.run-IsSound (loader b) (handle b) (resume b) (handle-Issues b) (resume-Outcome b)
      (start month) es (start-IsSound b month)
