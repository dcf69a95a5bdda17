-- ===== src/Dashboard/Invariant.antt =====
-- What is under way in the overview: at most one change, at most one refresh, and the loads.
use sbm.Base.{num, ℕ, ◌+◌, ◌-◌, ◌≤◌, ◌≡◌, refl, none, some, List, [], sum_by, arith}
use sbm.Base.Text.{Text}
use sbm.Async.{Sys, Event, fulfilled, rejected, run}
use sbm.Async.Balance.{run-Balanced}
use sbm.Types.Gateway.{Dashboard}
use sbm.Dashboard.View.{
  View, setup, Caller, ignoring, refresh, mutate, Waiting, listed, rendered, returned,
  server_listed, refreshed, posted, drawn, Reply, load, accept, fail, load_done, render_done,
  load_server, load_server_done, returned_to, refresh_traffic, start_mutation, post_done,
  select_sub_format, draw_done, poll, calibrated, save_qr, Action, mounted, interval, unmounted,
  refresh_clicked, restart_confirmed, reset_confirmed, save_clicked, calibrate_clicked,
  calibrate_closed, calibrate_done, format_clicked, handle, resume,
}

abbrev change_of : Caller → ℕ
change_of mutate = 1
change_of _ = 0

abbrev refresh_of : Caller → ℕ
refresh_of refresh = 1
refresh_of _ = 0

-- A `mutate` that has not returned, a `refreshTraffic` that has not, and a `load` in flight.
abbrev pub changes : Waiting → ℕ
changes (listed n c) = change_of c
changes (rendered n q d url c) = change_of c
changes (returned c o) = change_of c
changes (server_listed c) = 0
changes refreshed = 0
changes (posted url m) = 1
changes (drawn n url name) = 0

abbrev pub refreshes : Waiting → ℕ
refreshes (listed n c) = refresh_of c
refreshes (rendered n q d url c) = refresh_of c
refreshes (returned c o) = refresh_of c
refreshes (server_listed c) = refresh_of c
refreshes refreshed = 1
refreshes (posted url m) = 0
refreshes (drawn n url name) = 0

abbrev pub loads : Waiting → ℕ
loads (listed n c) = 1
loads (rendered n q d url c) = 1
loads (returned c o) = 0
loads (server_listed c) = 0
loads refreshed = 0
loads (posted url m) = 0
loads (drawn n url name) = 0

-- The three counts, in what code that ends in `w` and leaves `more` to wait adds.
abbrev Added : ℕ → ℕ → ℕ → View → View × List Waiting → Type 0
Added c r l v (w, more) =
    (sum_by changes more + num v.mutating ≡ num w.mutating + c)
    × (sum_by refreshes more + num v.refreshing_traffic ≡ num w.refreshing_traffic + r)
    × (sum_by loads more + v.pending ≡ w.pending + l)

handle-Added : (k : Action) (v : View) → Added 0 0 0 v (handle k v)
unfolding handle poll load load_server refresh_traffic start_mutation save_qr calibrated
    select_sub_format
handle-Added (mounted now) v = ground arith
handle-Added (interval now) v = ground arith
handle-Added unmounted v = ground arith
handle-Added refresh_clicked v = ground arith
handle-Added restart_confirmed v = ground arith
handle-Added reset_confirmed v = ground arith
handle-Added save_clicked v = ground arith
handle-Added calibrate_clicked v = ground arith
handle-Added calibrate_closed v = ground arith
handle-Added (calibrate_done m) v = ground arith
handle-Added (format_clicked f) v = ground arith

accept-counts :
    (n q : ℕ) (card : Text) (next : Dashboard) (now : ℕ) (v : View)
    → ((accept n q card next now v).mutating ≡ v.mutating)
      × ((accept n q card next now v).refreshing_traffic ≡ v.refreshing_traffic)
      × ((accept n q card next now v).pending ≡ v.pending - 1)
unfolding accept
accept-counts n q card next now v = ground arith

fail-counts :
    (n now : ℕ) (v : View)
    → ((fail n now v).mutating ≡ v.mutating)
      × ((fail n now v).refreshing_traffic ≡ v.refreshing_traffic)
      × ((fail n now v).pending ≡ v.pending - 1)
unfolding fail
fail-counts n now v = ground arith

-- The same for a continuation, each count under the premise that it counts the continuation.
abbrev Ended : Waiting → View → View × List Waiting → Type 0
Ended c v (w, more) =
    (changes c ≤ num v.mutating → sum_by changes more + num v.mutating ≡ num w.mutating + changes c)
    × (refreshes c ≤ num v.refreshing_traffic
        → sum_by refreshes more + num v.refreshing_traffic ≡ num w.refreshing_traffic + refreshes c)
    × (loads c ≤ v.pending → sum_by loads more + v.pending ≡ w.pending + loads c)

load_done-Ended :
    (n : ℕ) (c : Caller) (r : Reply) (v : View) → Ended (listed n c) v (load_done n c r v)
unfolding load_done
load_done-Ended n c (fulfilled b, now) v =
    ground (arith, accept-counts n v.qr_revision v.qr b.as_dashboard now v)
load_done-Ended n c (rejected e, now) v = ground (arith, fail-counts n now v)

render_done-Ended :
    (n q : ℕ) (d : Dashboard) (url : Text) (c : Caller) (r : Reply) (v : View)
    → Ended (rendered n q d url c) v (render_done n q d c r v)
unfolding render_done
render_done-Ended n q d url c (fulfilled b, now) v =
    ground (arith, accept-counts n q b.as_card d now v)
render_done-Ended n q d url c (rejected e, now) v = ground (arith, fail-counts n now v)

resume-Ended : (c : Waiting) (r : Reply) (v : View) → Ended c v (resume c r v)
unfolding resume returned_to load_server load_server_done post_done load draw_done
resume-Ended (listed n c) r v = load_done-Ended n c r v
resume-Ended (rendered n q d url c) r v = render_done-Ended n q d url c r v
resume-Ended (returned ignoring o) r v = ground arith
resume-Ended (returned refresh none) r v = ground arith
resume-Ended (returned refresh (some e)) r v = ground arith
resume-Ended (returned mutate none) r v = ground arith
resume-Ended (returned mutate (some e)) r v = ground arith
resume-Ended (server_listed c) (fulfilled b, now) v = ground arith
resume-Ended (server_listed c) (rejected e, now) v = ground arith
resume-Ended refreshed r v = ground arith
resume-Ended (posted url m) (fulfilled b, now) v = ground arith
resume-Ended (posted url m) (rejected e, now) v = ground arith
resume-Ended (drawn n url name) (fulfilled b, now) v = ground arith
resume-Ended (drawn n url name) (rejected e, now) v = ground arith

pub record Counted (s : Sys View Waiting) : Type 0 where
  pub one_change : sum_by changes s.waiting ≡ num s.state.mutating
  pub one_refresh : sum_by refreshes s.waiting ≡ num s.state.refreshing_traffic
  pub in_flight : sum_by loads s.waiting ≡ s.state.pending

abbrev pub start : ℕ → Sys View Waiting
start now = record { state = setup now; waiting = [] }

-- However clicks, polls and answers interleave, a change of the core or the traffic is under way exactly
-- when `mutating` is set, a refresh exactly when `refreshingTraffic` is, neither ever twice at a time,
-- and `pending` is the number of loads in flight, those included that draw their card.
pub run-OneEach :
    (now : ℕ) (es : List (Event Action Reply)) → Counted (run handle resume (start now) es)
unfolding setup
run-OneEach now es = record {
  one_change =
      run-Balanced changes (λ v. num v.mutating) handle resume (λ k v. (handle-Added k v).0)
        (λ c r v. (resume-Ended c r v).0) (start now) es refl;
  one_refresh =
      run-Balanced refreshes (λ v. num v.refreshing_traffic) handle resume
        (λ k v. (handle-Added k v).1) (λ c r v. (resume-Ended c r v).1) (start now) es refl;
  in_flight =
      run-Balanced loads View.pending handle resume (λ k v. (handle-Added k v).2)
        (λ c r v. (resume-Ended c r v).2) (start now) es refl;
}
