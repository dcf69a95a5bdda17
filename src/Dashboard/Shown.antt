-- ===== src/Dashboard/Shown.antt =====
-- Which answers the overview takes.
use sbm.Base.{
  ℕ, suc, ◌-◌, ◌≤◌, ◌≡◌, ◌≢◌, Bool, true, false, not, none, some, List, get_elem?, arith,
}
use sbm.Base.Text.{Text}
use sbm.Async.{Event, call, step, fulfilled, rejected, run}
use sbm.Latest.Revision.{Counter, run-outdated}
use sbm.Latest.Revision
use sbm.Types.Gateway.{Dashboard}
use sbm.Dashboard.View.{
  View, Caller, ignoring, refresh, mutate, Waiting, listed, rendered, returned, server_listed,
  refreshed, posted, drawn, Reply, load, accept, fail, load_done, render_done, load_server,
  load_server_done, returned_to, refresh_traffic, start_mutation, post_done, select_sub_format,
  draw_done, poll, calibrated, save_qr, Action, mounted, interval, unmounted, refresh_clicked,
  restart_confirmed, reset_confirmed, save_clicked, calibrate_clicked, calibrate_closed,
  calibrate_done, format_clicked, handle, resume,
}
use sbm.Dashboard.Invariant.{start}

-- The number of a load in flight, be it that its answer or its card is awaited.
abbrev pub number_of : Waiting → ℕ
number_of (listed n c) = n
number_of (rendered n q d url c) = n
number_of (returned c o) = 0
number_of (server_listed c) = 0
number_of refreshed = 0
number_of (posted url m) = 0
number_of (drawn n url name) = 0

abbrev counter : Counter View Waiting
counter = record { number = View.revision; issued = number_of }

abbrev Grows : View → View × List Waiting → Type 0
Grows = Revision.Grows counter

handle-Grows : (k : Action) (v : View) → Grows v (handle k v)
unfolding handle poll load load_server refresh_traffic start_mutation save_qr calibrated
    select_sub_format
handle-Grows (mounted now) v = ground arith
handle-Grows (interval now) v = ground arith
handle-Grows unmounted v = ground arith
handle-Grows refresh_clicked v = ground arith
handle-Grows restart_confirmed v = ground arith
handle-Grows reset_confirmed v = ground arith
handle-Grows save_clicked v = ground arith
handle-Grows calibrate_clicked v = ground arith
handle-Grows calibrate_closed v = ground arith
handle-Grows (calibrate_done m) v = ground arith
handle-Grows (format_clicked f) v = ground arith

accept-revision :
    (n q : ℕ) (card : Text) (next : Dashboard) (now : ℕ) (v : View)
    → (accept n q card next now v).revision ≡ v.revision
unfolding accept
accept-revision n q card next now v = ground arith

fail-revision : (n now : ℕ) (v : View) → (fail n now v).revision ≡ v.revision
unfolding fail
fail-revision n now v = ground arith

load_done-Grows :
    (n : ℕ) (c : Caller) (r : Reply) (v : View) → n ≤ v.revision → Grows v (load_done n c r v)
unfolding load_done
load_done-Grows n c (fulfilled b, now) v h =
    ground (arith, accept-revision n v.qr_revision v.qr b.as_dashboard now v)
load_done-Grows n c (rejected e, now) v h = ground (arith, fail-revision n now v)

render_done-Grows :
    (n q : ℕ) (d : Dashboard) (c : Caller) (r : Reply) (v : View)
    → Grows v (render_done n q d c r v)
unfolding render_done
render_done-Grows n q d c (fulfilled b, now) v =
    ground (arith, accept-revision n q b.as_card d now v)
render_done-Grows n q d c (rejected e, now) v = ground (arith, fail-revision n now v)

resume-Grows :
    (c : Waiting) (r : Reply) (v : View) → number_of c ≤ v.revision → Grows v (resume c r v)
unfolding resume returned_to load_server load_server_done post_done load draw_done
resume-Grows (listed n c) r v h = load_done-Grows n c r v h
resume-Grows (rendered n q d url c) r v h = render_done-Grows n q d c r v
resume-Grows (returned ignoring o) r v h = ground arith
resume-Grows (returned refresh none) r v h = ground arith
resume-Grows (returned refresh (some e)) r v h = ground arith
resume-Grows (returned mutate none) r v h = ground arith
resume-Grows (returned mutate (some e)) r v h = ground arith
resume-Grows (server_listed ignoring) (fulfilled b, now) v h = ground arith
resume-Grows (server_listed refresh) (fulfilled b, now) v h = ground arith
resume-Grows (server_listed mutate) (fulfilled b, now) v h = ground arith
resume-Grows (server_listed ignoring) (rejected e, now) v h = ground arith
resume-Grows (server_listed refresh) (rejected e, now) v h = ground arith
resume-Grows (server_listed mutate) (rejected e, now) v h = ground arith
resume-Grows refreshed r v h = ground arith
resume-Grows (posted url m) (fulfilled b, now) v h = ground arith
resume-Grows (posted url m) (rejected e, now) v h = ground arith
resume-Grows (drawn n url name) (fulfilled b, now) v h = ground arith
resume-Grows (drawn n url name) (rejected e, now) v h = ground arith

-- A change begins, or the view is left.
abbrev pub takes_over : Action → View → Bool
takes_over restart_confirmed v = not v.mutating
takes_over reset_confirmed v = not v.mutating
takes_over unmounted v = true
takes_over k v = false

takes_over-revision :
    (k : Action) (v : View) → takes_over k v ≡ true → suc v.revision ≤ (handle k v).0.revision
unfolding handle start_mutation
takes_over-revision (mounted now) v h = cc
takes_over-revision (interval now) v h = cc
takes_over-revision unmounted v h = ground arith
takes_over-revision refresh_clicked v h = cc
takes_over-revision restart_confirmed v h = ground arith
takes_over-revision reset_confirmed v h = ground arith
takes_over-revision save_clicked v h = cc
takes_over-revision calibrate_clicked v h = cc
takes_over-revision calibrate_closed v h = cc
takes_over-revision (calibrate_done m) v h = cc
takes_over-revision (format_clicked f) v h = cc

accept_ne :
    (n q : ℕ) (card : Text) (next : Dashboard) (now : ℕ) (v : View)
    → n ≢ v.revision
    → accept n q card next now v ≡ record v { pending = v.pending - 1 }
unfolding accept
accept_ne n q card next now v h = ground arith

fail_ne :
    (n now : ℕ) (v : View) → n ≢ v.revision → fail n now v ≡ record v { pending = v.pending - 1 }
unfolding fail
fail_ne n now v h = ground arith

load_done_ne :
    (n : ℕ) (c : Caller) (r : Reply) (v : View)
    → n ≢ v.revision
    → (load_done n c r v).0.data_shown ≡ v.data_shown
unfolding load_done
load_done_ne n c (fulfilled b, now) v h =
    ground (arith, accept_ne n v.qr_revision v.qr b.as_dashboard now v h)
load_done_ne n c (rejected e, now) v h = ground (arith, fail_ne n now v h)

render_done_ne :
    (n q : ℕ) (d : Dashboard) (c : Caller) (r : Reply) (v : View)
    → n ≢ v.revision
    → (render_done n q d c r v).0 ≡ record v { pending = v.pending - 1 }
unfolding render_done
render_done_ne n q d c (fulfilled b, now) v h = accept_ne n q b.as_card d now v h
render_done_ne n q d c (rejected e, now) v h = fail_ne n now v h

-- A load that was sent before the core was restarted, the traffic was reset or the view was left never
-- replaces the overview, whatever happens in between: neither by its answer, nor by the card that is
-- drawn for it, which leaves everything but `pending` as it is.
pub run-Ignores :
    (now : ℕ) (es : List (Event Action Reply)) (i : ℕ) {c : Waiting} (k : Action)
    (later : List (Event Action Reply)) (q : ℕ) (d : Dashboard) (caller : Caller) (r : Reply)
    → get_elem? (run handle resume (start now) es).waiting i ≡ some c
    → takes_over k (run handle resume (start now) es).state ≡ true
    → ((load_done
          (number_of c)
          caller
          r
          (run handle resume
            (step handle resume (run handle resume (start now) es) (call k))
            later).state).0.data_shown
        ≡ (run handle resume
            (step handle resume (run handle resume (start now) es) (call k))
            later).state.data_shown)
      × ((render_done
            (number_of c)
            q
            d
            caller
            r
            (run handle resume
              (step handle resume (run handle resume (start now) es) (call k))
              later).state).0
          ≡ record (run handle resume
              (step handle resume (run handle resume (start now) es) (call k))
              later).state {
                pending =
                    (run handle resume
                      (step handle resume (run handle resume (start now) es) (call k))
                      later).state.pending
                    - 1;
              })
run-Ignores now es i k later q d caller r here h =
    let s = run handle resume (start now) es in
    let old =
      Revision.run-IsOld counter handle resume handle-Grows resume-Grows (start now) es tt in
    let late =
      run-outdated counter handle resume handle-Grows resume-Grows s i k later old here
        (takes_over-revision k s.state h) in
    (
      load_done_ne _ caller r _ (λ e. omega (arith, late)),
      render_done_ne _ q d caller r _ (λ e. omega (arith, late)),
    )
