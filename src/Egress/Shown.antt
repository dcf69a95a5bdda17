-- ===== src/Egress/Shown.antt =====
-- Which answers the list of gateways takes.
use sbm.Base.{
  ℕ, suc, ◌-◌, ◌≤◌, ◌≡◌, ◌≢◌, Bool, true, false, not, some, none, List, get_elem?, arith,
}
use sbm.Latest.Revision.{Counter, run-outdated}
use sbm.Latest.Revision
use sbm.Async.{Event, call, fulfilled, rejected, step, run}
use sbm.Egress.{
  View, setup, Caller, refresh, ignoring, Waiting, listed, returned, acted, derived, generated, Job,
  save, toggle, remove, detect, reset, Body, Reply, load, load_done, returned_to, edit, close,
  derive, derive_done, generate, generate_done, create, key_of,
}
use sbm.Egress
use sbm.Egress.Change.{
  start_job, job_done, run_done, resume, calibrated, poll, type_key, type_field, Action, mounted,
  unmounted, derive_left, generate_clicked, create_clicked, form_closed, calibrate_closed, interval,
  job_clicked, edit_clicked, calibrate_clicked, calibrate_done, key_typed, field_typed, handle,
}
use sbm.Egress.Invariant.{start}

-- The number of a load in flight.
abbrev pub number_of : Waiting → ℕ
number_of (listed n c) = n
number_of (returned c o) = 0
number_of (acted job) = 0
number_of (derived n k) = 0
number_of (generated n) = 0

-- The numbers of the loads.
abbrev counter : Counter View Waiting
counter = record { number = View.list_revision; issued = number_of }

abbrev Grows : View → View × List Waiting → Type 0
Grows = Revision.Grows counter

derive-Grows : (v : View) → Grows v (derive v)
unfolding derive
derive-Grows v = ground arith

start_job-Grows : (job : Job) (v : View) → Grows v (start_job job v)
unfolding start_job load
start_job-Grows job v = ground arith

poll-Grows : (now : ℕ) (v : View) → Grows v (poll now v)
unfolding poll load
poll-Grows now v = ground arith

handle-Grows : (k : Action) (v : View) → Grows v (handle k v)
unfolding handle load edit close create generate calibrated type_key type_field
handle-Grows mounted v = ground arith
handle-Grows unmounted v = ground arith
handle-Grows derive_left v = derive-Grows v
handle-Grows generate_clicked v = ground arith
handle-Grows create_clicked v = ground arith
handle-Grows form_closed v = ground arith
handle-Grows calibrate_closed v = ground arith
handle-Grows (interval now) v = ground (arith, poll-Grows now v)
handle-Grows (job_clicked job) v = start_job-Grows job v
handle-Grows (edit_clicked g) v = ground arith
handle-Grows (calibrate_clicked g) v = ground arith
handle-Grows (calibrate_done m) v = ground arith
handle-Grows (key_typed key) v = ground arith
handle-Grows (field_typed g) v = ground arith

load_done-list_revision :
    (n : ℕ) (r : Reply) (v : View) → (load_done n r v).list_revision ≡ v.list_revision
unfolding load_done
load_done-list_revision n (fulfilled b, now) v = ground arith
load_done-list_revision n (rejected e, now) v = ground arith

resume-Grows : (c : Waiting) (r : Reply) (v : View) → Grows v (resume c r v)
unfolding resume derive_done generate_done run_done returned_to job_done load close
resume-Grows (listed n c) r v = ground (arith, load_done-list_revision n r v)
resume-Grows (returned refresh none) r v = ground arith
resume-Grows (returned refresh (some e)) r v = ground arith
resume-Grows (returned ignoring o) r v = ground arith
resume-Grows (returned Egress.run none) r v = ground arith
resume-Grows (returned Egress.run (some e)) r v = ground arith
resume-Grows (acted save) (fulfilled b, now) v = ground arith
resume-Grows (acted (toggle g)) (fulfilled b, now) v = ground arith
resume-Grows (acted (remove g)) (fulfilled b, now) v = ground arith
resume-Grows (acted (detect g)) (fulfilled b, now) v = ground arith
resume-Grows (acted (reset g)) (fulfilled b, now) v = ground arith
resume-Grows (acted job) (rejected e, now) v = ground arith
resume-Grows (derived n s) (fulfilled b, now) v = ground arith
resume-Grows (derived n s) (rejected e, now) v = ground arith
resume-Grows (generated n) (fulfilled b, now) v = ground arith
resume-Grows (generated n) (rejected e, now) v = ground arith

-- A form is opened, a change begins, or the view is left.
abbrev pub takes_over : Action → View → Bool
takes_over create_clicked v = true
takes_over (edit_clicked g) v = true
takes_over (job_clicked job) v = not v.busy
takes_over unmounted v = true
takes_over k v = false

takes_over-list_revision :
    (k : Action) (v : View)
    → takes_over k v ≡ true
    → suc v.list_revision ≤ (handle k v).0.list_revision
unfolding handle load edit create generate start_job
takes_over-list_revision create_clicked v h = ground arith
takes_over-list_revision (edit_clicked g) v h = ground arith
takes_over-list_revision (job_clicked job) v h = ground arith
takes_over-list_revision unmounted v h = ground arith
takes_over-list_revision mounted v h = cc
takes_over-list_revision derive_left v h = cc
takes_over-list_revision generate_clicked v h = cc
takes_over-list_revision form_closed v h = cc
takes_over-list_revision calibrate_closed v h = cc
takes_over-list_revision (interval now) v h = cc
takes_over-list_revision (calibrate_clicked g) v h = cc
takes_over-list_revision (calibrate_done m) v h = cc
takes_over-list_revision (key_typed key) v h = cc
takes_over-list_revision (field_typed g) v h = cc

load_done_ne :
    (n : ℕ) (r : Reply) (v : View)
    → n ≢ v.list_revision
    → load_done n r v ≡ record v { pending = v.pending - 1 }
unfolding load_done
load_done_ne n (fulfilled b, now) v h = ground arith
load_done_ne n (rejected e, now) v h = ground arith

-- An answer to a load that was sent before a form was opened, a change began or the view was left never replaces the
-- list, whatever happens in between and however late it comes: all that it does is to lower `pending`.
pub run-Shields :
    (now : ℕ) (es : List (Event Action Reply)) (i n : ℕ) (caller : Caller) (k : Action)
    (later : List (Event Action Reply)) (r : Reply)
    → get_elem? (run handle resume (start now) es).waiting i ≡ some (listed n caller)
    → takes_over k (run handle resume (start now) es).state ≡ true
    → load_done n r
        (run handle resume
          (step handle resume (run handle resume (start now) es) (call k))
          later).state
      ≡ record (run handle resume
          (step handle resume (run handle resume (start now) es) (call k))
          later).state {
            pending =
                (run handle resume
                  (step handle resume (run handle resume (start now) es) (call k))
                  later).state.pending
                - 1;
          }
run-Shields now es i n caller k later r here h =
    let s = run handle resume (start now) es in
    let old =
      Revision.run-IsOld counter handle resume handle-Grows (λ c r v h. resume-Grows c r v)
        (start now) es tt in
    let up = takes_over-list_revision k s.state h in
    let late =
      run-outdated counter handle resume handle-Grows (λ c r v h. resume-Grows c r v) s i k later
        old here up in
    load_done_ne n r _ (λ e. omega (arith, late))
