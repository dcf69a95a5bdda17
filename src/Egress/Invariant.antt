-- ===== src/Egress/Invariant.antt =====
-- How many changes and loads of the gateways are under way.
use sbm.Base.{num, ℕ, ◌+◌, ◌-◌, ◌≤◌, ◌≡◌, refl, Option, none, some, List, [], sum_by, arith}
use sbm.Async.Balance.{run-Balanced}
use sbm.Async.{Sys, Event, fulfilled, rejected, run}
use sbm.Message.{Thrown}
use sbm.Egress.{
  View, setup, Caller, refresh, ignoring, Waiting, listed, returned, acted, derived, generated, Job,
  save, toggle, remove, detect, reset, Body, Reply, load, load_done, returned_to, edit, close,
  derive, derive_done, generate, generate_done, create, key_of,
}
use sbm.Egress
use sbm.Egress.Change.{
  start_job, job_done, run_done, resume, calibrated, poll, type_key, type_field, Action, mounted,
  unmounted, derive_left, generate_clicked, create_clicked, form_closed, calibrate_closed, interval,
  job_clicked, edit_clicked, calibrate_clicked, calibrate_done, key_typed, field_typed, handle,
}

abbrev runs_of : Caller → ℕ
runs_of refresh = 0
runs_of ignoring = 0
runs_of Egress.run = 1

-- A `run` that has not returned, and a `load` in flight.
abbrev pub runs : Waiting → ℕ
runs (listed n c) = runs_of c
runs (returned c o) = runs_of c
runs (acted job) = 1
runs (derived n k) = 0
runs (generated n) = 0

abbrev pub loads : Waiting → ℕ
loads (listed n c) = 1
loads (returned c o) = 0
loads (acted job) = 0
loads (derived n k) = 0
loads (generated n) = 0

-- What code that ends in `w` and leaves `more` to wait has added to the counts of `v`.
abbrev Balanced : ℕ → ℕ → View → View × List Waiting → Type 0
Balanced ended answered v (w, more) =
    (sum_by runs more + num v.busy ≡ num w.busy + ended)
    × (sum_by loads more + v.pending ≡ w.pending + answered)

derive-Balanced : (v : View) → Balanced 0 0 v (derive v)
unfolding derive
derive-Balanced v = (ground arith, ground arith)

start_job-Balanced : (job : Job) (v : View) → Balanced 0 0 v (start_job job v)
unfolding start_job load
start_job-Balanced job v = (ground arith, ground arith)

poll-Balanced : (now : ℕ) (v : View) → Balanced 0 0 v (poll now v)
unfolding poll load
poll-Balanced now v = (ground arith, ground arith)

handle-Balanced : (k : Action) (v : View) → Balanced 0 0 v (handle k v)
unfolding handle load edit close create generate calibrated type_key type_field
handle-Balanced mounted v = (omega arith, omega arith)
handle-Balanced unmounted v = (omega arith, omega arith)
handle-Balanced derive_left v = derive-Balanced v
handle-Balanced generate_clicked v = (omega arith, omega arith)
handle-Balanced create_clicked v = (omega arith, omega arith)
handle-Balanced form_closed v = (omega arith, omega arith)
handle-Balanced calibrate_closed v = (omega arith, omega arith)
handle-Balanced (interval now) v =
    let (r, l) = poll-Balanced now v in (ground (arith, r), ground (arith, l))
handle-Balanced (job_clicked job) v = start_job-Balanced job v
handle-Balanced (edit_clicked g) v = (omega arith, omega arith)
handle-Balanced (calibrate_clicked g) v = (omega arith, omega arith)
handle-Balanced (calibrate_done m) v = (omega arith, omega arith)
handle-Balanced (key_typed key) v = (ground arith, ground arith)
handle-Balanced (field_typed g) v = (ground arith, ground arith)

load_done-counts :
    (n : ℕ) (r : Reply) (v : View)
    → ((load_done n r v).busy ≡ v.busy) × ((load_done n r v).pending ≡ v.pending - 1)
unfolding load_done
load_done-counts n (fulfilled b, now) v = (ground arith, ground arith)
load_done-counts n (rejected e, now) v = (ground arith, ground arith)

returned_to-Balanced :
    (c : Caller) (o : Option Thrown) (v : View)
    → runs_of c ≤ num v.busy
    → Balanced (runs_of c) 0 v (returned_to c o v, [])
unfolding returned_to
returned_to-Balanced refresh none v h = (omega arith, omega arith)
returned_to-Balanced refresh (some e) v h = (omega arith, omega arith)
returned_to-Balanced ignoring o v h = (omega arith, omega arith)
returned_to-Balanced Egress.run none v h = (ground arith, omega arith)
returned_to-Balanced Egress.run (some e) v h = (ground arith, omega arith)

job_done-counts :
    (job : Job) (b : Body) (v : View)
    → ((job_done job b v).busy ≡ v.busy) × ((job_done job b v).pending ≡ v.pending)
unfolding job_done close
job_done-counts save b v = (refl, refl)
job_done-counts (toggle g) b v = (refl, refl)
job_done-counts (remove g) b v = (refl, refl)
job_done-counts (detect g) b v = (refl, refl)
job_done-counts (reset g) b v = (refl, refl)

run_done-Balanced :
    (job : Job) (r : Reply) (v : View) → 1 ≤ num v.busy → Balanced 1 0 v (run_done job r v)
unfolding run_done load returned_to
run_done-Balanced job (fulfilled b, now) v h =
    let (same, kept) = job_done-counts job b v in (ground (arith, same), ground (arith, kept))
run_done-Balanced job (rejected e, now) v h = (ground arith, omega arith)

resume-runs :
    (c : Waiting) (r : Reply) (v : View)
    → runs c ≤ num v.busy
    → sum_by runs (resume c r v).1 + num v.busy ≡ num (resume c r v).0.busy + runs c
unfolding resume derive_done generate_done
resume-runs (listed n c) r v h = ground (arith, (load_done-counts n r v).0)
resume-runs (returned c o) r v h = (returned_to-Balanced c o v h).0
resume-runs (acted job) r v h = (run_done-Balanced job r v h).0
resume-runs (derived n s) (fulfilled b, now) v h = ground arith
resume-runs (derived n s) (rejected e, now) v h = ground arith
resume-runs (generated n) (fulfilled b, now) v h = ground arith
resume-runs (generated n) (rejected e, now) v h = ground arith

resume-loads :
    (c : Waiting) (r : Reply) (v : View)
    → loads c ≤ v.pending
    → sum_by loads (resume c r v).1 + v.pending ≡ (resume c r v).0.pending + loads c
unfolding resume derive_done generate_done run_done load returned_to
resume-loads (listed n c) r v h = ground (arith, (load_done-counts n r v).1)
resume-loads (returned refresh none) r v h = omega arith
resume-loads (returned refresh (some e)) r v h = omega arith
resume-loads (returned ignoring o) r v h = omega arith
resume-loads (returned Egress.run none) r v h = omega arith
resume-loads (returned Egress.run (some e)) r v h = omega arith
resume-loads (acted job) (fulfilled b, now) v h = ground (arith, (job_done-counts job b v).1)
resume-loads (acted job) (rejected e, now) v h = omega arith
resume-loads (derived n s) (fulfilled b, now) v h = ground arith
resume-loads (derived n s) (rejected e, now) v h = ground arith
resume-loads (generated n) (fulfilled b, now) v h = ground arith
resume-loads (generated n) (rejected e, now) v h = ground arith

-- The changes that have not returned, and the loads in flight.
pub record Counted (s : Sys View Waiting) : Type 0 where
  pub changes : sum_by runs s.waiting ≡ num s.state.busy
  pub in_flight : sum_by loads s.waiting ≡ s.state.pending

abbrev pub start : ℕ → Sys View Waiting
start now = record { state = setup now; waiting = [] }

-- However the user, the interval and the server interleave, a change of the gateways is under way
-- exactly when `busy` is set, and then it is the only one, up to the end of the load that follows it;
-- and `pending` is the number of loads in flight.
pub run-Counted :
    (now : ℕ) (es : List (Event Action Reply)) → Counted (run handle resume (start now) es)
unfolding setup
run-Counted now es = record {
  changes =
      run-Balanced runs (λ v. num v.busy) handle resume (λ k v. (handle-Balanced k v).0) resume-runs
        (start now) es refl;
  in_flight =
      run-Balanced loads View.pending handle resume (λ k v. (handle-Balanced k v).1) resume-loads
        (start now) es refl;
}
