-- ===== src/PanelUpdate/Invariant.antt =====
-- What holds of the panel's update dialog in every interleaving of its handlers.
use sbm.Base.{
  num, ℕ, ◌+◌, ◌≤◌, ◌≡◌, true, false, none, some, List, [], erase_idx, sum_by, sum_by-append,
  sum_by-erase_idx, arith,
}
use sbm.Async.{Sys, Event, step, step_inv, run, run_inv}
use sbm.PanelUpdate.{
  Panel, setup, Waiting, checked, progressed, installed, recovered, Reply, Action, mounted, resume,
  handle,
}

-- A request for the state of the job.
abbrev pub polls : Waiting → ℕ
polls (progressed watching caller) = 1
polls (checked notify) = 0
polls installed = 0
polls (recovered e) = 0

-- An `install` that has not returned.
abbrev pub installs : Waiting → ℕ
installs (checked notify) = 0
installs (progressed watching none) = 0
installs (progressed watching (some e)) = 1
installs installed = 1
installs (recovered e) = 1

pub record IsSound (s : Sys Panel Waiting) : Type 0 where
  pub one_poll : sum_by polls s.waiting ≡ num s.state.polling
  pub one_install : sum_by installs s.waiting ≡ num s.state.starting
  pub armed : s.state.ticking ≡ true → s.state.timer ≡ true
  pub quiet : s.state.disposed ≡ true → s.state.ticking ≡ false

-- What a handler that turns `p` into `q` and leaves `more` to wait does to the counts, where `gone`
-- was taken from those that wait.
record Keeps (gone_polls gone_installs : ℕ) (p q : Panel) (more : List Waiting) : Type 0 where
  polls_eq : sum_by polls more + num p.polling ≡ num q.polling + gone_polls
  installs_eq : sum_by installs more + num p.starting ≡ num q.starting + gone_installs
  armed : (p.ticking ≡ true → p.timer ≡ true) → q.ticking ≡ true → q.timer ≡ true
  quiet : (p.disposed ≡ true → p.ticking ≡ false) → q.disposed ≡ true → q.ticking ≡ false

handle-Keeps : (k : Action) (p : Panel) → Keeps 0 0 p (handle k p).0 (handle k p).1
unfolding handle
handle-Keeps mounted p = ground arith
handle-Keeps k p = ground arith

resume-Keeps :
    (c : Waiting) (r : Reply) (p : Panel)
    → polls c ≤ num p.polling
    → installs c ≤ num p.starting
    → Keeps (polls c) (installs c) p (resume c r p).0 (resume c r p).1
unfolding resume
resume-Keeps (checked notify) r p h k = ground arith
resume-Keeps (progressed watching none) r p h k = ground arith
resume-Keeps _ r p h k = ground arith

step-IsSound :
    (s : Sys Panel Waiting) (e : Event Action Reply) → IsSound s → IsSound (step handle resume s e)
step-IsSound s e h =
    step_inv handle resume IsSound s e h
      (λ k.
        let kept = handle-Keeps k s.state in
        record {
          one_poll = omega (arith, sum_by-append polls s.waiting (handle k s.state).1);
          one_install = omega (arith, sum_by-append installs s.waiting (handle k s.state).1);
          armed = kept.armed h.armed;
          quiet = kept.quiet h.quiet;
        })
      (λ c i r here.
        let p : polls c ≤ num s.state.polling =
          omega (arith, sum_by-erase_idx polls s.waiting i here) in
        let q : installs c ≤ num s.state.starting =
          omega (arith, sum_by-erase_idx installs s.waiting i here) in
        let kept = resume-Keeps c r s.state p q in
        record {
          one_poll = omega (
            arith,
            sum_by-append polls (erase_idx s.waiting i) (resume c r s.state).1,
            sum_by-erase_idx polls s.waiting i here,
          );
          one_install = omega (
            arith,
            sum_by-append installs (erase_idx s.waiting i) (resume c r s.state).1,
            sum_by-erase_idx installs s.waiting i here,
          );
          armed = kept.armed h.armed;
          quiet = kept.quiet h.quiet;
        })

abbrev pub start : Sys Panel Waiting
start = record { state = setup; waiting = [] }

start-IsSound : IsSound start
unfolding setup
start-IsSound = ground arith

-- However the handlers, the answers and the interval interleave, a request for the job's state is in
-- flight exactly when `polling` is set, and then it is the only one; an `install` is under way exactly
-- when `starting` is set, and then it is the only one; an interval that lives has its handle in
-- `timer`, and none lives after the component was unmounted.
pub run-IsSound : (es : List (Event Action Reply)) → IsSound (run handle resume start es)
run-IsSound es = run_inv handle resume IsSound step-IsSound start es start-IsSound
