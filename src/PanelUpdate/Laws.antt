-- ===== src/PanelUpdate/Laws.antt =====
-- When the dialog submits an install, reloads the page, and gives up on a job.
use sbm.Base.{
  ℕ, suc, ◌≡◌, ◌≢◌, refl, true, false, Option, none, some, List, [], ◌∷◌, get_elem?, sum_by, All,
  arith, Option-cases, inl, inr, ap, ◌∙◌,
}
use sbm.Message.{Thrown, error_message}
use sbm.Async.{
  Sys, Event, call, settle, fulfilled, rejected, step, step-call, step-settle, step-gone, run,
}
use sbm.PanelUpdate.{
  Panel, running, succeeded, Effect, toast, post_update, reload, Waiting, checked, progressed,
  installed, recovered, Body, Reply, Action, mounted, install_clicked, retry_clicked, busy,
  job_running, resume, handle,
}
use sbm.PanelUpdate.Invariant.{installs, IsSound}

abbrev pub posts : List Effect → ℕ
posts [] = 0
posts (post_update ∷ l) = suc (posts l)
posts (toast m ∷ l) = posts l
posts (reload ∷ l) = posts l

abbrev pub reloads : List Effect → ℕ
reloads [] = 0
reloads (reload ∷ l) = suc (reloads l)
reloads (toast m ∷ l) = reloads l
reloads (post_update ∷ l) = reloads l

posts-resume : (c : Waiting) (r : Reply) (p : Panel) → posts (resume c r p).0.log ≡ posts p.log
unfolding resume
posts-resume (checked notify) r p = ground arith
posts-resume _ r p = ground arith

posts-handle :
    (k : Action) (p : Panel)
    → posts (handle k p).0.log ≢ posts p.log
    → (k ≡ install_clicked) × (busy p ≡ false)
unfolding handle
posts-handle install_clicked p h = ground arith
posts-handle k p h = absurd (h (ground arith))

-- In a sound state an event submits an install only if it is the user's click, no job is known to
-- run, and no earlier install is still under way, be it that its answer or its recovery is awaited.
pub posts-step :
    (s : Sys Panel Waiting) (e : Event Action Reply)
    → IsSound s
    → posts (step handle resume s e).state.log ≢ posts s.state.log
    → (e ≡ call install_clicked) × (job_running s.state ≡ false) × (sum_by installs s.waiting ≡ 0)
unfolding busy
posts-step s (call k) h more =
    let (clicked, free) = posts-handle k s.state (rw step-call at more) in
    (ap call clicked, ground arith, ground (arith, h.one_install))
posts-step s (settle i r) h more = elim (Option-cases (get_elem? s.waiting i)) [
  | inl gone ↦ absurd (more (rw (step-gone handle resume s i r gone) refl))
  | inr (c, here) ↦
      absurd (more (rw (step-settle handle resume s i r here) (posts-resume c r s.state)))
]

reloads-handle : (k : Action) (p : Panel) → reloads (handle k p).0.log ≡ reloads p.log
unfolding handle
reloads-handle mounted p = ground arith
reloads-handle k p = ground arith

-- A poll of the interval has answered that the job succeeded, and the component is mounted.
pub record Finished (s : Sys Panel Waiting) (i : ℕ) (r : Reply) : Type 0 where
  pub caller : Option Thrown
  pub body : Body
  pub polled : get_elem? s.waiting i ≡ some (progressed true caller)
  pub answered : r ≡ fulfilled body
  pub done : body.as_job.state ≡ succeeded
  pub mounted : s.state.disposed ≡ false

reloads-resume :
    (c : Waiting) (r : Reply) (p : Panel)
    → reloads (resume c r p).0.log ≢ reloads p.log
    → (caller : Option Thrown) × (body : Body) × (c ≡ progressed true caller)
      × (r ≡ fulfilled body)
      × (body.as_job.state ≡ succeeded)
      × (p.disposed ≡ false)
unfolding resume
reloads-resume (progressed watching caller) (fulfilled b) p h =
    (caller, b, ground arith, refl, ground arith, ground arith)
reloads-resume (progressed watching caller) (rejected e) p h = absurd (h (ground arith))
reloads-resume (checked notify) r p h = absurd (h (ground arith))
reloads-resume installed r p h = absurd (h (ground arith))
reloads-resume (recovered e) r p h = absurd (h (ground arith))

-- An event reloads the page only if it is the answer to a poll of the interval, which says that the
-- job succeeded, and the component is still mounted.
pub reloads-step :
    (s : Sys Panel Waiting) (e : Event Action Reply)
    → reloads (step handle resume s e).state.log ≢ reloads s.state.log
    → (i : ℕ) × (r : Reply) × (e ≡ settle i r) × Finished s i r
reloads-step s (call k) more = absurd (more (rw step-call (reloads-handle k s.state)))
reloads-step s (settle i r) more = elim (Option-cases (get_elem? s.waiting i)) [
  | inl gone ↦ absurd (more (rw (step-gone handle resume s i r gone) refl))
  | inr (c, here) ↦
      let (caller, body, which, answer, done, on) =
        reloads-resume c r s.state (rw (step-settle handle resume s i r here) at more) in
      (
        i,
        r,
        refl,
        record {
          caller = caller;
          body = body;
          polled = rw (← which) here;
          answered = answer;
          done = done;
          mounted = on;
        },
      )
]

-- An event of an outage: no answer comes through, and the user does not press the retry button.
abbrev pub IsOutage : Event Action Reply → Type 0
IsOutage (call k) = k ≢ retry_clicked
IsOutage (settle i (rejected e)) = Unit
IsOutage (settle i (fulfilled b)) = ⊥

job-handle : (k : Action) (p : Panel) → k ≢ retry_clicked → (handle k p).0.job ≡ p.job
unfolding handle
job-handle mounted p h = ground arith
job-handle k p h = ground arith

job-resume : (c : Waiting) (e : Thrown) (p : Panel) → (resume c (rejected e) p).0.job ≡ p.job
unfolding resume
job-resume (checked notify) e p = ground arith
job-resume c e p = ground arith

job-step :
    (s : Sys Panel Waiting) (e : Event Action Reply)
    → IsOutage e
    → (step handle resume s e).state.job ≡ s.state.job
job-step s (call k) h = rw step-call (job-handle k s.state h)
job-step s (settle i (fulfilled b)) h = absurd h
job-step s (settle i (rejected x)) h = elim (Option-cases (get_elem? s.waiting i)) [
  | inl gone ↦ rw (step-gone handle resume s i (rejected x) gone) refl
  | inr (c, here) ↦ rw (step-settle handle resume s i (rejected x) here) (job-resume c x s.state)
]

-- Through any outage, however long and whatever else the user does, the job that was followed stays
-- what it was: failing requests do not turn a running update into a failed one.
pub job-run :
    (s : Sys Panel Waiting) (es : List (Event Action Reply))
    → All IsOutage es
    → (run handle resume s es).state.job ≡ s.state.job
unfolding run
job-run s [] h = refl
job-run s (e ∷ es) h = job-run (step handle resume s e) es h.1 ∙ job-step s e h.0

-- The events of an install whose answer is lost, where the job's state can then be read.
abbrev pub lost_answer : Thrown → Body → List (Event Action Reply)
lost_answer e b =
    call install_clicked
    ∷ settle 0 (rejected e)
    ∷ settle 0 (fulfilled b)
    ∷ settle 0 (rejected e)
    ∷ []

-- In a dialog that is mounted, with no install under way, no job known to run, no status read in flight, no
-- interval, and nothing else waiting: if install is clicked, its request fails, the status that is then read
-- answers that the job runs, and `install` goes on, in this order, then the dialog follows the job. One request
-- was sent, no message is shown, the interval lives, and no install is under way any more.
pub run-lost_answer :
    (p : Panel) (e : Thrown) (b : Body)
    → busy p ≡ false
    → p.polling ≡ false
    → p.disposed ≡ false
    → p.timer ≡ false
    → b.as_job.state ≡ running
    → run handle resume (record { state = p; waiting = [] }) (lost_answer e b) ≡ record {
      state = record p {
        is_open = true;
        job = some b.as_job;
        reconnecting = false;
        timer = true;
        ticking = true;
        starting = false;
        log = post_update ∷ p.log;
        polling = false;
      };
      waiting = [];
    }
unfolding run handle resume busy
run-lost_answer p e b free idle on off going = ground arith

-- The same with a status read already in flight, such as the one that mounting starts: the install fails,
-- `install` goes on behind `readProgress`, which has returned at once, and then that read answers.
abbrev pub polled_answer : Thrown → Body → List (Event Action Reply)
polled_answer e b =
    call install_clicked
    ∷ settle 1 (rejected e)
    ∷ settle 1 (rejected e)
    ∷ settle 0 (fulfilled b)
    ∷ []

-- In a dialog that is mounted, with no install under way, no job known to run, no interval, and a status read
-- of mounting in flight, alone: if install is clicked, its request fails, `install` goes on, and then that read
-- answers that the job runs, in this order, then no status is read for the install, the error is shown, and
-- right after it the dialog follows the job that was said to have failed.
pub run-polled_answer :
    (p : Panel) (e : Thrown) (b : Body)
    → busy p ≡ false
    → p.polling ≡ true
    → p.disposed ≡ false
    → p.timer ≡ false
    → b.as_job.state ≡ running
    → run handle resume
        (record { state = p; waiting = progressed false none ∷ [] })
        (polled_answer e b)
      ≡ record {
        state = record p {
          is_open = true;
          job = some b.as_job;
          reconnecting = false;
          timer = true;
          ticking = true;
          starting = false;
          log = toast (error_message e) ∷ post_update ∷ p.log;
          polling = false;
        };
        waiting = [];
      }
unfolding run handle resume busy
run-polled_answer p e b free busy_reading on off going = ground arith
