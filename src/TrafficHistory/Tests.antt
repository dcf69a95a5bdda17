-- ===== src/TrafficHistory/Tests.antt =====
-- Runs of the history view.
use sbm.Base.{ap, ℕ, arith, length, ◌≡◌, ◌≢◌, refl, true, false, Option, none, some, List, [], ◌∷◌}
use sbm.Base.Text.{Text, codes}
use sbm.Base.Decimal.{decimal}
use sbm.Async.{Event, call, settle, fulfilled, step, run}
use sbm.Latest.{count_at}
use sbm.Calendar.{days_in_month}
use sbm.Selection.{valid_month, year_ok, month_ok}
use sbm.DatePicker.{in_range, iso_month, iso_day}
use sbm.TrafficHistory.{
  Answer, day, View, Browser, setup, valid_selection, range_of, load, load_done, accept, resume,
  change_month, Reply, Action, mounted, interval, month_picked, handle,
}
use sbm.TrafficHistory.Invariant.{loader, start}
use sbm.TrafficHistory.Laws.{Answers, run-Answers, run-spinner, range_of-iso_month}

abbrev utc : Browser
utc = record { zone = codes "UTC"; parts = λ tz now. fulfilled (codes "2024", codes "05") }

abbrev answer : Text → Answer
answer at = record {
  source = none;
  scope = none;
  granularity = day;
  timezone = codes "UTC";
  started_at = [];
  updated_at = at;
  rows = [];
  imports = [];
}

-- A first answer, a poll, another month, and then the answer of the poll.
abbrev session : List (Event Action Reply)
session =
    call mounted
    ∷ settle 0 (fulfilled (answer (codes "1")), 0)
    ∷ call interval
    ∷ call (month_picked (codes "2024-02"))
    ∷ settle 0 (fulfilled (answer (codes "2")), 0)
    ∷ []

abbrev last : Event Action Reply
last = settle 0 (fulfilled (answer (codes "10")), 0)

view : Unit {0}
unfolding run handle resume setup load load_done accept change_month valid_selection valid_month
    year_ok month_ok
view = tt

-- The answer of the poll is dropped, that of the picked month is shown.
dropped_shown :
    ((run (handle utc) (resume utc) (start (codes "2024-05")) session).state.history
      ≡ some (answer (codes "1")))
    × ((step
          (handle utc)
          (resume utc)
          (run (handle utc) (resume utc) (start (codes "2024-05")) session)
          last).state.history
        ≡ some (answer (codes "10")))
unfolding view
dropped_shown = (refl, refl)

-- The length of the time of update tells two answers apart.
abbrev stamp : Option Answer → ℕ
stamp none = 0
stamp (some a) = length a.updated_at

newer : some (answer (codes "10")) ≢ some (answer (codes "1"))
newer e = let p : 2 ≡ 1 = ap stamp e in omega (arith, p)

run-Answers_example :
    Answers utc (run (handle utc) (resume utc) (start (codes "2024-05")) session) 0
unfolding view
run-Answers_example =
    run-Answers utc (codes "2024-05") session 0 (fulfilled (answer (codes "10")), 0) newer

run-spinner_example :
    count_at
      (loader utc).tag
      (run (handle utc) (resume utc) (start (codes "2024-05")) (call mounted ∷ [])).state.request
      (run (handle utc) (resume utc) (start (codes "2024-05")) (call mounted ∷ [])).waiting
    ≡ 1
unfolding view
run-spinner_example = run-spinner utc (codes "2024-05") (call mounted ∷ []) refl refl

abbrev picked : View
picked = record {
  history = none;
  mode = day;
  month = iso_month 2024 2;
  year = decimal 2024;
  loading = false;
  error = none;
  request = 4;
  initialized = true;
  ticking = true;
}

in_range_2024 : in_range 2024 ≡ true
unfolding in_range
in_range_2024 = refl

range_of-march : range_of picked ≡ (iso_day 2024 2 1, iso_day 2024 2 (days_in_month 2024 2))
range_of-march = range_of-iso_month picked 2024 2 in_range_2024 (omega arith) refl refl
