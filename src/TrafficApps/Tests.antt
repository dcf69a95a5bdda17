-- ===== src/TrafficApps/Tests.antt =====
-- Runs of the view of the apps.
use sbm.Base.{
  num, ap, ℕ, ◌+◌, ◌≡◌, ◌≢◌, refl, true, false, Option, none, some, List, [], ◌∷◌, length, sum_by,
  arith,
}
use sbm.Base.Text.{Text, codes}
use sbm.Message.{exception, Thrown, error_message}
use sbm.Async.{Event, call, settle, fulfilled, rejected, run}
use sbm.Selection.{valid_day, year_ok, month_ok, day_ok}
use sbm.TrafficHistory.{day}
use sbm.TrafficApps.{
  AppUsage, AppTrafficResponse, View, Browser, setup, valid_selection, query_of, load, load_done,
  accept, clear_stats, clear_done, resume, change_date, nobody, requested, Reply, Action, mounted,
  interval, day_picked, clear_confirmed, handle,
}
use sbm.TrafficApps.Export.{report_of}
use sbm.TrafficApps.Groups.{sum-report_of}
use sbm.TrafficApps.Invariant.{start}
use sbm.TrafficApps.Laws.{Answers, run-Shows, clears, run-OneClear, run-failed_clear}

abbrev utc : Browser
utc = record {
  zone = codes "UTC";
  parts = λ tz now. fulfilled (codes "2024", codes "05", codes "07");
}

abbrev app : Text → Text → ℕ → AppUsage
app name category total = record {
  id = name;
  name = name;
  category = category;
  upload = 0;
  download = total;
  total = total;
  domains = [];
}

abbrev answer : Text → AppTrafficResponse
answer at = record {
  period = day;
  date = codes "2024-05-07";
  timezone = codes "UTC";
  updated_at = at;
  total_upload = 0;
  total_download = 60;
  total_bytes = 60;
  apps =
      app (codes "a.org") (codes "site") 10
      ∷ app (codes "cdn") (codes "cdn") 20
      ∷ app (codes "video") (codes "media") 30
      ∷ [];
}

-- A first answer, a poll, another day, and then the answer of the poll.
abbrev session : List (Event Action Reply)
session =
    call mounted
    ∷ settle 0 (fulfilled (answer (codes "1")), 0)
    ∷ call interval
    ∷ call (day_picked (codes "2024-05-06"))
    ∷ settle 0 (fulfilled (answer (codes "2")), 0)
    ∷ []

view : Unit {0}
unfolding run handle resume setup load load_done accept change_date clear_stats clear_done
    valid_selection valid_day year_ok month_ok day_ok
view = tt

-- The length of the time of update tells two answers apart.
abbrev stamp : Option AppTrafficResponse → ℕ
stamp none = 0
stamp (some a) = length a.updated_at

newer : some (answer (codes "10")) ≢ some (answer (codes "1"))
newer e = let p : 2 ≡ 1 = ap stamp e in omega (arith, p)

run-Shows_example :
    Answers utc (run (handle utc) (resume utc) (start (codes "2024-05-07")) session) 0
unfolding view
run-Shows_example =
    run-Shows utc (codes "2024-05-07") session 0 (fulfilled (answer (codes "10")), 0) newer

abbrev clearing_twice : List (Event Action Reply)
clearing_twice =
    call mounted
    ∷ settle 0 (fulfilled (answer (codes "1")), 0)
    ∷ call clear_confirmed
    ∷ call clear_confirmed
    ∷ []

run-OneClear_example :
    sum_by clears
      (run (handle utc) (resume utc) (start (codes "2024-05-07")) clearing_twice).waiting
    ≡ num true
unfolding view
run-OneClear_example = run-OneClear utc (codes "2024-05-07") clearing_twice

abbrev offline : Thrown
offline = exception (codes "timeout")

abbrev loading_view : View
loading_view = record {
  data_shown = some (answer (codes "1"));
  period = day;
  day = codes "2024-05-07";
  month = codes "2024-05";
  loading = true;
  clearing = false;
  error = none;
  initialized = true;
  expanded = λ id. false;
  request = 3;
  ticking = true;
  toasts = [];
}

run-failed_clear_example :
    run
      (handle utc)
      (resume utc)
      (record {
        state = loading_view;
        waiting = requested 3 (query_of utc loading_view) nobody ∷ [];
      })
      (call clear_confirmed
        ∷ settle 0 (fulfilled (answer (codes "2")), 0)
        ∷ settle 0 (rejected offline, 1)
        ∷ [])
    ≡ record {
      state = record loading_view { request = 4; toasts = error_message offline ∷ [] };
      waiting = [];
    }
run-failed_clear_example =
    run-failed_clear utc loading_view (query_of utc loading_view) (answer (codes "2")) 0 1 offline
      refl

sum-report_of_example :
    sum_by (λ r. r.total) (report_of (λ v n. []) [] (answer [])).unmatched_sites
      + sum_by (λ r. r.total) (report_of (λ v n. []) [] (answer [])).ecosystem_services
      + sum_by (λ r. r.total) (report_of (λ v n. []) [] (answer [])).matched_apps
    ≡ 60
sum-report_of_example = sum-report_of (λ v n. []) [] (answer []) (λ name up down total. total)
