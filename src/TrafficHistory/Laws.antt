-- ===== src/TrafficHistory/Laws.antt =====
-- What the history view shows and asks for.
use sbm.Base.{
  ℕ, ◌≤◌, ◌≡◌, ◌≢◌, refl, ap, true, some, List, ◌∷◌, ◌++◌, take, drop, get_elem?, ◌==◌, arith,
  All-get_elem?, Option-cases, Bool-cases, inl, inr,
}
use mathlib.Core.List.{append_assoc}
use sbm.Base.Text.{Text, codes}
use sbm.Base.Decimal.{decimal, pad2, number-decimal, number-pad2, decimal_four, pad2_two}
use sbm.Async.{Sys, Event, settle, step, step-settle, step-gone, run}
use sbm.Latest.{count_at}
use sbm.Latest.Loader.{IsSound}
use sbm.Calendar.{days_in_month}
use sbm.DatePicker.{in_range, iso_month, iso_day}
use sbm.DatePicker.View.{in_range-bounds}
use sbm.TrafficHistory.{
  Browser, View, day, query_of, range_of, last_day, digits, Waiting, Reply, resume, Action, handle,
}
use sbm.TrafficHistory.Invariant.{loader, load_done_ne, start, run-IsSound}

-- The request at an index is the latest, and asks for what is selected.
pub record Answers (b : Browser) (s : Sys View Waiting) (i : ℕ) : Type 0 where
  pub sent : Waiting
  pub waits : get_elem? s.waiting i ≡ some sent
  pub is_latest : sent.id ≡ s.state.request
  pub is_selected : sent.sent ≡ query_of b s.state

settle-Answers :
    (b : Browser) (s : Sys View Waiting) (i : ℕ) (r : Reply)
    → IsSound (loader b) s
    → (step (handle b) (resume b) s (settle i r)).state.history ≢ s.state.history
    → Answers b s i
unfolding resume
settle-Answers b s i r h shown = elim (Option-cases (get_elem? s.waiting i)) [
  | inl gone ↦ absurd (shown (rw (step-gone (handle b) (resume b) s i r gone) refl))
  | inr (c, here) ↦ elim (Bool-cases (c.id == s.state.request)) [
    | inl same ↦
        let e : c.id ≡ s.state.request = ground arith in
        record {
          sent = c;
          waits = here;
          is_latest = e;
          is_selected =
              All-get_elem? (λ x. x.id ≡ s.state.request → x.sent ≡ query_of b s.state) s.waiting i
                h.current here e;
        }
    | inr differs ↦
        let e : c.id ≢ s.state.request = ground arith in
        absurd (
          shown (
            rw (step-settle (handle b) (resume b) s i r here)
              (ap View.history (load_done_ne b c r s.state e))))
  ]
]

-- However loads, answers and the user's choices interleave, an answer changes the shown history only if
-- it answers the latest request, and that request asks for the period that is selected when it comes.
pub run-Answers :
    (b : Browser) (month : Text) (es : List (Event Action Reply)) (i : ℕ) (r : Reply)
    → (step
        (handle b)
        (resume b)
        (run (handle b) (resume b) (start month) es)
        (settle i r)).state.history
      ≢ (run (handle b) (resume b) (start month) es).state.history
    → Answers b (run (handle b) (resume b) (start month) es) i
run-Answers b month es i r = settle-Answers b _ i r (run-IsSound b month es)

-- In every interleaving, a mounted history view that shows its spinner has exactly one latest request
-- in flight, whose answer ends it.
pub run-spinner :
    (b : Browser) (month : Text) (es : List (Event Action Reply))
    → (run (handle b) (resume b) (start month) es).state.loading ≡ true
    → (run (handle b) (resume b) (start month) es).state.ticking ≡ true
    → count_at
        (loader b).tag
        (run (handle b) (resume b) (start month) es).state.request
        (run (handle b) (resume b) (start month) es).waiting
      ≡ 1
run-spinner b month es p q = (run-IsSound b month es).awaited (rw (p, q) refl)

digits-decimal : (n : ℕ) → digits (decimal n) ≡ n
digits-decimal n = ground (arith, number-decimal n)

digits-pad2 : (n : ℕ) → digits (pad2 n) ≡ n
digits-pad2 n = ground (arith, number-pad2 n)

last_day-iso_month :
    (y m : ℕ) → 1000 ≤ y → y ≤ 9999 → m ≤ 99 → last_day (iso_month y m) ≡ days_in_month y m
unfolding last_day iso_month
last_day-iso_month y m h k l =
    let year_part : take 4 (decimal y ++ b'-' ∷ pad2 m) ≡ decimal y =
      rw (decimal_four y h k) refl in
    let month_part : take 2 (drop 5 (decimal y ++ b'-' ∷ pad2 m)) ≡ pad2 m =
      rw (decimal_four y h k, pad2_two m l) refl in
    rw (year_part, month_part, digits-decimal y, digits-pad2 m) refl

iso_month-append : (y m d : ℕ) → iso_month y m ++ b'-' ∷ pad2 d ≡ iso_day y m d
unfolding iso_month iso_day
iso_month-append y m d = append_assoc (decimal y) (b'-' ∷ pad2 m) (b'-' ∷ pad2 d)

first_day : (y m : ℕ) → iso_month y m ++ codes "-01" ≡ iso_day y m 1
unfolding pad2
first_day y m = iso_month-append y m 1

-- In daily mode a picked month is asked for from its first day to its last, leap years included.
pub range_of-iso_month :
    (v : View) (y m : ℕ)
    → in_range y ≡ true
    → m ≤ 12
    → v.mode ≡ day
    → v.month ≡ iso_month y m
    → range_of v ≡ (iso_day y m 1, iso_day y m (days_in_month y m))
unfolding range_of
range_of-iso_month v y m r h md e =
    let (low, high) = in_range-bounds y r in
    rw
      (
        md,
        range_of,
        e,
        last_day-iso_month y m (omega arith) high (omega arith),
        first_day,
        iso_month-append,
      )
      refl
