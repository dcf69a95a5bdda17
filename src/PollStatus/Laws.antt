-- ===== src/PollStatus/Laws.antt =====
-- The status of a view against the history of its polls.
use sbm.Base.{
  ℕ, ◌-◌, ◌<◌, ◌≡◌, refl, Bool, true, false, ◌&&◌, Option, none, some, List, [], ◌∷◌, All, arith,
  leb,
}
use sbm.PollStatus.{PollStatus, use_poll_status, stale, tick, succeeded, failed}

-- What a view tells its status, with the time at which it does.
pub data Report : Type 0 where
  ticked good bad : ℕ → Report

-- The last report stands first.
unfoldable pub after : ℕ → List Report → PollStatus
unfolding use_poll_status tick succeeded failed
after start [] = use_poll_status start
after start (ticked n ∷ past) = tick n (after start past)
after start (good n ∷ past) = succeeded n (after start past)
after start (bad n ∷ past) = failed n (after start past)

abbrev pub time : Report → ℕ
time (ticked n) = n
time (good n) = n
time (bad n) = n

abbrev pub current : ℕ → List Report → ℕ
current start [] = start
current start (r ∷ past) = time r

-- Whether the last poll that ended has failed.
abbrev pub last_failed : List Report → Bool
last_failed [] = false
last_failed (ticked n ∷ past) = last_failed past
last_failed (good n ∷ past) = false
last_failed (bad n ∷ past) = true

abbrev pub last_good : List Report → Option ℕ
last_good [] = none
last_good (good n ∷ past) = some n
last_good (ticked n ∷ past) = last_good past
last_good (bad n ∷ past) = last_good past

-- No success, or none in the last 15 seconds.
abbrev pub long_ago : ℕ → Option ℕ → Bool
long_ago now none = true
long_ago now (some n) = leb 15000 (now - n)

abbrev or_zero : Option ℕ → ℕ
or_zero none = 0
or_zero (some n) = n

abbrev pub IsPositive : Report → Type 0
IsPositive r = 0 < time r

after_fields :
    (start : ℕ) (past : List Report)
    → ((after start past).now ≡ current start past)
      × ((after start past).failure ≡ last_failed past)
      × ((after start past).last_success ≡ or_zero (last_good past))
unfolding after
after_fields start [] = (refl, refl, refl)
after_fields start (ticked n ∷ past) = let (_, f, l) = after_fields start past in (refl, f, l)
after_fields start (good n ∷ past) = (refl, refl, refl)
after_fields start (bad n ∷ past) = let (_, f, l) = after_fields start past in (refl, refl, l)

last_good_pos : (past : List Report) {n : ℕ} → All IsPositive past → last_good past ≡ some n → 0 < n
last_good_pos [] h e = cc
last_good_pos (good m ∷ past) h e = ground arith
last_good_pos (ticked m ∷ past) h e = last_good_pos past h.1 e
last_good_pos (bad m ∷ past) h e = last_good_pos past h.1 e

stale_value :
    (s : PollStatus) (o : Option ℕ)
    → s.last_success ≡ or_zero o
    → ((n : ℕ) → o ≡ some n → 0 < n)
    → stale s ≡ (s.failure && long_ago s.now o)
unfolding stale
stale_value s none e h = ground arith
stale_value s (some n) e h = let p : 0 < n = h n refl in ground arith

-- After any history of ticks and polls with positive times, the view is stale exactly when the last
-- poll that ended has failed and no poll has succeeded in the 15 seconds before the last report.
pub stale-after :
    (start : ℕ) (past : List Report)
    → All IsPositive past
    → stale (after start past)
      ≡ (last_failed past && long_ago (current start past) (last_good past))
stale-after start past h =
    let (n, f, l) = after_fields start past in
    rw (← n, ← f) (stale_value (after start past) (last_good past) l (λ m. last_good_pos past h))
