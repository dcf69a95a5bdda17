-- ===== src/PollStatus/Tests.antt =====
-- Runs of the poll status.
use sbm.Base.{◌≡◌, refl, true, false, List, [], ◌∷◌, arith}
use sbm.PollStatus.{stale}
use sbm.PollStatus.Laws.{Report, ticked, good, bad, after, stale-after}

abbrev outage : List Report
outage = ticked 20000 ∷ bad 6000 ∷ good 5000 ∷ []

long_outage : stale (after 1 outage) ≡ true
unfolding stale after
long_outage = refl

fresh_after_one_failure : stale (after 1 (bad 6000 ∷ good 5000 ∷ [])) ≡ false
unfolding stale after
fresh_after_one_failure = refl

stale-after_example : stale (after 1 outage) ≡ true
stale-after_example = stale-after 1 outage (omega arith)
