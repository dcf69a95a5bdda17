-- ===== src/PollStatus.antt =====
-- web/src/poll-status.ts: when a polled view says that its data is out of date. The refs are the
-- fields, and `Date.now()` is an argument.
pub mod Laws
mod Tests
use sbm.Base.{ℕ, ◌-◌, Bool, true, false, ◌&&◌, ◌||◌, ◌==◌, leb}

pub record PollStatus : Type 0 where
  pub last_success : ℕ
  pub failure : Bool
  pub now : ℕ

unfoldable pub use_poll_status : ℕ → PollStatus
use_poll_status now = record { last_success = 0; failure = false; now = now }

-- A difference below 0 is below 15000 as well, so the truncated one gives the same test.
unfoldable pub stale : PollStatus → Bool
stale s = s.failure && (s.last_success == 0 || leb 15000 (s.now - s.last_success))

unfoldable pub tick : ℕ → PollStatus → PollStatus
tick now s = record s { now = now }

unfoldable pub succeeded : ℕ → PollStatus → PollStatus
unfolding tick
succeeded now s = record (tick now s) { last_success = now; failure = false }

unfoldable pub failed : ℕ → PollStatus → PollStatus
unfolding tick
failed now s = record (tick now s) { failure = true }
