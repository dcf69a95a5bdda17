-- ===== src/Calibrate.antt =====
-- The script of web/src/components/CalibrateUsageModal.vue: the dialog that sets how much of a plan has been
-- used. Amounts are exact numbers of hundredths here, where the source's are doubles.
pub mod Page
pub mod Laws
mod Tests
use sbm.Base.{
  ℕ, ◌+◌, ◌*◌, ◌/◌, ◌^◌, Bool, true, false, Option, none, some, List, [], ◌∷◌, if◌then◌else◌,
}
use sbm.Base.Text.{Text}
use sbm.Message.{Message, t, Thrown, error_message}
use sbm.Async.{Settled, fulfilled, rejected}
use sbm.Types.{TrafficUnit, gb, gib, JsonNumber}

pub record Props : Type 0 where
  pub name : Text
  pub endpoint : Text
  pub unit : TrafficUnit
  pub used_bytes : ℕ
  pub calibrated : Bool

-- What is emitted: `done` with its message, or `close`.
pub data Emitted : Type 0 where
  done : Message → Emitted
  close : Emitted

-- `amount` is none where the field has been emptied; `error` where there is no error.
pub record View : Type 0 where
  pub amount : Option JsonNumber
  pub busy : Bool
  pub error : Option Message
  pub emitted : List Emitted

abbrev pub unit_bytes : TrafficUnit → ℕ
unit_bytes gb = 1000000000
unit_bytes gib = 1073741824

-- `Math.round(n / d)`, which rounds halves up.
abbrev pub round : ℕ → ℕ → ℕ
round n d = (2 * n + d) / (2 * d)

unfoldable pub setup : Props → View
setup p = record {
  amount = some (record { digits = round (p.used_bytes * 100) (unit_bytes p.unit); behind = 2 });
  busy = false;
  error = none;
  emitted = [];
}

-- The body of the request.
pub data Sent : Type 0 where
  clear : Sent
  used : ℕ → Sent

unfoldable pub bytes_of : TrafficUnit → Option JsonNumber → ℕ
bytes_of u none = 0
bytes_of u (some a) = round (a.digits * unit_bytes u) (10 ^ a.behind)

unfoldable pub body_of : Props → Bool → View → Sent
unfolding bytes_of
body_of p true v = clear
body_of p false v = used (bytes_of p.unit v.amount)

-- What waits behind the `await` of `submit`, with what was sent.
pub data Waiting : Type 0 where
  posted : Bool → Sent → Waiting

unfoldable pub submit : Props → Bool → View → View × List Waiting
submit p c v =
    if v.busy
    then (v, [])
    else (record v { busy = true; error = none }, posted c (body_of p c v) ∷ [])

-- The rest of `submit`.
unfoldable pub submit_done : Bool → Settled Unit Thrown → View → View
submit_done c (fulfilled b) v = record v {
  busy = false;
  emitted =
      done (t (if c then "network.calibrateCleared" else "network.calibrateDone")) ∷ v.emitted;
}
submit_done c (rejected e) v = record v { busy = false; error = some (error_message e) }
