-- ===== src/Settings/Laws.antt =====
-- What the settings send, and what they tell of the plan.
use sbm.Base.{◌*◌, ◌≤◌, List, [], ◌∷◌, length, erase_idx, All, All-append, All-erase_idx, arith}
use native.Mathlib.Nat.{mul-le-mul_left}
use sbm.Base.Text.{Text}
use sbm.Async.{Sys, Event, fulfilled, rejected, step_inv, run, run_inv}
use sbm.Types.{TrafficQuota}
use sbm.Settings.{
  View, setup, Sent, get_settings, get_server, post_token, put_traffic, put_outbound, post_password,
  Reply, provider_stop, byte_length, load, load_server, save_traffic, save_outbound, token,
  change_password, resume, Action, mounted, interval, unmounted, traffic_submitted,
  outbound_submitted, token_confirmed, password_submitted, settings_typed, password_typed, handle,
}

-- A code unit is at most three bytes, and at least one.
pub byte_length-Bounds : (s : Text) → (length s ≤ byte_length s) × (byte_length s ≤ 3 * length s)
unfolding byte_length
byte_length-Bounds [] = (omega arith, omega arith)
byte_length-Bounds (c ∷ []) = (ground arith, ground arith)
byte_length-Bounds (c ∷ d ∷ s) =
    let (a, b) = byte_length-Bounds s in
    let (x, y) = byte_length-Bounds (d ∷ s) in (ground (arith, a, x), ground (arith, b, y))

-- The estimate is at least a half of the plan, and at most the plan.
provider_stop-Bounds :
    (q : TrafficQuota)
    → (q.amount.digits * 50 ≤ (provider_stop q).digits)
      × ((provider_stop q).digits ≤ q.amount.digits * 100)
unfolding provider_stop
provider_stop-Bounds q =
    (mul-le-mul_left q.amount.digits (ground arith), mul-le-mul_left q.amount.digits (ground arith))

abbrev pub IsLong : Sent → Type 0
IsLong (post_password old new) =
    (12 ≤ byte_length new) × (byte_length new ≤ 72) × (4 ≤ length new) × (length new ≤ 72)
IsLong q = Unit

change_password-IsLong : (v : View) → All IsLong (change_password v).1
unfolding change_password
change_password-IsLong v = ground (arith, byte_length-Bounds v.password.new_password)

handle-IsLong : (k : Action) (v : View) → All IsLong (handle k v).1
unfolding handle load load_server save_traffic save_outbound token
handle-IsLong mounted v = (tt, tt)
handle-IsLong interval v = ground arith
handle-IsLong unmounted v = tt
handle-IsLong traffic_submitted v = ground arith
handle-IsLong outbound_submitted v = ground arith
handle-IsLong token_confirmed v = (tt, tt)
handle-IsLong password_submitted v = change_password-IsLong v
handle-IsLong (settings_typed q i r o) v = tt
handle-IsLong (password_typed p) v = tt

resume-IsLong : (q : Sent) (r : Reply) (v : View) → All IsLong (resume q r v).1
unfolding resume load_server
resume-IsLong get_settings (fulfilled b) v = (tt, tt)
resume-IsLong get_server (fulfilled b) v = tt
resume-IsLong post_token (fulfilled b) v = tt
resume-IsLong (put_traffic q i r) (fulfilled b) v = (tt, tt)
resume-IsLong (put_outbound s) (fulfilled b) v = (tt, tt)
resume-IsLong (post_password old new) (fulfilled b) v = tt
resume-IsLong get_settings (rejected e) v = tt
resume-IsLong get_server (rejected e) v = tt
resume-IsLong post_token (rejected e) v = tt
resume-IsLong (put_traffic q i r) (rejected e) v = tt
resume-IsLong (put_outbound s) (rejected e) v = tt
resume-IsLong (post_password old new) (rejected e) v = tt

abbrev pub start : Sys View Sent
start = record { state = setup; waiting = [] }

-- Whatever is typed and clicked, a new password that is on its way to the server has 12 to 72 bytes in
-- UTF-8, so that it has no more than 72 code units, and no fewer than 4.
pub run-IsLong : (es : List (Event Action Reply)) → All IsLong (run handle resume start es).waiting
run-IsLong es =
    run_inv handle resume (λ s. All IsLong s.waiting)
      (λ s e h.
        step_inv handle resume (λ x. All IsLong x.waiting) s e h
          (λ k. All-append IsLong s.waiting (handle k s.state).1 h (handle-IsLong k s.state))
          (λ c i r here.
            All-append IsLong (erase_idx s.waiting i) (resume c r s.state).1
              (All-erase_idx IsLong s.waiting i h) (resume-IsLong c r s.state)))
      start es tt
