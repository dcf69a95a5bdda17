-- ===== src/Dashboard/Card.antt =====
-- Which subscription and format the card with the QR code is of.
use sbm.Base.{
  ℕ, ◌≡◌, ◌≢◌, refl, inl, inr, false, none, some, ◌++◌, get_elem?, erase_idx, All, All-get_elem?,
  arith, Option-cases,
}
use sbm.Base.Text.{Text}
use sbm.Async.{Sys, Event, call, settle, step, step-settle, step-gone, fulfilled, rejected}
use sbm.Types.Gateway.{Dashboard}
use sbm.Dashboard.View.{
  View, Waiting, listed, rendered, returned, server_listed, refreshed, posted, drawn, Reply, Action,
  mounted, interval, unmounted, refresh_clicked, restart_confirmed, reset_confirmed, save_clicked,
  calibrate_clicked, calibrate_closed, calibrate_done, format_clicked, handle, resume,
}
use sbm.Dashboard.Kept.{Same, Plain, NoRender, Heard}
use sbm.Dashboard.Drawings.{
  wanted, Latest, clicks-Latest, draws-Latest, plain_lem, other_settles, other_calls,
}

module _ (card : Text × Text → Text) (d : Dashboard) where
  -- An overview that is answered is of the same subscription, and a drawing gives the card it was asked for.
  abbrev pub Answers : Waiting → Reply → Type 0
  Answers (drawn n url name) (fulfilled b, now) = b.as_card ≡ card (url, name)
  Answers (drawn n url name) (rejected e, now) = ⊥
  Answers c r = Heard d c r

  -- The view is not left, and the answers are those.
  abbrev pub Stays : Sys View Waiting → Event Action Reply → Type 0
  Stays s (call k) = k ≢ unmounted
  Stays s (settle i r) = elim (get_elem? s.waiting i) [ none ↦ Unit | some c ↦ Answers c r ]

  -- All that can happen while the subscription stays, from a state that shows its card with no drawing in flight.
  pub data Switched : Sys View Waiting → Type 0 where
    begins :
        (s : Sys View Waiting)
        → Same d s.state.data_shown
        → s.state.disposed ≡ false
        → All Plain s.waiting
        → s.state.qr ≡ card (wanted d s.state)
        → Switched s
    goes :
        (s : Sys View Waiting) (e : Event Action Reply)
        → Switched s
        → Stays s e
        → Switched (step handle resume s e)

  settles-Latest :
      (s : Sys View Waiting) (i : ℕ) (r : Reply) (c : Waiting)
      → Latest card d s
      → get_elem? s.waiting i ≡ some c
      → Answers c r
      → Latest card d (record {
        state = (resume c r s.state).0;
        waiting = erase_idx s.waiting i ++ (resume c r s.state).1;
      })
  unfolding resume
  settles-Latest s i (fulfilled b, now) (drawn n url name) h here a =
      draws-Latest card d s i n url name b now h here a
  settles-Latest s i (rejected e, now) (drawn n url name) h here a = absurd a
  settles-Latest s i r (rendered n q next url caller) h here a =
      absurd (All-get_elem? NoRender s.waiting i h.no_render here)
  settles-Latest s i r (listed n caller) h here a = other_settles card d s i r _ h here tt a
  settles-Latest s i r (returned caller o) h here a = other_settles card d s i r _ h here tt tt
  settles-Latest s i r (server_listed caller) h here a = other_settles card d s i r _ h here tt tt
  settles-Latest s i r refreshed h here a = other_settles card d s i r _ h here tt tt
  settles-Latest s i r (posted url m) h here a = other_settles card d s i r _ h here tt tt

  calls-Latest :
      (s : Sys View Waiting) (k : Action)
      → Latest card d s
      → k ≢ unmounted
      → Latest card d (step handle resume s (call k))
  calls-Latest s (format_clicked f) h stay = clicks-Latest card d s f h
  calls-Latest s unmounted h stay = absurd (stay refl)
  calls-Latest s (mounted now) h stay = other_calls card d s _ h tt
  calls-Latest s (interval now) h stay = other_calls card d s _ h tt
  calls-Latest s refresh_clicked h stay = other_calls card d s _ h tt
  calls-Latest s restart_confirmed h stay = other_calls card d s _ h tt
  calls-Latest s reset_confirmed h stay = other_calls card d s _ h tt
  calls-Latest s save_clicked h stay = other_calls card d s _ h tt
  calls-Latest s calibrate_clicked h stay = other_calls card d s _ h tt
  calls-Latest s calibrate_closed h stay = other_calls card d s _ h tt
  calls-Latest s (calibrate_done m) h stay = other_calls card d s _ h tt

  Switched-Latest : (s : Sys View Waiting) → Switched s → Latest card d s
  Switched-Latest s (begins _ h l p q) =
      let (u, o, a, z) = plain_lem card d s.state.qr_revision (wanted d s.state) s.waiting p in
      record { shows_d = h; lives = l; no_render = u; old = o; asks = a; drawing = inl q }
  Switched-Latest _ (goes s (call k) p stay) = calls-Latest s k (Switched-Latest s p) stay
  Switched-Latest _ (goes s (settle i r) p stay) = elim (Option-cases (get_elem? s.waiting i)) [
    | inl gone ↦ rw (step-gone handle resume s i r gone) (Switched-Latest s p)
    | inr (c, here) ↦
        let a : Answers c r = rw (here, Stays) at stay in
        rw (step-settle handle resume s i r here)
          (settles-Latest s i r c (Switched-Latest s p) here a)
  ]

  -- From a state that shows an overview with the url and the name of `d`, and its card, with no drawing in flight:
  -- whatever is clicked, polled and answered, in whatever order, as long as the view is not left, every
  -- overview that is answered has that url and name, and every drawing gives the card it was asked for, once no
  -- drawing is in flight the card that is shown is that of the chosen format.
  pub Switched-card :
      (s : Sys View Waiting)
      → Switched s
      → All Plain s.waiting
      → s.state.qr ≡ card (wanted d s.state)
  Switched-card s p none_left =
      let h = Switched-Latest s p in
      elim h.drawing [
        | inl shown ↦ shown
        | inr one ↦ absurd (
            let (u, o, a, z) =
              plain_lem card d s.state.qr_revision (wanted d s.state) s.waiting none_left in
            omega (arith, z, one))
      ]
