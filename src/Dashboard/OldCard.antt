-- ===== src/Dashboard/OldCard.antt =====
-- The card of an old subscription beside a new overview.
use sbm.Base.{ℕ, suc, ◌≡◌, refl, sym, ap, false, some, [], ◌∷◌, get_elem?, arith}
use mathlib.Core.Path.{subst}
use sbm.Async.{Sys, call, settle, step, fulfilled, run}
use sbm.Types.Gateway.{Dashboard}
use sbm.Dashboard.{SubFormat, format_sub_url}
use sbm.Dashboard.View.{
  View, ignoring, Waiting, listed, rendered, drawn, Body, same_card, accept, load_done, render_done,
  select_sub_format, draw_done, format_clicked, handle, resume,
}

-- The overview `d` while a load is in flight.
abbrev pub loading : View → Dashboard → Sys View Waiting
loading v d = record {
  state = record v { data_shown = some d; disposed = false };
  waiting = listed v.revision ignoring ∷ [];
}

-- Its answer comes, and while its card is drawn a format is chosen.
abbrev pub chosen : View → Dashboard → Body → SubFormat → ℕ → Sys View Waiting
chosen v d b f now =
    run handle resume (loading v d) (settle 0 (fulfilled b, now) ∷ call (format_clicked f) ∷ [])

-- The same state, as the choice leaves it.
abbrev pub both_wait : View → Dashboard → Body → SubFormat → Sys View Waiting
both_wait v d b f = record {
  state = record v {
    data_shown = some d;
    disposed = false;
    sub_format = f;
    qr_revision = suc (suc v.qr_revision);
  };
  waiting =
      rendered v.revision (suc v.qr_revision) b.as_dashboard
        (format_sub_url b.as_dashboard.subscription_url v.sub_format) ignoring
      ∷ drawn (suc (suc v.qr_revision)) (format_sub_url d.subscription_url f) d.subscription_name
      ∷ [];
}

chosen-waiting :
    (v : View) (d : Dashboard) (b : Body) (f : SubFormat) (now : ℕ)
    → same_card (some d) b.as_dashboard ≡ false
    → chosen v d b f now ≡ both_wait v d b f
unfolding run step handle resume load_done select_sub_format
chosen-waiting v d b f now k = rw k refl

-- The new overview with the last card.
abbrev pub Mismatched : Body → Body → Sys View Waiting → Type 0
Mismatched b e s = (s.state.data_shown ≡ some b.as_dashboard) × (s.state.qr ≡ e.as_card)

both_wait-Mismatched :
    (v : View) (d : Dashboard) (b c e : Body) (f : SubFormat) (now : ℕ)
    → Mismatched b e (
        run handle resume
          (both_wait v d b f)
          (settle 0 (fulfilled c, now) ∷ settle 0 (fulfilled e, now) ∷ []))
unfolding run step handle resume render_done draw_done accept
both_wait-Mismatched v d b c e f now = (ground arith, ground arith)

-- A format that is chosen while a load draws the card of a new subscription asks for the url that was
-- shown before, and takes the number of the load's card: when both cards have been drawn the new overview
-- stands beside the card `e`, which was drawn for the old url.
pub run-old_card :
    (v : View) (d : Dashboard) (b c e : Body) (f : SubFormat) (now : ℕ)
    → same_card (some d) b.as_dashboard ≡ false
    → (get_elem? (chosen v d b f now).waiting 1
        ≡ some (
            drawn
              (suc (suc v.qr_revision))
              (format_sub_url d.subscription_url f)
              d.subscription_name))
      × ((run handle resume
            (chosen v d b f now)
            (settle 0 (fulfilled c, now) ∷ settle 0 (fulfilled e, now) ∷ [])).state.data_shown
          ≡ some b.as_dashboard)
      × ((run handle resume
            (chosen v d b f now)
            (settle 0 (fulfilled c, now) ∷ settle 0 (fulfilled e, now) ∷ [])).state.qr
          ≡ e.as_card)
run-old_card v d b c e f now k =
    let same = chosen-waiting v d b f now k in
    let both =
      subst
        (λ s.
          Mismatched b e
            (run handle resume s (settle 0 (fulfilled c, now) ∷ settle 0 (fulfilled e, now) ∷ [])))
        (sym same) (both_wait-Mismatched v d b c e f now) in
    (ap (λ s. get_elem? s.waiting 1) same, both.0, both.1)
