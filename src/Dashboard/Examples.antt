-- ===== src/Dashboard/Examples.antt =====
-- Runs of the overview in which its theorems apply.
use sbm.Base.{◌≡◌, refl, true, some, List, [], ◌∷◌, get_elem?}
use sbm.Base.Text.{Text, codes}
use sbm.Async.{Sys, Event, call, settle, fulfilled, step, run}
use sbm.PollStatus.{use_poll_status, stale, tick, succeeded, failed}
use sbm.Types.Gateway.{Dashboard}
use sbm.Dashboard.{
  clash, singbox, main_part, hash_part, has_query, separator, with_target, format_sub_url,
}
use sbm.Dashboard.View.{
  View, setup, ignoring, Waiting, drawn, Reply, load, accept, fail, load_done, render_done,
  load_server, load_server_done, returned_to, refresh_traffic, start_mutation, post_done,
  select_sub_format, draw_done, poll, calibrated, save_qr, Action, mounted, interval,
  reset_confirmed, refresh_clicked, format_clicked, handle, resume,
}
use sbm.Dashboard.Invariant.{start, Counted, run-OneEach}
use sbm.Dashboard.Shown.{run-Ignores}
use sbm.Dashboard.Card.{Switched, begins, goes, Switched-card}
use sbm.Dashboard.OldCard.{chosen, run-old_card}
use sbm.Dashboard.Runs.{snapshot, answer, sent, full, emptied, race}

view : Unit {0}
unfolding run step handle resume setup load accept fail load_done render_done load_server
    load_server_done returned_to refresh_traffic start_mutation post_done select_sub_format
    draw_done poll calibrated save_qr use_poll_status stale tick succeeded failed main_part
    hash_part has_query separator with_target format_sub_url
view = tt

run-OneEach_example : Counted (run handle resume (start 0) race)
run-OneEach_example = run-OneEach 0 race

-- The load that is held back, and what happens after the reset.
abbrev held : List (Event Action Reply)
held =
    call (mounted 0)
    ∷ settle 1 (sent full [] 0)
    ∷ settle 0 (sent full [] 0)
    ∷ settle 0 (sent full (codes "demo") 0)
    ∷ settle 0 (sent full [] 0)
    ∷ call (interval 5000)
    ∷ []

abbrev afterwards : List (Event Action Reply)
afterwards = settle 2 (sent full [] 0) ∷ settle 2 (sent emptied [] 5000) ∷ []

abbrev at_last : Sys View Waiting
at_last =
    run handle resume (step handle resume (run handle resume (start 0) held) (call reset_confirmed))
      afterwards

run-Ignores_example :
    ((load_done 2 ignoring (sent full [] 5000) at_last.state).0.data_shown ≡ some emptied)
    × ((render_done 2 1 full ignoring (sent full [] 5000) at_last.state).0
        ≡ record at_last.state { pending = 0 })
unfolding view
run-Ignores_example =
    run-Ignores 0 held 0 reset_confirmed afterwards 1 full ignoring (sent full [] 5000) refl refl

-- Cards that are told apart by their urls.
abbrev card : Text × Text → Text
card (url, name) = url

abbrev shown_full : View
unfolding setup
shown_full = record (setup 0) { data_shown = some full; qr = codes "https://n/s" }

abbrev clash_url : Text
clash_url = codes "https://n/s?target=clash"

abbrev singbox_url : Text
singbox_url = codes "https://n/s?target=singbox"

-- Two formats are chosen, and the earlier card is drawn last.
abbrev fast : Sys View Waiting
fast =
    step handle resume
      (step handle resume (record { state = shown_full; waiting = [] })
        (call (format_clicked clash)))
      (call (format_clicked singbox))

abbrev slow : Sys View Waiting
slow =
    step handle resume (step handle resume fast (settle 1 (sent full singbox_url 0)))
      (settle 0 (sent full clash_url 0))

qr-slow : slow.state.qr ≡ singbox_url
unfolding view
qr-slow = refl

-- Two formats are chosen, the overview is refreshed between them, and the earlier card is drawn last.
abbrev refreshed_between : Sys View Waiting
refreshed_between =
    run handle resume (record { state = shown_full; waiting = [] })
      (call (format_clicked clash)
        ∷ call refresh_clicked
        ∷ call (format_clicked singbox)
        ∷ settle 1 (sent emptied [] 0)
        ∷ settle 1 (sent full singbox_url 0)
        ∷ settle 0 (sent full clash_url 0)
        ∷ [])

refreshed-Switched : Switched card full refreshed_between
unfolding view
refreshed-Switched =
    goes _ (settle 0 (sent full clash_url 0))
      (goes _ (settle 1 (sent full singbox_url 0))
        (goes _ (settle 1 (sent emptied [] 0))
          (goes _ (call (format_clicked singbox))
            (goes _ (call refresh_clicked)
              (goes _ (call (format_clicked clash))
                (begins (record { state = shown_full; waiting = [] }) (refl, refl) refl tt refl)
                (λ e. cc))
              (λ e. cc))
            (λ e. cc))
          (refl, refl))
        refl)
      refl

Switched-card_example : refreshed_between.state.qr ≡ codes "https://n/s?target=singbox"
unfolding view
Switched-card_example = Switched-card card full refreshed_between refreshed-Switched (tt, tt)

-- The subscription has a new url.
abbrev renewed : Dashboard
renewed = snapshot (codes "https://n/t") 900 true

run-old_card_example :
    (get_elem? (chosen shown_full full (answer renewed []) clash 0).waiting 1
      ≡ some (drawn 2 clash_url (codes "Demo")))
    × ((run handle resume (chosen shown_full full (answer renewed []) clash 0) (
          settle 0 (fulfilled (answer renewed (codes "https://n/t")), 0)
          ∷ settle 0 (fulfilled (answer renewed clash_url), 0)
          ∷ [])).state.data_shown
        ≡ some renewed)
    × ((run handle resume (chosen shown_full full (answer renewed []) clash 0) (
          settle 0 (fulfilled (answer renewed (codes "https://n/t")), 0)
          ∷ settle 0 (fulfilled (answer renewed clash_url), 0)
          ∷ [])).state.qr
        ≡ clash_url)
unfolding view
run-old_card_example =
    run-old_card shown_full full (answer renewed []) (answer renewed (codes "https://n/t"))
      (answer renewed clash_url) clash 0 refl
