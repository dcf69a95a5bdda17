-- ===== src/Page/DashboardToasts.antt =====
-- The messages of the overview.
use sbm.PollStatus.{tick}
use sbm.Base.{
  ℕ, suc, ◌≡◌, refl, Bool, true, false, ◌&&◌, ◌||◌, not, ◌==◌, Option, none, some, List, [], ◌∷◌,
  ◌++◌, All, arith, if◌then◌else◌,
}
use sbm.Base.Text.{Text, codes}
use sbm.Message.{Message, Thrown, t, error_message}
use sbm.Async.{Event, fulfilled, rejected, run}
use sbm.Catalog.Covered.{covered, all_covered}
use sbm.Page.Toasts.{error_message-covered, said_too, alone, Emits, Given, run-Emits}
use sbm.Types.Gateway.{Dashboard}
use sbm.Dashboard.{SubFormat, format_sub_url}
use sbm.Dashboard.View.{
  View, setup, Caller, ignoring, refresh, mutate, Waiting, listed, rendered, returned,
  server_listed, refreshed, posted, drawn, Reply, load, same_card, accept, fail, load_done,
  render_done, load_server, load_server_done, after_server, returned_to, refresh_traffic,
  start_mutation, post_done, select_sub_format, draw_done, poll, calibrated, save_qr, Action,
  mounted, interval, unmounted, refresh_clicked, restart_confirmed, reset_confirmed, save_clicked,
  calibrate_clicked, calibrate_closed, calibrate_done, format_clicked, handle, resume,
}
use sbm.Dashboard.Invariant.{start}

-- A change carries the message that tells of its success.
abbrev pub carried : Waiting → List Message
carried (posted url m) = m ∷ []
carried _ = []

abbrev pub given : Action → List Message
given (calibrate_done m) = m ∷ []
given _ = []

abbrev Says : View × List Waiting → Type 0
Says p = Emits handle resume (λ v. v.toasts) carried given p

branch : (b : Bool) (p q : View × List Waiting) → Says p → Says q → Says (if b then p else q)
branch true p q h k = h
branch false p q h k = k

poll-Says : (now : ℕ) (v : View) → all_covered v.toasts ≡ true → Says (poll now v)
unfolding poll load load_server all_covered
poll-Says now v h =
    let w = record v { status = tick now v.status } in
    branch (v.pending == 0 && not v.mutating)
      ((load ignoring w).0, (load ignoring w).1 ++ (server_listed ignoring ∷ [])) (w, [])
      (h, (refl, (refl, tt))) (h, tt)

refresh_traffic-Says : (v : View) → all_covered v.toasts ≡ true → Says (refresh_traffic v)
unfolding refresh_traffic load all_covered
refresh_traffic-Says v h =
    branch (v.refreshing_traffic || v.mutating) (v, [])
      (load refresh (record v { refreshing_traffic = true })) (h, tt) (h, (refl, tt))

start_mutation-Says :
    (url : Text) (m : Message) (v : View)
    → covered m ≡ true
    → all_covered v.toasts ≡ true
    → Says (start_mutation url m v)
unfolding start_mutation all_covered
start_mutation-Says url m v g h =
    branch v.mutating (v, [])
      (record v { mutating = true; revision = suc v.revision }, posted url m ∷ []) (h, tt)
      (h, (rw g refl, tt))

select-Says :
    (f : SubFormat) (v : View) → all_covered v.toasts ≡ true → Says (select_sub_format f v)
unfolding select_sub_format all_covered
select-Says f v h = go v.data_shown refl
  where
    go : (o : Option Dashboard) → v.data_shown ≡ o → Says (select_sub_format f v)
    go none e = rw e (h, tt)
    go (some d) e = rw e (h, (refl, tt))

save_qr-toasts : (v : View) → all_covered v.toasts ≡ true → all_covered (save_qr v).toasts ≡ true
unfolding save_qr all_covered
save_qr-toasts v h = go v.data_shown v.qr refl refl
  where
    go :
        (o : Option Dashboard) (q : Text)
        → v.data_shown ≡ o
        → v.qr ≡ q
        → all_covered (save_qr v).toasts ≡ true
    go none q e f = rw e h
    go (some d) [] e f = rw (e, f) h
    go (some d) (c ∷ s) e f = rw (e, f) h

handle-Says :
    (k : Action) (v : View)
    → all_covered (given k) ≡ true
    → all_covered v.toasts ≡ true
    → Says (handle k v)
unfolding handle load calibrated all_covered
handle-Says (mounted now) v g h = let (a, b) = poll-Says now v h in (a, b)
handle-Says (interval now) v g h = branch v.ticking (poll now v) (v, []) (poll-Says now v h) (h, tt)
handle-Says unmounted v g h = (h, tt)
handle-Says refresh_clicked v g h = refresh_traffic-Says v h
handle-Says restart_confirmed v g h =
    start_mutation-Says (codes "/api/core/restart") (t "dashboard.restartDone") v refl h
handle-Says reset_confirmed v g h =
    start_mutation-Says (codes "/api/traffic/reset") (t "dashboard.resetDone") v refl h
handle-Says save_clicked v g h = (save_qr-toasts v h, tt)
handle-Says calibrate_clicked v g h = (h, tt)
handle-Says calibrate_closed v g h = (h, tt)
handle-Says (calibrate_done m) v g h = (said_too m v.toasts (alone (covered m) g) h, (refl, tt))
handle-Says (format_clicked f) v g h = select-Says f v h

accept-toasts :
    (n q : ℕ) (card : Text) (d : Dashboard) (now : ℕ) (v : View)
    → (accept n q card d now v).toasts ≡ v.toasts
unfolding accept
accept-toasts n q card d now v = ground arith

fail-toasts : (n now : ℕ) (v : View) → (fail n now v).toasts ≡ v.toasts
unfolding fail
fail-toasts n now v = ground arith

returned_to-Says :
    (c : Caller) (o : Option Thrown) (v : View)
    → all_covered v.toasts ≡ true
    → Says (returned_to c o v)
unfolding returned_to load_server all_covered
returned_to-Says ignoring o v h = (h, tt)
returned_to-Says refresh none v h = (h, (refl, tt))
returned_to-Says refresh (some e) v h =
    (said_too (error_message e) v.toasts (error_message-covered e) h, tt)
returned_to-Says mutate none v h = (h, tt)
returned_to-Says mutate (some e) v h =
    (said_too (error_message e) v.toasts (error_message-covered e) h, tt)

load_server_done-toasts : (r : Reply) (v : View) → (load_server_done r v).toasts ≡ v.toasts
unfolding load_server_done
load_server_done-toasts (fulfilled b, now) v = ground arith
load_server_done-toasts (rejected e, now) v = refl

draw_done-toasts : (n : ℕ) (r : Reply) (v : View) → (draw_done n r v).toasts ≡ v.toasts
unfolding draw_done
draw_done-toasts n (fulfilled b, now) v = ground arith
draw_done-toasts n (rejected e, now) v = refl

after_server-carried : (c : Caller) → All (λ w. all_covered (carried w) ≡ true) (after_server c)
unfolding all_covered
after_server-carried ignoring = tt
after_server-carried refresh = (refl, tt)
after_server-carried mutate = tt

resume-Says :
    (c : Waiting) (r : Reply) (v : View)
    → all_covered (carried c) ≡ true
    → all_covered v.toasts ≡ true
    → Says (resume c r v)
unfolding resume load_done render_done post_done load all_covered
resume-Says (listed n c) (fulfilled b, now) v g h =
    let q = suc v.qr_revision in
    branch (same_card v.data_shown b.as_dashboard)
      (accept n v.qr_revision v.qr b.as_dashboard now v, returned c none ∷ [])
      (
        record v { qr_revision = q },
        rendered n q b.as_dashboard (format_sub_url b.as_dashboard.subscription_url v.sub_format) c
            ∷ [],
      )
      (rw (accept-toasts n v.qr_revision v.qr b.as_dashboard now v) h, (refl, tt)) (h, (refl, tt))
resume-Says (listed n c) (rejected e, now) v g h = (rw (fail-toasts n now v) h, (refl, tt))
resume-Says (rendered n q d url c) (fulfilled b, now) v g h =
    (rw (accept-toasts n q b.as_card d now v) h, (refl, tt))
resume-Says (rendered n q d url c) (rejected e, now) v g h =
    (rw (fail-toasts n now v) h, (refl, tt))
resume-Says (returned c o) r v g h = returned_to-Says c o v h
resume-Says (server_listed c) r v g h = (rw (load_server_done-toasts r v) h, after_server-carried c)
resume-Says refreshed r v g h = (h, tt)
resume-Says (posted url m) (fulfilled b, now) v g h =
    (said_too m v.toasts (alone (covered m) g) h, (refl, tt))
resume-Says (posted url m) (rejected e, now) v g h =
    (said_too (error_message e) v.toasts (error_message-covered e) h, tt)
resume-Says (drawn n url name) r v g h = (rw (draw_done-toasts n r v) h, tt)

pub overview-Emits :
    (now : ℕ) (es : List (Event Action Reply))
    → All (Given handle resume (λ v. v.toasts) carried given) es
    → all_covered (run handle resume (start now) es).state.toasts ≡ true
unfolding setup all_covered
overview-Emits now es g =
    run-Emits handle resume (λ v. v.toasts) carried given handle-Says resume-Says (start now) es g
      (refl, tt)
