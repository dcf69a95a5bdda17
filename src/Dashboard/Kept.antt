-- ===== src/Dashboard/Kept.antt =====
-- The parts of the overview that leave the card of a subscription alone, as long as it stays the subscription.
use sbm.Base.{
  ℕ, ◌≡◌, refl, Bool, true, false, Option, none, some, List, [], if◌then◌else◌, All, arith,
  Bool-cases, inl, inr, ◌==◌, ◌||◌, not,
}
use sbm.Base.Text.{Text, text_eq_refl}
use sbm.Message.{Thrown, Message}
use sbm.Async.{fulfilled, rejected}
use sbm.Types.Gateway.{Dashboard}
use sbm.Dashboard.View.{
  View, Caller, ignoring, refresh, mutate, Waiting, listed, rendered, returned, server_listed,
  refreshed, posted, drawn, Reply, load, same_card, accept, fail, load_done, load_server,
  load_server_done, after_server, returned_to, refresh_traffic, start_mutation, post_done, poll,
  calibrated, save_qr, Action, mounted, interval, unmounted, refresh_clicked, restart_confirmed,
  reset_confirmed, save_clicked, calibrate_clicked, calibrate_closed, calibrate_done,
  format_clicked, handle, resume,
}

-- What waits and draws no card.
abbrev pub Plain : Waiting → Type 0
Plain (drawn n url name) = ⊥
Plain (rendered n q next url caller) = ⊥
Plain _ = Unit

abbrev pub NoRender : Waiting → Type 0
NoRender (rendered n q next url caller) = ⊥
NoRender _ = Unit

-- A call that neither chooses a format nor leaves the view.
abbrev pub Elsewhere : Action → Type 0
Elsewhere (format_clicked f) = ⊥
Elsewhere unmounted = ⊥
Elsewhere _ = Unit

module _ (d : Dashboard) where
  -- An overview of the same subscription.
  abbrev pub Same : Option Dashboard → Type 0
  Same none = ⊥
  Same (some x) =
      (x.subscription_url ≡ d.subscription_url) × (x.subscription_name ≡ d.subscription_name)

  -- Code that leaves the card, its number and its format as they are, and waits for no other card.
  pub record Kept (v : View) (p : View × List Waiting) : Type 0 where
    pub same_data : Same p.0.data_shown
    pub same_qr : p.0.qr ≡ v.qr
    pub same_number : p.0.qr_revision ≡ v.qr_revision
    pub same_format : p.0.sub_format ≡ v.sub_format
    pub same_life : p.0.disposed ≡ v.disposed
    pub plain : All Plain p.1

  Kept-if :
      (b : Bool) (v : View) (p q : View × List Waiting)
      → Kept v p
      → Kept v q
      → Kept v (if b then p else q)
  Kept-if true v p q h k = h
  Kept-if false v p q h k = k

  Kept-if_state :
      (b : Bool) (v w u : View) (more : List Waiting)
      → Kept v (w, more)
      → Kept v (u, more)
      → Kept v (if b then w else u, more)
  Kept-if_state true v w u more h k = h
  Kept-if_state false v w u more h k = k

  keeps :
      (v w : View) (more : List Waiting)
      → Same w.data_shown
      → w.qr ≡ v.qr
      → w.qr_revision ≡ v.qr_revision
      → w.sub_format ≡ v.sub_format
      → w.disposed ≡ v.disposed
      → All Plain more
      → Kept v (w, more)
  keeps v w more h q n f l p = record {
    same_data = h;
    same_qr = q;
    same_number = n;
    same_format = f;
    same_life = l;
    plain = p;
  }

  poll-Kept : (now : ℕ) (v : View) → Same v.data_shown → Kept v (poll now v)
  unfolding poll load load_server
  poll-Kept now v h =
      Kept-if _ v _ _ (keeps v _ _ h refl refl refl refl (tt, (tt, tt)))
        (keeps v _ _ h refl refl refl refl tt)

  load-Kept : (caller : Caller) (v : View) → Same v.data_shown → Kept v (load caller v)
  unfolding load
  load-Kept caller v h = keeps v _ _ h refl refl refl refl (tt, tt)

  data_shown-save_qr : (v : View) → (save_qr v).data_shown ≡ v.data_shown
  unfolding save_qr
  data_shown-save_qr v = ground arith

  save_qr-Kept : (v : View) → Same v.data_shown → Kept v (save_qr v, [])
  unfolding save_qr
  save_qr-Kept v h =
      keeps v (save_qr v) [] (rw (data_shown-save_qr v) h) (ground arith) (ground arith)
        (ground arith) (ground arith) tt

  start_mutation-Kept :
      (url : Text) (m : Message) (v : View) → Same v.data_shown → Kept v (start_mutation url m v)
  unfolding start_mutation
  start_mutation-Kept url m v h =
      Kept-if _ v _ _ (keeps v _ _ h refl refl refl refl tt)
        (keeps v _ _ h refl refl refl refl (tt, tt))

  pub handle-Kept : (k : Action) (v : View) → Elsewhere k → Same v.data_shown → Kept v (handle k v)
  unfolding handle refresh_traffic calibrated load
  handle-Kept (mounted now) v e h =
      let k = poll-Kept now v h in
      keeps v _ _ k.same_data k.same_qr k.same_number k.same_format k.same_life k.plain
  handle-Kept (interval now) v e h =
      Kept-if v.ticking v (poll now v) (v, []) (poll-Kept now v h)
        (keeps v _ _ h refl refl refl refl tt)
  handle-Kept unmounted v e h = absurd e
  handle-Kept refresh_clicked v e h =
      Kept-if _ v _ _ (keeps v _ _ h refl refl refl refl tt)
        (keeps v _ _ h refl refl refl refl (tt, tt))
  handle-Kept restart_confirmed v e h = start_mutation-Kept _ _ v h
  handle-Kept reset_confirmed v e h = start_mutation-Kept _ _ v h
  handle-Kept save_clicked v e h = save_qr-Kept v h
  handle-Kept calibrate_clicked v e h = keeps v _ _ h refl refl refl refl tt
  handle-Kept calibrate_closed v e h = keeps v _ _ h refl refl refl refl tt
  handle-Kept (calibrate_done m) v e h = keeps v _ _ h refl refl refl refl (tt, tt)
  handle-Kept (format_clicked f) v e h = absurd e

  same_card-Same :
      (o : Option Dashboard) (x : Dashboard) → Same o → Same (some x) → same_card o x ≡ true
  same_card-Same none x h k = absurd h
  same_card-Same (some y) x h k =
      rw (h.0, h.1, k.0, k.1, text_eq_refl d.subscription_url, text_eq_refl d.subscription_name)
        refl

  data_shown-fail : (n now : ℕ) (v : View) → (fail n now v).data_shown ≡ v.data_shown
  unfolding fail
  data_shown-fail n now v = ground arith

  fail-Kept :
      (n now : ℕ) (v : View) (more : List Waiting)
      → Same v.data_shown
      → All Plain more
      → Kept v (fail n now v, more)
  unfolding fail
  fail-Kept n now v more h p =
      keeps v _ more (rw (data_shown-fail n now v) h) (ground arith) (ground arith) (ground arith)
        (ground arith) p

  accept-Kept :
      (n now : ℕ) (next : Dashboard) (v : View) (more : List Waiting)
      → Same v.data_shown
      → Same (some next)
      → All Plain more
      → Kept v (accept n v.qr_revision v.qr next now v, more)
  unfolding accept
  accept-Kept n now next v more h k p = elim (Bool-cases (v.disposed || not (n == v.revision))) [
    | inl late ↦ rw late (keeps v _ more h refl refl refl refl p)
    | inr shown ↦ rw shown (keeps v _ more k (ground arith) refl refl refl p)
  ]

  -- An overview that is answered is of the same subscription.
  abbrev pub Heard : Waiting → Reply → Type 0
  Heard (listed n caller) (fulfilled b, now) = Same (some b.as_dashboard)
  Heard _ r = Unit

  load_done-Kept :
      (n : ℕ) (caller : Caller) (r : Reply) (v : View)
      → Same v.data_shown
      → Heard (listed n caller) r
      → Kept v (load_done n caller r v)
  unfolding load_done
  load_done-Kept n caller (fulfilled b, now) v h k =
      rw (same_card-Same v.data_shown b.as_dashboard h k)
        (accept-Kept n now b.as_dashboard v _ h k (tt, tt))
  load_done-Kept n caller (rejected e, now) v h k = fail-Kept n now v _ h (tt, tt)

  returned_to-Kept :
      (caller : Caller) (o : Option Thrown) (v : View)
      → Same v.data_shown
      → Kept v (returned_to caller o v)
  unfolding returned_to load_server
  returned_to-Kept ignoring o v h = keeps v _ _ h refl refl refl refl tt
  returned_to-Kept refresh none v h = keeps v _ _ h refl refl refl refl (tt, tt)
  returned_to-Kept refresh (some e) v h = keeps v _ _ h refl refl refl refl tt
  returned_to-Kept mutate none v h = keeps v _ _ h refl refl refl refl tt
  returned_to-Kept mutate (some e) v h = keeps v _ _ h refl refl refl refl tt

  after_server-Plain : (caller : Caller) → All Plain (after_server caller)
  after_server-Plain ignoring = tt
  after_server-Plain refresh = (tt, tt)
  after_server-Plain mutate = tt

  pub resume-Kept :
      (c : Waiting) (r : Reply) (v : View)
      → Plain c
      → Heard c r
      → Same v.data_shown
      → Kept v (resume c r v)
  unfolding resume load_server_done post_done load
  resume-Kept (listed n caller) r v p a h = load_done-Kept n caller r v h a
  resume-Kept (rendered n q next url caller) r v p a h = absurd p
  resume-Kept (returned caller o) r v p a h = returned_to-Kept caller o v h
  resume-Kept (server_listed caller) (fulfilled b, now) v p a h =
      Kept-if_state v.disposed v v _ _
        (keeps v _ _ h refl refl refl refl (after_server-Plain caller))
        (keeps v _ _ h refl refl refl refl (after_server-Plain caller))
  resume-Kept (server_listed caller) (rejected e, now) v p a h =
      keeps v _ _ h refl refl refl refl (after_server-Plain caller)
  resume-Kept refreshed r v p a h = keeps v _ _ h refl refl refl refl tt
  resume-Kept (posted url m) (fulfilled b, now) v p a h = keeps v _ _ h refl refl refl refl (tt, tt)
  resume-Kept (posted url m) (rejected e, now) v p a h = keeps v _ _ h refl refl refl refl tt
  resume-Kept (drawn n url name) r v p a h = absurd p
