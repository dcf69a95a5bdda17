-- ===== src/Page/HistoryAlert.antt =====
-- The error that web/src/components/TrafficHistory.vue shows.
use sbm.Base.{
  refl, Bool, true, false, ◌&&◌, not, if◌then◌else◌, Option, none, some, List, [], ◌∷◌, ◌++◌, All,
  ◌==◌, ℕ, suc,
}
use sbm.Base.Text.{Text}
use sbm.Message.{Message, t, Thrown, exception, value}
use sbm.Async.{Event, call, settle, Settled, fulfilled, rejected, run}
use sbm.Catalog.Covered.{all_covered}
use sbm.Page.{alert}
use sbm.Page.Toasts.{nothing, no_more, Given, run-Emits}
use sbm.TrafficHistory as History
use sbm.TrafficHistory.Invariant as HistoryLaws
use sbm.Page.Alerts.{FineAlert, Fine, FineView, Fine-if, FineView-if, FineView-intro}

abbrev history_error : History.View → Option Message
history_error v = v.error

history_reason-FineAlert : (e : Thrown) → FineAlert (some (History.reason_text e))
unfolding all_covered
history_reason-FineAlert (exception m) = refl
history_reason-FineAlert (value m) = refl

module _ (b : History.Browser) where
  history_load-Fine :
      (quiet : Bool) (v : History.View)
      → FineAlert v.error
      → Fine history_error (History.load b quiet v)
  unfolding History.load all_covered
  history_load-Fine quiet v h =
      let next = record v { request = suc v.request } in
      let refused = record next { loading = false; error = some (t "history.invalidPeriod") } in
      let asks = if quiet then next else record next { loading = true; error = none } in
      Fine-if history_error (next.initialized && not (History.valid_selection next)) (refused, [])
        (asks, record { id = asks.request; sent = History.query_of b asks } ∷ [])
        (record { state = refl }) (record { state = (quietly quiet v h).shows })
    where
      quietly :
          (quiet : Bool) (v : History.View)
          → FineAlert v.error
          → FineView history_error (
              if quiet
              then record v { request = suc v.request }
              else record v { request = suc v.request; loading = true; error = none })
      quietly true v h = record { shows = h }
      quietly false v h = record { shows = refl }

  history_handle-Fine :
      (k : History.Action) (v : History.View)
      → FineAlert v.error
      → Fine history_error (History.handle b k v)
  unfolding History.handle History.select History.change_month
  history_handle-Fine History.mounted v h = record { state = (history_load-Fine false v h).state }
  history_handle-Fine History.unmounted v h = record { state = h }
  history_handle-Fine History.interval v h =
      Fine-if history_error v.ticking _ _ (history_load-Fine true v h) (record { state = h })
  history_handle-Fine History.refresh_clicked v h = history_load-Fine false v h
  history_handle-Fine (History.mode_clicked m) v h =
      Fine-if history_error (History.same_mode v.mode m) (v, [])
        (History.load b false (record v { mode = m })) (record { state = h })
        (history_load-Fine false (record v { mode = m }) h)
  history_handle-Fine (History.month_picked s) v h = history_load-Fine false _ h
  history_handle-Fine (History.year_picked s) v h = history_load-Fine false _ h

  history_accept-FineView :
      (a : History.Answer) (now : ℕ) (v : History.View)
      → FineAlert v.error
      → FineView history_error (History.accept b a now v)
  unfolding History.accept all_covered
  history_accept-FineView a now v h =
      FineView-if history_error v.initialized _ _ (FineView-intro history_error _ refl)
        (by_parts (b.parts a.timezone now))
    where
      by_parts :
          (r : Settled (Text × Text) Thrown)
          → FineView history_error (elim r [
            | fulfilled (y, m) ↦
                History.show a (record v { year = y; month = y ++ b'-' ∷ m; initialized = true })
            | rejected e ↦ History.fail e v
          ])
      by_parts (fulfilled (y, m)) = FineView-intro history_error _ refl
      by_parts (rejected e) = FineView-intro history_error _ (history_reason-FineAlert e)

  history_done-FineView :
      (c : History.Waiting) (r : History.Reply) (v : History.View)
      → FineAlert v.error
      → FineView history_error (History.load_done b c r v)
  unfolding History.load_done
  history_done-FineView c (fulfilled a, now) v h =
      FineView-if history_error (c.id == v.request) _ v (history_accept-FineView a now v h)
        (FineView-intro history_error _ h)
  history_done-FineView c (rejected e, now) v h =
      FineView-if history_error (c.id == v.request) _ v
        (FineView-intro history_error _ (history_reason-FineAlert e))
        (FineView-intro history_error _ h)

  -- In every run from the start the error that is shown can be read.
  pub history-FineAlert :
      (first : Text) (es : List (Event History.Action History.Reply))
      → FineAlert
          (run (History.handle b) (History.resume b) (HistoryLaws.start first) es).state.error
  unfolding History.setup History.resume all_covered
  history-FineAlert first es =
      run-Emits (History.handle b) (History.resume b) (λ v. alert v.error) nothing nothing
        (λ k v g h. ((history_handle-Fine k v h).state, no_more (History.handle b k v).1))
        (λ c r v g h. ((history_done-FineView c r v h).shows, tt)) (HistoryLaws.start first) es
        (nothing_given es) (refl, tt)
    where
      nothing_given :
          (es : List (Event History.Action History.Reply))
          → All
              (Given (History.handle b) (History.resume b) (λ v. alert v.error) nothing nothing)
              es
      nothing_given [] = tt
      nothing_given (call k ∷ es) = (refl, nothing_given es)
      nothing_given (settle i r ∷ es) = (tt, nothing_given es)
