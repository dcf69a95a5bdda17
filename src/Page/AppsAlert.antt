-- ===== src/Page/AppsAlert.antt =====
-- The error that web/src/components/TrafficApps.vue shows.
use sbm.Base.{
  refl, Bool, true, false, ◌&&◌, not, if◌then◌else◌, Option, none, some, List, [], ◌∷◌, ◌++◌, All,
  ◌==◌, ℕ, suc,
}
use sbm.Base.Text.{Text}
use sbm.Message.{Message, t, Thrown, exception, value}
use sbm.Async.{Event, call, settle, Settled, fulfilled, rejected, run}
use sbm.Catalog.Covered.{all_covered}
use sbm.Page.{alert}
use sbm.Page.Toasts.{nothing, no_more, Given, run-Emits}
use sbm.TrafficApps as Apps
use sbm.TrafficApps.Invariant as AppsLaws
use sbm.Page.Alerts.{FineAlert, Fine, FineView, Fine-if, FineView-if, FineView-intro}

abbrev apps_error : Apps.View → Option Message
apps_error v = v.error

apps_reason-FineAlert : (e : Thrown) → FineAlert (some (Apps.reason_text e))
unfolding all_covered
apps_reason-FineAlert (exception m) = refl
apps_reason-FineAlert (value m) = refl

module _ (b : Apps.Browser) where
  apps_load-Fine :
      (quiet : Bool) (c : Apps.Caller) (v : Apps.View)
      → FineAlert v.error
      → Fine apps_error (Apps.load b quiet c v)
  unfolding Apps.load all_covered
  apps_load-Fine quiet c v h =
      let next = record v { request = suc v.request } in
      let refused = record next { loading = false; error = some (t "apps.invalidPeriod") } in
      let asks = if quiet then next else record next { loading = true; error = none } in
      Fine-if apps_error (next.initialized && not (Apps.valid_selection next))
        (refused, Apps.resume_caller c)
        (asks, Apps.requested asks.request (Apps.query_of b asks) c ∷ []) (record { state = refl })
        (record { state = (quietly quiet v h).shows })
    where
      quietly :
          (quiet : Bool) (v : Apps.View)
          → FineAlert v.error
          → FineView apps_error (
              if quiet
              then record v { request = suc v.request }
              else record v { request = suc v.request; loading = true; error = none })
      quietly true v h = record { shows = h }
      quietly false v h = record { shows = refl }

  apps_handle-Fine :
      (k : Apps.Action) (v : Apps.View) → FineAlert v.error → Fine apps_error (Apps.handle b k v)
  unfolding Apps.handle Apps.select_period Apps.change_date Apps.clear_stats Apps.toggle_expand
  apps_handle-Fine Apps.mounted v h = record {
    state = (apps_load-Fine false Apps.nobody v h).state;
  }
  apps_handle-Fine Apps.unmounted v h = record { state = h }
  apps_handle-Fine Apps.interval v h =
      Fine-if apps_error v.ticking _ _ (apps_load-Fine true Apps.nobody v h) (record { state = h })
  apps_handle-Fine Apps.refresh_clicked v h = apps_load-Fine false Apps.nobody v h
  apps_handle-Fine Apps.clear_confirmed v h =
      Fine-if apps_error v.clearing (v, [])
        (record v { clearing = true; request = suc v.request }, Apps.cleared ∷ [])
        (record { state = h }) (record { state = h })
  apps_handle-Fine (Apps.period_clicked m) v h =
      Fine-if apps_error (Apps.same_mode v.period m) (v, [])
        (Apps.load b false Apps.nobody (record v { period = m })) (record { state = h })
        (apps_load-Fine false Apps.nobody (record v { period = m }) h)
  apps_handle-Fine (Apps.day_picked s) v h = apps_load-Fine false Apps.nobody _ h
  apps_handle-Fine (Apps.month_picked s) v h = apps_load-Fine false Apps.nobody _ h
  apps_handle-Fine (Apps.row_clicked id) v h = record { state = h }

  apps_accept-FineView :
      (a : Apps.AppTrafficResponse) (now : ℕ) (v : Apps.View)
      → FineAlert v.error
      → FineView apps_error (Apps.accept b a now v)
  unfolding Apps.accept all_covered
  apps_accept-FineView a now v h =
      FineView-if apps_error v.initialized _ _ (FineView-intro apps_error _ refl)
        (by_parts (b.parts a.timezone now))
    where
      by_parts :
          (r : Settled (Text × Text × Text) Thrown)
          → FineView apps_error (elim r [
            | fulfilled (y, m, d) ↦ Apps.show a (record v {
              month = y ++ b'-' ∷ m;
              day = y ++ b'-' ∷ (m ++ b'-' ∷ d);
              initialized = true;
            })
            | rejected e ↦ Apps.fail e v
          ])
      by_parts (fulfilled (y, m, d)) = FineView-intro apps_error _ refl
      by_parts (rejected e) = FineView-intro apps_error _ (apps_reason-FineAlert e)

  apps_done-FineView :
      (n : ℕ) (r : Apps.Reply) (v : Apps.View)
      → FineAlert v.error
      → FineView apps_error (Apps.load_done b n r v)
  unfolding Apps.load_done
  apps_done-FineView n (fulfilled a, now) v h =
      FineView-if apps_error (n == v.request) _ v (apps_accept-FineView a now v h)
        (FineView-intro apps_error _ h)
  apps_done-FineView n (rejected e, now) v h =
      FineView-if apps_error (n == v.request) _ v
        (FineView-intro apps_error _ (apps_reason-FineAlert e)) (FineView-intro apps_error _ h)

  apps_resume-Fine :
      (c : Apps.Waiting) (r : Apps.Reply) (v : Apps.View)
      → FineAlert v.error
      → Fine apps_error (Apps.resume b c r v)
  unfolding Apps.resume Apps.clear_done
  apps_resume-Fine (Apps.requested n q caller) r v h = record {
    state = (apps_done-FineView n r v h).shows;
  }
  apps_resume-Fine Apps.cleared (fulfilled a, now) v h = apps_load-Fine false Apps.clear _ h
  apps_resume-Fine Apps.cleared (rejected e, now) v h = record { state = h }
  apps_resume-Fine Apps.reloaded r v h = record { state = h }

  -- In every run from the start the error that is shown can be read.
  pub apps-FineAlert :
      (first : Text) (es : List (Event Apps.Action Apps.Reply))
      → FineAlert (run (Apps.handle b) (Apps.resume b) (AppsLaws.start first) es).state.error
  unfolding Apps.setup all_covered
  apps-FineAlert first es =
      run-Emits (Apps.handle b) (Apps.resume b) (λ v. alert v.error) nothing nothing
        (λ k v g h. ((apps_handle-Fine k v h).state, no_more (Apps.handle b k v).1))
        (λ c r v g h. ((apps_resume-Fine c r v h).state, no_more (Apps.resume b c r v).1))
        (AppsLaws.start first) es (nothing_given es) (refl, tt)
    where
      nothing_given :
          (es : List (Event Apps.Action Apps.Reply))
          → All (Given (Apps.handle b) (Apps.resume b) (λ v. alert v.error) nothing nothing) es
      nothing_given [] = tt
      nothing_given (call k ∷ es) = (refl, nothing_given es)
      nothing_given (settle i r ∷ es) = (tt, nothing_given es)
