-- ===== src/Page/EmitsRead.antt =====
-- Every message that the views emit can be read.
use sbm.Base.{ℕ, ◌≡◌, refl, Bool, true, List, [], ◌∷◌, All, if◌then◌else◌}
use sbm.Base.Text.{Text}
use sbm.I18n.{Locale}
use sbm.Message.{Message, t}
use sbm.Async.{Event, call, settle, fulfilled, run}
use sbm.Catalog.Covered.{covered, all_covered, Reads, all_covered-Reads}
use sbm.Page.{either}
use sbm.Page.Toasts.{nothing, Given}
use sbm.Page.FormsToasts.{options-Emits, inbounds-Emits}
use sbm.Page.EgressToasts as Gateways
use sbm.Page.DashboardToasts as Overview
use sbm.Egress as EgressView
use sbm.Egress.Change as Change
use sbm.Egress.Invariant as EgressLaws
use sbm.Dashboard.View as DashboardView
use sbm.Dashboard.Invariant as DashboardLaws
use sbm.Settings as Options
use sbm.Settings.Laws as OptionsLaws
use sbm.Protocols as Inbounds
use sbm.Protocols.Laws as InboundsLaws
use sbm.Calibrate.{View, done, submit_done}

-- What the dialog of the calibration tells the view that has opened it.
abbrev pub calibrated_message : Bool → Message
calibrated_message clear = t (if clear then "network.calibrateCleared" else "network.calibrateDone")

submit_done-message :
    (clear : Bool) (v : View)
    → (submit_done clear (fulfilled tt) v).emitted ≡ done (calibrated_message clear) ∷ v.emitted
unfolding submit_done
submit_done-message clear v = refl

calibrated_message-covered : (clear : Bool) → covered (calibrated_message clear) ≡ true
unfolding covered
calibrated_message-covered clear =
    either (λ k. covered (t k)) clear "network.calibrateCleared" "network.calibrateDone" refl refl

-- A call brings no message but one of the dialog.
abbrev pub Told : Message → Type 0
Told m = (clear : Bool) × (m ≡ calibrated_message clear)

abbrev pub FromDialog : {K R : Type 0} → (K → List Message) → Event K R → Type 0
FromDialog given (call k) = All Told (given k)
FromDialog given (settle i r) = Unit

Told-covered : (ms : List Message) → All Told ms → all_covered ms ≡ true
unfolding all_covered
Told-covered [] h = refl
Told-covered (m ∷ ms) ((clear, e), h) =
    let first : covered m ≡ true = rw e (calibrated_message-covered clear) in
    rw (first, Told-covered ms h) refl

module _ {S C K R : Type 0} (handle : K → S → S × List C) (resume : C → R → S → S × List C)
    (toasts : S → List Message) (carried : C → List Message) (given : K → List Message) where
  dialog-Given :
      (es : List (Event K R))
      → All (FromDialog given) es
      → All (Given handle resume toasts carried given) es
  dialog-Given [] h = tt
  dialog-Given (call k ∷ es) (h, hs) = (Told-covered (given k) h, dialog-Given es hs)
  dialog-Given (settle i r ∷ es) (h, hs) = (tt, dialog-Given es hs)

-- In all runs of the gateways' page, the overview, the settings and the inbounds' page, where nothing but the dialog of
-- the calibration gives them a message, and whatever the server answers: each message that they emit is a text of the
-- server, or has an entry for its key in both languages, and every placeholder of the entry is given a value.
pub run-Reads :
    (l : Locale) (now : ℕ) (name : Text) (gs : List (Event Change.Action EgressView.Reply))
    (os : List (Event DashboardView.Action DashboardView.Reply))
    (ss : List (Event Options.Action Options.Reply))
    (is : List (Event Inbounds.Action Inbounds.Reply))
    → All (FromDialog Gateways.given) gs
    → All (FromDialog Overview.given) os
    → All (Reads l) (run Change.handle Change.resume (EgressLaws.start now) gs).state.toasts
      × All
          (Reads l)
          (run DashboardView.handle DashboardView.resume (DashboardLaws.start now) os).state.toasts
      × All (Reads l) (run Options.handle Options.resume OptionsLaws.start ss).state.toasts
      × All
          (Reads l)
          (run Inbounds.handle Inbounds.resume (InboundsLaws.start name) is).state.toasts
run-Reads l now name gs os ss is g o = (
  all_covered-Reads l _ (
      Gateways.gateways-Emits now gs
        (dialog-Given Change.handle Change.resume (λ v. v.toasts) nothing Gateways.given gs g)),
  all_covered-Reads l _ (
      Overview.overview-Emits now os (
        dialog-Given DashboardView.handle DashboardView.resume (λ v. v.toasts) Overview.carried
          Overview.given os o)),
  all_covered-Reads l _ (options-Emits ss),
  all_covered-Reads l _ (inbounds-Emits name is),
)
