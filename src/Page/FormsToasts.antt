-- ===== src/Page/FormsToasts.antt =====
-- The messages of the settings, of the inbounds' page and of the dialog of the calibration.
use sbm.Base.{
  ◌≡◌, refl, Bool, true, ◌||◌, not, Option, none, some, List, [], ◌∷◌, All, ltb, arith,
  if◌then◌else◌,
}
use sbm.Base.Text.{Text, text_eq}
use sbm.Message.{Message, t, error_message}
use sbm.Async.{Event, call, settle, fulfilled, rejected, run}
use sbm.Catalog.Covered.{covered, all_covered}
use sbm.Page.{either}
use sbm.Page.Toasts.{error_message-covered, said_too, nothing, no_more, Given, run-Emits}
use sbm.Settings as Options
use sbm.Settings.Laws as OptionsLaws
use sbm.Protocols as Inbounds
use sbm.Protocols.Laws as InboundsLaws

password-toasts :
    (v : Options.View)
    → all_covered v.toasts ≡ true
    → all_covered (Options.change_password v).0.toasts ≡ true
unfolding Options.change_password covered
password-toasts v h =
    let p = v.password in
    let size = Options.byte_length p.new_password in
    let mismatch = Options.emit (t "settings.passwordMismatch") v in
    let too_long = Options.emit (t "settings.passwordLength") v in
    let post = Options.post_password p.current_password p.new_password ∷ [] in
    let says : (Options.View × List Options.Sent) → Bool = λ x. all_covered x.0.toasts in
    either says (not (text_eq p.new_password p.confirm)) (mismatch, [])
      (if ltb size 12 || ltb 72 size then (too_long, []) else (v, post))
      (said_too (t "settings.passwordMismatch") v.toasts refl h)
      (either says (ltb size 12 || ltb 72 size) (too_long, []) (v, post)
        (said_too (t "settings.passwordLength") v.toasts refl h) h)

save_traffic-toasts : (v : Options.View) → (Options.save_traffic v).0.toasts ≡ v.toasts
unfolding Options.save_traffic
save_traffic-toasts v = ground arith

save_outbound-toasts : (v : Options.View) → (Options.save_outbound v).0.toasts ≡ v.toasts
unfolding Options.save_outbound
save_outbound-toasts v = ground arith

interval-toasts : (v : Options.View) → (Options.handle Options.interval v).0.toasts ≡ v.toasts
unfolding Options.handle Options.load_server
interval-toasts v = ground arith

options_handle-toasts :
    (k : Options.Action) (v : Options.View)
    → all_covered v.toasts ≡ true
    → all_covered (Options.handle k v).0.toasts ≡ true
unfolding Options.handle Options.load Options.token
options_handle-toasts Options.mounted v h = h
options_handle-toasts Options.interval v h = rw (interval-toasts v) h
options_handle-toasts Options.unmounted v h = h
options_handle-toasts Options.traffic_submitted v h = rw (save_traffic-toasts v) h
options_handle-toasts Options.outbound_submitted v h = rw (save_outbound-toasts v) h
options_handle-toasts Options.token_confirmed v h = h
options_handle-toasts Options.password_submitted v h = password-toasts v h
options_handle-toasts (Options.settings_typed q i r o) v h = h
options_handle-toasts (Options.password_typed p) v h = h

get_server-toasts :
    (b : Options.Body) (v : Options.View)
    → (Options.resume Options.get_server (fulfilled b) v).0.toasts ≡ v.toasts
unfolding Options.resume
get_server-toasts b v = ground arith

options_resume-toasts :
    (q : Options.Sent) (r : Options.Reply) (v : Options.View)
    → all_covered v.toasts ≡ true
    → all_covered (Options.resume q r v).0.toasts ≡ true
unfolding Options.resume Options.load_server covered
options_resume-toasts Options.get_server (rejected e) v h = h
options_resume-toasts Options.get_settings (rejected e) v h =
    said_too (error_message e) v.toasts (error_message-covered e) h
options_resume-toasts (Options.put_traffic q i r) (rejected e) v h =
    said_too (error_message e) v.toasts (error_message-covered e) h
options_resume-toasts (Options.put_outbound s) (rejected e) v h =
    said_too (error_message e) v.toasts (error_message-covered e) h
options_resume-toasts Options.post_token (rejected e) v h =
    said_too (error_message e) v.toasts (error_message-covered e) h
options_resume-toasts (Options.post_password a b) (rejected e) v h =
    said_too (error_message e) v.toasts (error_message-covered e) h
options_resume-toasts Options.get_server (fulfilled b) v h = rw (get_server-toasts b v) h
options_resume-toasts Options.get_settings (fulfilled b) v h = h
options_resume-toasts (Options.put_traffic q i r) (fulfilled b) v h =
    said_too (t "settings.trafficSaved") v.toasts refl h
options_resume-toasts (Options.put_outbound s) (fulfilled b) v h =
    said_too (t "settings.outboundSaved") v.toasts refl h
options_resume-toasts Options.post_token (fulfilled b) v h =
    said_too (t "settings.tokenDone") v.toasts refl h
options_resume-toasts (Options.post_password a c) (fulfilled b) v h =
    said_too (t "settings.passwordDone") v.toasts refl h

-- No handler of these views is given a message.
untold :
    {K R : Type 0} {C S : Type 0} (handle : K → S → S × List C) (resume : C → R → S → S × List C)
    (toasts : S → List Message) (es : List (Event K R))
    → All (Given handle resume toasts nothing nothing) es
unfolding all_covered
untold handle resume toasts [] = tt
untold handle resume toasts (call k ∷ es) = (refl, untold handle resume toasts es)
untold handle resume toasts (settle i r ∷ es) = (tt, untold handle resume toasts es)

pub options-Emits :
    (es : List (Event Options.Action Options.Reply))
    → all_covered (run Options.handle Options.resume OptionsLaws.start es).state.toasts ≡ true
unfolding Options.setup all_covered
options-Emits es =
    run-Emits Options.handle Options.resume (λ v. v.toasts) nothing nothing
      (λ k v m h. (options_handle-toasts k v h, no_more (Options.handle k v).1))
      (λ c r v m h. (options_resume-toasts c r v h, no_more (Options.resume c r v).1))
      OptionsLaws.start es (untold Options.handle Options.resume (λ v. v.toasts) es) (refl, tt)

save-toasts : (v : Inbounds.View) → (Inbounds.save v).0.toasts ≡ v.toasts
unfolding Inbounds.save
save-toasts v = ground arith

save_qr-toasts :
    (v : Inbounds.View)
    → all_covered v.toasts ≡ true
    → all_covered (Inbounds.save_qr v).toasts ≡ true
unfolding Inbounds.save_qr covered
save_qr-toasts v h = go v.qr_item v.qr refl refl
  where
    go :
        (o : Option Inbounds.LinkNode) (q : Text)
        → v.qr_item ≡ o
        → v.qr ≡ q
        → all_covered (Inbounds.save_qr v).toasts ≡ true
    go none q e f = rw e h
    go (some n) [] e f = rw (e, f) h
    go (some n) (c ∷ s) e f = rw (e, f) (said_too (t "protocol.qrSaved") v.toasts refl h)

inbounds_handle-toasts :
    (k : Inbounds.Action) (v : Inbounds.View)
    → all_covered v.toasts ≡ true
    → all_covered (Inbounds.handle k v).0.toasts ≡ true
unfolding Inbounds.handle Inbounds.load Inbounds.create Inbounds.edit
inbounds_handle-toasts Inbounds.mounted v h = h
inbounds_handle-toasts Inbounds.create_submitted v h = h
inbounds_handle-toasts Inbounds.create_closed v h = h
inbounds_handle-toasts Inbounds.save_submitted v h = rw (save-toasts v) h
inbounds_handle-toasts Inbounds.edit_closed v h = h
inbounds_handle-toasts Inbounds.qr_closed v h = h
inbounds_handle-toasts Inbounds.save_clicked v h = save_qr-toasts v h
inbounds_handle-toasts (Inbounds.toggle_clicked i) v h = h
inbounds_handle-toasts (Inbounds.remove_confirmed i) v h = h
inbounds_handle-toasts (Inbounds.edit_clicked i) v h = h
inbounds_handle-toasts (Inbounds.qr_clicked n) v h = h
inbounds_handle-toasts (Inbounds.add_clicked name) v h = h
inbounds_handle-toasts (Inbounds.create_typed f) v h = h
inbounds_handle-toasts (Inbounds.edit_typed e) v h = h

inbounds_resume-toasts :
    (c : Inbounds.Waiting) (r : Inbounds.Reply) (v : Inbounds.View)
    → all_covered v.toasts ≡ true
    → all_covered (Inbounds.resume c r v).0.toasts ≡ true
unfolding Inbounds.resume Inbounds.load covered
inbounds_resume-toasts c (rejected e) v h =
    said_too (error_message e) v.toasts (error_message-covered e) h
inbounds_resume-toasts Inbounds.listed (fulfilled b) v h = h
inbounds_resume-toasts (Inbounds.posted f) (fulfilled b) v h =
    said_too (t "protocol.created") v.toasts refl h
inbounds_resume-toasts (Inbounds.saving e) (fulfilled b) v h =
    said_too (t "protocol.saved") v.toasts refl h
inbounds_resume-toasts (Inbounds.toggled i) (fulfilled b) v h =
    said_too (t (if i.enabled then "protocol.disabled" else "protocol.enabled")) v.toasts
      (either (λ k. covered (t k)) i.enabled "protocol.disabled" "protocol.enabled" refl refl) h
inbounds_resume-toasts (Inbounds.removed i) (fulfilled b) v h =
    said_too (t "protocol.deleted") v.toasts refl h
inbounds_resume-toasts (Inbounds.drawn n) (fulfilled b) v h = h

pub inbounds-Emits :
    (name : Text) (es : List (Event Inbounds.Action Inbounds.Reply))
    → all_covered (run Inbounds.handle Inbounds.resume (InboundsLaws.start name) es).state.toasts
      ≡ true
unfolding Inbounds.setup all_covered
inbounds-Emits name es =
    run-Emits Inbounds.handle Inbounds.resume (λ v. v.toasts) nothing nothing
      (λ k v m h. (inbounds_handle-toasts k v h, no_more (Inbounds.handle k v).1))
      (λ c r v m h. (inbounds_resume-toasts c r v h, no_more (Inbounds.resume c r v).1))
      (InboundsLaws.start name) es (untold Inbounds.handle Inbounds.resume (λ v. v.toasts) es)
      (refl, tt)
