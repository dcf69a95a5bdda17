-- ===== src/Page/EgressToasts.antt =====
-- The messages of the gateways' page.
use sbm.Base.{
  ℕ, ◌≡◌, refl, true, ◌&&◌, ◌==◌, Option, none, some, List, [], ◌∷◌, All, arith, if◌then◌else◌,
}
use sbm.Base.Text.{Text, text_eq}
use sbm.Types.Gateway.{GatewayInput}
use sbm.Egress.Invariant.{start}
use sbm.Message.{Message, Thrown, t, error_message}
use sbm.Async.{Event, fulfilled, rejected, run}
use sbm.Catalog.Covered.{covered, all_covered}
use sbm.Page.{either}
use sbm.Page.Toasts.{error_message-covered, said_too, alone, nothing, no_more, Given, run-Emits}
use sbm.Egress.{
  View, setup, Caller, refresh, ignoring, Waiting, listed, returned, acted, derived, generated, Job,
  save, toggle, remove, detect, reset, Body, Reply, load, load_done, returned_to, edit, close,
  derive, derive_done, generate, generate_done, create, key_of, with_keys, KeyPair,
}
use sbm.Egress
use sbm.Egress.Change.{
  start_job, job_done, run_done, resume, calibrated, poll, type_key, type_field, Action, mounted,
  unmounted, derive_left, generate_clicked, create_clicked, form_closed, calibrate_closed, interval,
  job_clicked, edit_clicked, calibrate_clicked, calibrate_done, key_typed, field_typed, handle,
}

-- The calibration dialog brings its own message.
abbrev pub given : Action → List Message
given (calibrate_done m) = m ∷ []
given _ = []

derive-toasts : (v : View) → (derive v).0.toasts ≡ v.toasts
unfolding derive
derive-toasts v = ground arith

poll-toasts : (now : ℕ) (v : View) → (poll now v).0.toasts ≡ v.toasts
unfolding poll load
poll-toasts now v = ground arith

interval-toasts : (now : ℕ) (v : View) → (handle (interval now) v).0.toasts ≡ v.toasts
unfolding handle
interval-toasts now v = ground (arith, poll-toasts now v)

start_job-toasts : (job : Job) (v : View) → (start_job job v).0.toasts ≡ v.toasts
unfolding start_job load
start_job-toasts job v = ground arith

type_key-toasts : (key : Text) (v : View) → (type_key key v).toasts ≡ v.toasts
unfolding type_key
type_key-toasts key v = ground arith

type_field-toasts : (g : GatewayInput) (v : View) → (type_field g v).toasts ≡ v.toasts
unfolding type_field
type_field-toasts g v = ground arith

handle-toasts :
    (k : Action) (v : View)
    → all_covered (given k) ≡ true
    → all_covered v.toasts ≡ true
    → all_covered (handle k v).0.toasts ≡ true
unfolding handle load edit close create generate calibrated all_covered
handle-toasts mounted v g h = h
handle-toasts unmounted v g h = h
handle-toasts derive_left v g h = rw (derive-toasts v) h
handle-toasts generate_clicked v g h = h
handle-toasts create_clicked v g h = h
handle-toasts form_closed v g h = h
handle-toasts calibrate_closed v g h = h
handle-toasts (interval now) v g h = rw (interval-toasts now v) h
handle-toasts (job_clicked job) v g h = rw (start_job-toasts job v) h
handle-toasts (edit_clicked x) v g h = h
handle-toasts (calibrate_clicked x) v g h = h
handle-toasts (calibrate_done m) v g h = said_too m v.toasts (alone (covered m) g) h
handle-toasts (key_typed key) v g h = rw (type_key-toasts key v) h
handle-toasts (field_typed x) v g h = rw (type_field-toasts x v) h

job_done-toasts :
    (job : Job) (b : Body) (v : View)
    → all_covered v.toasts ≡ true
    → all_covered (job_done job b v).toasts ≡ true
unfolding job_done close all_covered
job_done-toasts save b v h =
    said_too (t (if b.geo_detected then "egress.saved" else "egress.savedGeoFailed")) v.toasts
      (either (λ k. covered (t k)) b.geo_detected "egress.saved" "egress.savedGeoFailed" refl refl)
      h
job_done-toasts (toggle g) b v h = h
job_done-toasts (remove g) b v h = h
job_done-toasts (detect g) b v h =
    said_too (t (if b.geo_detected then "egress.geoDone" else "egress.geoFailed")) v.toasts
      (either (λ k. covered (t k)) b.geo_detected "egress.geoDone" "egress.geoFailed" refl refl) h
job_done-toasts (reset g) b v h = h

load_done-toasts : (n : ℕ) (r : Reply) (v : View) → (load_done n r v).toasts ≡ v.toasts
unfolding load_done
load_done-toasts n (fulfilled b, now) v = ground arith
load_done-toasts n (rejected e, now) v = ground arith

returned_to-toasts :
    (c : Caller) (o : Option Thrown) (v : View)
    → all_covered v.toasts ≡ true
    → all_covered (returned_to c o v).toasts ≡ true
unfolding returned_to
returned_to-toasts refresh none v h = h
returned_to-toasts refresh (some e) v h =
    said_too (error_message e) v.toasts (error_message-covered e) h
returned_to-toasts ignoring o v h = h
returned_to-toasts Egress.run none v h = h
returned_to-toasts Egress.run (some e) v h =
    said_too (error_message e) v.toasts (error_message-covered e) h

derive_done-toasts :
    (n : ℕ) (key : Text) (r : Reply) (v : View)
    → all_covered v.toasts ≡ true
    → all_covered (derive_done n key r v).toasts ≡ true
unfolding derive_done
derive_done-toasts n key (fulfilled b, now) v h =
    either (λ (w : View). all_covered w.toasts) (n == v.key_revision && text_eq (key_of v.form) key)
      (record v { public_key = b.as_keys.public_key }) v h h
derive_done-toasts n key (rejected e, now) v h =
    said_too (error_message e) v.toasts (error_message-covered e) h

with_keys-toasts :
    (k : KeyPair) (o : Option GatewayInput) (v : View) → (with_keys k o v).toasts ≡ v.toasts
with_keys-toasts k none v = refl
with_keys-toasts k (some f) v = refl

generate_done-toasts :
    (n : ℕ) (r : Reply) (v : View)
    → all_covered v.toasts ≡ true
    → all_covered (generate_done n r v).toasts ≡ true
unfolding generate_done
generate_done-toasts n (fulfilled b, now) v h =
    either (λ (w : View). all_covered w.toasts) (n == v.key_revision) (with_keys b.as_keys v.form v)
      v (rw (with_keys-toasts b.as_keys v.form v) h) h
generate_done-toasts n (rejected e, now) v h =
    said_too (error_message e) v.toasts (error_message-covered e) h

resume-toasts :
    (c : Waiting) (r : Reply) (v : View)
    → all_covered v.toasts ≡ true
    → all_covered (resume c r v).0.toasts ≡ true
unfolding resume run_done load
resume-toasts (listed n c) r v h = rw (load_done-toasts n r v) h
resume-toasts (returned c o) r v h = returned_to-toasts c o v h
resume-toasts (acted job) (fulfilled b, now) v h = job_done-toasts job b v h
resume-toasts (acted job) (rejected e, now) v h = returned_to-toasts Egress.run (some e) v h
resume-toasts (derived n key) r v h = derive_done-toasts n key r v h
resume-toasts (generated n) r v h = generate_done-toasts n r v h

pub gateways-Emits :
    (now : ℕ) (es : List (Event Action Reply))
    → All (Given handle resume (λ v. v.toasts) nothing given) es
    → all_covered (run handle resume (start now) es).state.toasts ≡ true
unfolding setup all_covered
gateways-Emits now es g =
    run-Emits handle resume (λ v. v.toasts) nothing given
      (λ k v m h. (handle-toasts k v m h, no_more (handle k v).1))
      (λ c r v m h. (resume-toasts c r v h, no_more (resume c r v).1)) (start now) es g (refl, tt)
