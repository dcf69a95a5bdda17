-- ===== src/Egress/Change.antt =====
-- The changes of a gateway, which go through `run`, and the handlers of the view. `run` is cut at its
-- action's `await`, and at that of the `load` that follows.
use sbm.Base.{
  ℕ, suc, Bool, true, false, ◌&&◌, not, Option, none, some, List, [], ◌∷◌, ◌==◌, if◌then◌else◌,
}
use sbm.Base.Text.{Text}
use sbm.Message.{Message, t}
use sbm.Async.{fulfilled, rejected}
use sbm.PollStatus.{tick}
use sbm.Types.Gateway.{GatewayInput, EgressGateway}
use sbm.Egress.{
  View, refresh, ignoring, run, Job, save, toggle, remove, detect, reset, Waiting, listed, returned,
  acted, derived, generated, Body, Reply, emit, load, load_done, thrown_of, returned_to, input,
  edit, close, derive, derive_done, generate, generate_done, create,
}

-- The requests of the actions.
pub data Sent : Type 0 where
  put_egress : Text → GatewayInput → Sent
  post_egress : GatewayInput → Sent
  delete_egress post_geo post_reset : Text → Sent

abbrev saved_request : Option EgressGateway → GatewayInput → Sent
saved_request none f = post_egress (input f)
saved_request (some g) f = put_egress g.id (input f)

-- The request of an action, if it sends one: `save` needs a form.
unfoldable pub request_of : Job → View → Option Sent
request_of save v = elim v.form [ none ↦ none | some f ↦ some (saved_request v.editing f) ]
request_of (toggle g) v =
    some (put_egress g.id (record (input g.input) { enabled = not g.input.enabled }))
request_of (remove g) v = some (delete_egress g.id)
request_of (detect g) v = some (post_geo g.id)
request_of (reset g) v = some (post_reset g.id)

-- `run`, up to the action's request, or up to that of `load` if the action sends none.
unfoldable pub start_job : Job → View → View × List Waiting
unfolding request_of
start_job job v =
    let w = record v { busy = true; list_revision = suc v.list_revision } in
    if v.busy
    then (v, [])
    else elim (request_of job v) [ none ↦ load run w | some q ↦ (w, acted job ∷ []) ]

-- What the action does with the answer.
unfoldable pub job_done : Job → Body → View → View
unfolding close
job_done save b v =
    emit (t (if b.geo_detected then "egress.saved" else "egress.savedGeoFailed")) (close v)
job_done (toggle g) b v = emit (t "egress.saved") v
job_done (remove g) b v = emit (t "egress.deleted") v
job_done (detect g) b v =
    emit (t (if b.geo_detected then "egress.geoDone" else "egress.geoFailed")) v
job_done (reset g) b v = emit (t "egress.resetDone") v

-- The rest of `run`.
unfoldable pub run_done : Job → Reply → View → View × List Waiting
run_done job (fulfilled b, now) v = load run (job_done job b v)
run_done job (rejected e, now) v = (returned_to run (some e) v, [])

unfoldable pub resume : Waiting → Reply → View → View × List Waiting
resume (listed revision caller) r v = (load_done revision r v, returned caller (thrown_of r) ∷ [])
resume (returned caller o) r v = (returned_to caller o v, [])
resume (acted job) r v = run_done job r v
resume (derived revision key) r v = (derive_done revision key r v, [])
resume (generated revision) r v = (generate_done revision r v, [])

unfoldable pub calibrated : Message → View → View × List Waiting
calibrated m v = load ignoring (emit m (record v { calibrating = none }))

-- The interval: no load while one is in flight, or while something is changed or edited.
unfoldable pub poll : ℕ → View → View × List Waiting
poll now v =
    let w = record v { status = tick now v.status } in
    if v.pending == 0 && not v.busy && is_none v.form && is_none v.calibrating
    then load ignoring w
    else (w, [])
  where
    is_none : {A : Type 0} → Option A → Bool
    is_none none = true
    is_none (some x) = false

-- A key that is typed is no longer the one that the shown public key belongs to.
unfoldable pub type_key : Text → View → View
type_key key v = elim v.form [
  | none ↦ v
  | some f ↦ record v {
    form = some (record f { private_key = key });
    public_key = [];
    key_revision = suc v.key_revision;
  }
]

-- The other fields of the form.
unfoldable pub type_field : GatewayInput → View → View
type_field g v = elim v.form [
  | none ↦ v
  | some f ↦ record v { form = some (record g { private_key = f.private_key }) }
]

-- What the template, the interval and the browser call.
pub data Action : Type 0 where
  mounted unmounted derive_left generate_clicked create_clicked form_closed calibrate_closed :
      Action
  interval : ℕ → Action
  job_clicked : Job → Action
  edit_clicked calibrate_clicked : EgressGateway → Action
  calibrate_done : Message → Action
  key_typed : Text → Action
  field_typed : GatewayInput → Action

unfoldable pub handle : Action → View → View × List Waiting
handle mounted v = let (w, more) = load refresh v in (record w { ticking = true }, more)
handle unmounted v = (
  record v {
    disposed = true;
    list_revision = suc v.list_revision;
    key_revision = suc v.key_revision;
    ticking = false;
  },
  [],
)
handle derive_left v = derive v
handle generate_clicked v = generate v
handle create_clicked v = create v
handle form_closed v = (close v, [])
handle calibrate_closed v = (record v { calibrating = none }, [])
handle (interval now) v = if v.ticking then poll now v else (v, [])
handle (job_clicked job) v = start_job job v
handle (edit_clicked g) v = (edit g v, [])
handle (calibrate_clicked g) v = (record v { calibrating = some g }, [])
handle (calibrate_done m) v = calibrated m v
handle (key_typed key) v = (type_key key v, [])
handle (field_typed g) v = (type_field g v, [])
