-- ===== src/Egress/Offered.antt =====
-- What the template of web/src/views/EgressView.vue offers in a state: the conditions of its buttons, forms and
-- dialogs, for each handler that it calls.
use sbm.Base.{
  ℕ, Bool, true, false, ◌&&◌, ◌||◌, not, if◌then◌else◌, ◌≡◌, refl, Option, none, some, List, [],
  ◌∷◌, ◌++◌, arith,
}
use sbm.Base.Text.{Text, text_eq}
use sbm.Async.{Sys, Event, call, settle, fulfilled, step, run}
use sbm.Page.{is_empty, is_some}
use sbm.Types.Gateway.{GatewayInput, EgressGateway}
use sbm.Egress.{
  View, setup, Waiting, Job, save, toggle, remove, detect, reset, Body, Reply, load, load_done,
  returned_to, input, edit, close, derive, generate, create, empty_form,
}
use sbm.Egress.Invariant.{start}
use sbm.Egress.Change.{
  request_of, start_job, job_done, run_done, resume, calibrated, poll, type_key, type_field, Action,
  mounted, unmounted, derive_left, generate_clicked, create_clicked, form_closed, calibrate_closed,
  interval, job_clicked, edit_clicked, calibrate_clicked, calibrate_done, key_typed, field_typed,
  handle,
}

abbrev listed_in : Text → List EgressGateway → Bool
listed_in id [] = false
listed_in id (g ∷ gs) = text_eq g.id id || listed_in id gs

-- The card of a gateway stands on the page.
abbrev has_card : View → EgressGateway → Bool
has_card v g = v.loaded && listed_in g.id v.items

-- A reset and a removal are confirmed in a dialog that stays open meanwhile.
unfoldable pub offers_job : Job → View → Bool
offers_job save v = is_some v.form && not v.busy
offers_job (toggle g) v = has_card v g && not v.busy
offers_job (detect g) v = has_card v g && not v.busy && not (is_empty g.input.server)
offers_job (remove g) v = has_card v g
offers_job (reset g) v = has_card v g

-- A form is opened by the button in the head, by that in place of an empty list, or by that on a card.
unfoldable pub offers : Action → View → Bool
unfolding offers_job
offers (job_clicked job) v = offers_job job v
offers create_clicked v = not v.busy || (v.loaded && is_empty v.items)
offers (edit_clicked g) v = has_card v g && not v.busy
offers (calibrate_clicked g) v = has_card v g && not v.busy
offers form_closed v = is_some v.form
offers derive_left v = is_some v.form
offers generate_clicked v = is_some v.form
offers (key_typed key) v = is_some v.form
offers (field_typed g) v = is_some v.form
offers calibrate_closed v = is_some v.calibrating
offers (calibrate_done m) v = is_some v.calibrating
offers mounted v = true
offers unmounted v = true
offers (interval now) v = true

-- A run in which all that is called is offered.
unfoldable pub all_offered : Sys View Waiting → List (Event Action Reply) → Bool
unfolding step offers
all_offered s [] = true
all_offered s (call k ∷ es) = offers k s.state && all_offered (step handle resume s (call k)) es
all_offered s (settle i r ∷ es) = all_offered (step handle resume s (settle i r)) es

-- A change is under way, the list has gateways, and no form is open.
abbrev Changes : View → Type 0
Changes v = (v.busy ≡ true) × (is_empty v.items ≡ false) × (v.form ≡ none)

closed : {A : Type 0} (o : Option A) → o ≡ none → is_some o ≡ true → ⊥
closed none f h = cc h
closed (some x) f h = cc f

not_free : (a b : Bool) → b ≡ true → (a && not b) ≡ true → ⊥
not_free a b h k = ground arith

no_button : (b l e : Bool) → b ≡ true → e ≡ false → (not b || (l && e)) ≡ true → ⊥
no_button b l e h k o = ground arith

start_job-busy : (job : Job) (v : View) → v.busy ≡ true → start_job job v ≡ (v, [])
unfolding start_job
start_job-busy job v b = simp (b) refl

start_job-Changes : (job : Job) (v : View) → Changes v → Changes (start_job job v).0
start_job-Changes job v (b, n, f) = simp (start_job-busy job v b) (b, n, f)

poll-Changes : (now : ℕ) (v : View) → Changes v → Changes (poll now v).0
unfolding poll load
poll-Changes now v (b, n, f) = (ground arith, ground arith, ground arith)

offers-Changes : (k : Action) (v : View) → Changes v → offers k v ≡ true → Changes (handle k v).0
unfolding offers offers_job handle load edit close create generate derive calibrated type_key
    type_field
offers-Changes mounted v (b, n, f) o = (b, n, f)
offers-Changes unmounted v (b, n, f) o = (b, n, f)
offers-Changes derive_left v (b, n, f) o = absurd (closed v.form f o)
offers-Changes generate_clicked v (b, n, f) o = absurd (closed v.form f o)
offers-Changes create_clicked v (b, n, f) o =
    absurd (no_button v.busy v.loaded (is_empty v.items) b n o)
offers-Changes form_closed v (b, n, f) o = (b, n, refl)
offers-Changes calibrate_closed v (b, n, f) o = (b, n, f)
offers-Changes (interval now) v (b, n, f) o =
    elim v.ticking as (λ x. Changes (if x then poll now v else (v, [])).0) [
      | true ↦ poll-Changes now v (b, n, f)
      | false ↦ (b, n, f)
    ]
offers-Changes (job_clicked job) v h o = start_job-Changes job v h
offers-Changes (edit_clicked g) v (b, n, f) o = absurd (not_free (has_card v g) v.busy b o)
offers-Changes (calibrate_clicked g) v (b, n, f) o = (b, n, f)
offers-Changes (calibrate_done m) v (b, n, f) o = (b, n, f)
offers-Changes (key_typed key) v (b, n, f) o = absurd (closed v.form f o)
offers-Changes (field_typed g) v (b, n, f) o = absurd (closed v.form f o)

abbrev pub calls : List Action → List (Event Action Reply)
calls [] = []
calls (k ∷ ks) = call k ∷ calls ks

-- While a change of the gateways waits for its answer, where the list has gateways and no form is
-- open, whatever is called of what the page offers opens no form.
pub run-offers :
    (s : Sys View Waiting) (ks : List Action)
    → s.state.busy ≡ true
    → is_empty s.state.items ≡ false
    → s.state.form ≡ none
    → all_offered s (calls ks) ≡ true
    → (run handle resume s (calls ks)).state.form ≡ none
unfolding run step all_offered
run-offers s [] b n f o = f
run-offers s (k ∷ ks) b n f o =
    let (now, later) =
      both (offers k s.state) (all_offered (step handle resume s (call k)) (calls ks)) o in
    let (b2, n2, f2) = offers-Changes k s.state (b, n, f) now in
    run-offers (step handle resume s (call k)) ks b2 n2 f2 later
  where
    both : (a b : Bool) → (a && b) ≡ true → (a ≡ true) × (b ≡ true)
    both a b h = ground arith

-- Up to a form that is filled in while the one before it, which was closed, is being saved.
abbrev pub refilled : GatewayInput → GatewayInput → Reply → List (Event Action Reply)
refilled first second empty =
    call mounted
    ∷ settle 0 empty
    ∷ settle 0 empty
    ∷ call create_clicked
    ∷ call (field_typed first)
    ∷ call (job_clicked save)
    ∷ call form_closed
    ∷ call create_clicked
    ∷ call (field_typed second)
    ∷ []

-- Where the server lists no gateways: a new form is filled in and saved, it is closed, and the button in
-- place of the list opens another one, which is filled in. All of this is offered by the page. The
-- answer to the saving closes the second form, with what has been typed into it.
pub run-refilled :
    (first second : GatewayInput) (b : Body) (from at : ℕ)
    → b.as_list ≡ []
    → (all_offered (start from) (refilled first second (fulfilled b, at)) ≡ true)
      × ((run handle resume (start from) (refilled first second (fulfilled b, at))).state.form
          ≡ some (record second { private_key = [] }))
      × ((run handle resume (start from) (
            refilled first second (fulfilled b, at)
            ++ (settle 1 (fulfilled b, at) ∷ []))).state.form
          ≡ none)
unfolding run step all_offered offers offers_job handle resume setup load load_done returned_to
    create generate empty_form close type_field start_job request_of run_done job_done input
run-refilled first second b from at e = (rw e refl, refl, refl)
