-- ===== src/Egress/Examples.antt =====
-- Runs of the gateways' view in which only what the page offers is called.
use sbm.Base.{◌≡◌, refl, true, false, none, some, List, [], ◌∷◌, ◌++◌}
use sbm.Base.Text.{codes}
use sbm.Async.{Event, call, settle, fulfilled, step, run}
use sbm.PollStatus.{tick, succeeded, use_poll_status}
use sbm.Types.Gateway.{GatewayInput}
use sbm.Egress.{
  Body, Reply, setup, load, load_done, returned_to, reset, input, edit, close, generate, create,
  empty_form,
}
use sbm.Egress.Change.{
  request_of, start_job, run_done, job_done, resume, poll, type_field, Action, mounted, interval,
  job_clicked, edit_clicked, handle,
}
use sbm.Egress.Invariant.{start}
use sbm.Egress.Offered.{offers, offers_job, all_offered, refilled, run-offers, run-refilled}
use sbm.Egress.Tests.{settings, listing, old_one}

view : Unit {0}
unfolding run step handle resume setup load load_done returned_to create generate empty_form close
    type_field start_job request_of run_done job_done input edit poll all_offered offers offers_job
    succeeded tick use_poll_status
view = tt

-- The list has been loaded, and one gateway is being reset.
abbrev resetting : List (Event Action Reply)
resetting =
    call mounted
    ∷ settle 0 (listing (old_one ∷ []))
    ∷ settle 0 (listing [])
    ∷ call (job_clicked (reset old_one))
    ∷ []

run-offers_example :
    (run handle resume
      (run handle resume (start 0) resetting)
      (call (interval 5000) ∷ call (job_clicked (reset old_one)) ∷ [])).state.form
    ≡ none
unfolding view
run-offers_example =
    run-offers (run handle resume (start 0) resetting)
      (interval 5000 ∷ job_clicked (reset old_one) ∷ []) refl refl refl refl

abbrev answer : Body
answer = record {
  as_list = [];
  as_keys = record { private_key = []; public_key = [] };
  geo_detected = true;
}

abbrev first : GatewayInput
first = settings (codes "A") 1

abbrev second : GatewayInput
second = settings (codes "B") 2

run-refilled_example :
    (all_offered (start 0) (refilled first second (fulfilled answer, 0)) ≡ true)
    × ((run handle resume (start 0) (refilled first second (fulfilled answer, 0))).state.form
        ≡ some (record second { private_key = [] }))
    × ((run handle resume (start 0) (
          refilled first second (fulfilled answer, 0)
          ++ (settle 1 (fulfilled answer, 0) ∷ []))).state.form
        ≡ none)
run-refilled_example = run-refilled first second answer 0 0 refl

-- A click on an edit button is not offered meanwhile, and neither is one on a card that is not there.
offers-edit :
    all_offered (run handle resume (start 0) resetting) (call (edit_clicked old_one) ∷ []) ≡ false
unfolding view
offers-edit = refl

offers-no_card : offers (edit_clicked old_one) (setup 0) ≡ false
unfolding view
offers-no_card = refl
