-- ===== src/Egress/Tests.antt =====
-- Runs of the gateways' view, among them that of web/scripts/egress-race-unit.mjs.
use sbm.Base.{ℕ, ◌≡◌, refl, true, false, Option, none, some, List, [], ◌∷◌, All, map, ◌⊎◌}
use sbm.Base.Text.{Text, codes}
use sbm.Base.Int.{pos, negsuc, ltb_ℤ}
use sbm.Async.{Sys, Event, call, settle, fulfilled, step, run}
use sbm.Types.Gateway.{GatewayInput, EgressGateway, GatewaySampleStatus}
use sbm.Egress.{
  View, setup, refresh, Waiting, save, Reply, load, load_done, returned_to, input, edit, close,
  derive, derive_done, generate, generate_done, max_position, next_position, empty_form, create,
}
use sbm.Egress.Change.{
  request_of, start_job, job_done, run_done, resume, calibrated, poll, type_key, type_field, Action,
  mounted, create_clicked, job_clicked, edit_clicked, field_typed, handle,
}
use sbm.Egress.Position.{position_of, create-Above}
use sbm.Egress.Invariant.{start, run-Counted, Counted}
use sbm.Egress.Shown.{run-Shields}
use sbm.Egress.Keys.Reached.{Reached, begins, goes, Reached-Own}

view : Unit {0}
unfolding run step handle resume setup load load_done returned_to input edit close derive
    derive_done generate generate_done max_position next_position empty_form create request_of
    start_job job_done run_done calibrated poll type_key type_field
view = tt

abbrev pub settings : Text → ℕ → GatewayInput
unfolding empty_form
settings marker amount = record (empty_form (pos 0)) {
  enabled = true;
  marker = marker;
  traffic_quota = record (empty_form (pos 0)).traffic_quota {
    amount = record { digits = amount; behind = 0 };
  };
}

abbrev pub gateway : GatewayInput → EgressGateway
gateway g = record {
  input = g;
  id = codes "exit";
  tunnel_slot = 0;
  geo = record {
    ip = [];
    country_code = [];
    country = [];
    region = [];
    city = [];
    updated_at = [];
  };
  public_key = codes "public";
  name = [];
  location = [];
  tunnel_address = [];
  peer_address = [];
  usage = record {
    id = codes "exit";
    name = [];
    marker = [];
    location = [];
    enabled = true;
    tunnel_tx = 0;
    tunnel_rx = 0;
    tunnel_bytes = 0;
    traffic_quota = g.traffic_quota;
    provider_allowance_bytes = 0;
    estimated_provider_used_bytes = 0;
    provider_remaining_bytes = 0;
    provider_progress = record { digits = 0; behind = 0 };
    usage_calibrated = none;
    paused = none;
    warning = false;
    period_started_at = [];
    next_reset_at = none;
    sample_health = record {
      status = GatewaySampleStatus.healthy;
      last_success_at = none;
      failure_since = none;
      partial = none;
    };
    persistence_health = none;
  };
}

abbrev pub listing : List EgressGateway → Reply
listing gs = (
  fulfilled (record {
    as_list = gs;
    as_keys = record { private_key = []; public_key = [] };
    geo_detected = true;
  }),
  0,
)

abbrev pub old_one : EgressGateway
old_one = gateway (settings (codes "OLD") 1)

abbrev new_one : EgressGateway
new_one = gateway (input (settings (codes "NEW") 1))

-- What the script does: a load whose answer is held back, a form with a new marker that is saved, and
-- then the old answer. The list stands there before, from a load of its own.
abbrev race : List (Event Action Reply)
race =
    call mounted
    ∷ settle 0 (listing (old_one ∷ []))
    ∷ settle 0 (listing [])
    ∷ call mounted
    ∷ call (edit_clicked old_one)
    ∷ call (field_typed (settings (codes "NEW") 1))
    ∷ call (job_clicked save)
    ∷ settle 1 (listing [])
    ∷ settle 1 (listing (new_one ∷ []))
    ∷ settle 1 (listing [])
    ∷ settle 0 (listing (old_one ∷ []))
    ∷ []

abbrev markers : View → List Text
markers v = map (λ g. g.input.marker) v.items

markers-race : markers (run handle resume (start 0) race).state ≡ codes "NEW" ∷ []
unfolding view
markers-race = refl

busy-race : (run handle resume (start 0) race).state.busy ≡ false
unfolding view
busy-race = refl

-- The later save sends the new marker with the new amount.
abbrev saved : Option GatewayInput
saved =
    (run handle resume (run handle resume (start 0) race) (
      call (edit_clicked new_one) ∷ call (field_typed (settings (codes "NEW") 10)) ∷ [])).state.form

form-saved : saved ≡ some (settings (codes "NEW") 10)
unfolding view
form-saved = refl

run-Counted_example : Counted (run handle resume (start 0) race)
run-Counted_example = run-Counted 0 race

-- The load in flight is the one that the script holds back.
abbrev held : List (Event Action Reply)
held = call mounted ∷ []

run-Shields_example :
    load_done 1
      (listing (old_one ∷ []))
      (run handle resume
        (step handle resume (run handle resume (start 0) held) (call (edit_clicked old_one)))
        (call (job_clicked save)
          ∷ settle 1 (listing [])
          ∷ settle 1 (listing (new_one ∷ []))
          ∷ [])).state
    ≡ record (run handle resume
        (step handle resume (run handle resume (start 0) held) (call (edit_clicked old_one)))
        (call (job_clicked save)
          ∷ settle 1 (listing [])
          ∷ settle 1 (listing (new_one ∷ []))
          ∷ [])).state { pending = 0 }
unfolding view
run-Shields_example =
    run-Shields 0 held 0 1 refresh (edit_clicked old_one)
      (call (job_clicked save) ∷ settle 1 (listing []) ∷ settle 1 (listing (new_one ∷ [])) ∷ [])
      (listing (old_one ∷ [])) refl refl

abbrev two : View
unfolding setup
two = record (setup 0) {
  items =
      gateway (record (settings [] 1) { position = negsuc 4 })
      ∷ gateway (record (settings [] 1) { position = negsuc 1 })
      ∷ [];
}

create-Above_two :
    All (λ g. ltb_ℤ g.input.position (position_of (create two).0.form) ≡ true) two.items
create-Above_two = create-Above two

-- The form of a new gateway, its key pair from the server, and another key that is typed over it.
abbrev pair_reply : Reply
pair_reply = (
  fulfilled (record {
    as_list = [];
    as_keys = record { private_key = codes "k"; public_key = codes "Pk" };
    geo_detected = true;
  }),
  0,
)

abbrev prefixed : Text → Text
prefixed k = 80 ∷ k

abbrev formed : Sys View Waiting
formed = step handle resume (start 0) (call create_clicked)

abbrev paired : Sys View Waiting
paired = step handle resume formed (settle 0 pair_reply)

reached : Reached prefixed paired
unfolding view
reached = goes _ (settle 0 pair_reply) (goes _ (call create_clicked) (begins 0) tt) refl

Reached-Own_example : (codes "Pk" ≡ []) ⊎ (codes "Pk" ≡ prefixed (codes "k"))
unfolding view
Reached-Own_example = Reached-Own prefixed paired reached
