-- ===== src/Egress.antt =====
-- The script of web/src/views/EgressView.vue: the list of gateways, the form of one, and the keys in it.
-- `load`, `derive` and `generate` are cut at their `await`.
pub mod Change
pub mod Position
pub mod Guide
pub mod Offered
pub mod Page
pub mod Invariant
pub mod Shown
pub mod Keys
pub mod Tests
mod Examples
use sbm.Base.{
  ℕ, zero, suc, ◌+◌, ◌-◌, Bool, true, false, ◌&&◌, ◌||◌, not, Option, none, some, List, [], ◌∷◌,
  ◌==◌, if◌then◌else◌,
}
use sbm.Base.Text.{Text, codes, text_eq}
use sbm.Base.Int.{ℤ, pos, ltb_ℤ, ◌+ℤ◌}
use sbm.Message.{Message, t, Thrown, error_message}
use sbm.Async.{Settled, fulfilled, rejected}
use sbm.PollStatus.{PollStatus, use_poll_status, tick, succeeded, failed}
use sbm.Types.{gb, single, ResetMode}
use sbm.Types.Gateway.{GatewayInput, EgressGateway}

-- `status` is what `usePollStatus` keeps; `ticking` says that the interval lives; `toasts` has the last
-- message first.
pub record View : Type 0 where
  pub items : List EgressGateway
  pub loaded : Bool
  pub busy : Bool
  pub form : Option GatewayInput
  pub editing : Option EgressGateway
  pub public_key : Text
  pub calibrating : Option EgressGateway
  pub key_revision : ℕ
  pub list_revision : ℕ
  pub disposed : Bool
  pub pending : ℕ
  pub status : PollStatus
  pub ticking : Bool
  pub toasts : List Message

unfoldable pub setup : ℕ → View
setup now = record {
  items = [];
  loaded = false;
  busy = false;
  form = none;
  editing = none;
  public_key = [];
  calibrating = none;
  key_revision = 0;
  list_revision = 0;
  disposed = false;
  pending = 0;
  status = use_poll_status now;
  ticking = false;
  toasts = [];
}

-- Who awaits a `load`: `refresh`, whose `guard` shows a failure; a caller that ignores it; or `run`.
pub data Caller : Type 0 where
  refresh ignoring run : Caller

-- What `run` was called with.
pub data Job : Type 0 where
  save : Job
  toggle remove detect reset : EgressGateway → Job

-- What waits behind an `await`: of `load`, of the caller of a `load` that has ended, of the action of
-- `run`, of `derive` with the key that it read, and of `generate`.
pub data Waiting : Type 0 where
  listed : ℕ → Caller → Waiting
  returned : Caller → Option Thrown → Waiting
  acted : Job → Waiting
  derived : ℕ → Text → Waiting
  generated : ℕ → Waiting

pub record KeyPair : Type 0 where
  pub private_key : Text
  pub public_key : Text

-- The JSON of an answer, at every type that a caller casts it to.
pub record Body : Type 0 where
  pub as_list : List EgressGateway
  pub as_keys : KeyPair
  pub geo_detected : Bool

-- An answer and the time at which it comes.
abbrev pub Reply : Type 0
Reply = Settled Body Thrown × ℕ

abbrev pub emit : Message → View → View
emit m v = record v { toasts = m ∷ v.toasts }

unfoldable pub load : Caller → View → View × List Waiting
load caller v =
    let revision = suc v.list_revision in
    (record v { list_revision = revision; pending = suc v.pending }, listed revision caller ∷ [])

-- The rest of `load`: what it writes, and what its caller gets when it has ended.
unfoldable pub load_done : ℕ → Reply → View → View
load_done revision (fulfilled b, now) v =
    let w = record v { pending = v.pending - 1 } in
    if v.disposed || not (revision == v.list_revision)
    then w
    else record w { items = b.as_list; loaded = true; status = succeeded now v.status }
load_done revision (rejected e, now) v =
    let w = record v { pending = v.pending - 1 } in
    if not v.disposed && revision == v.list_revision
    then record w { status = failed now v.status }
    else w

abbrev pub thrown_of : Reply → Option Thrown
thrown_of (fulfilled b, now) = none
thrown_of (rejected e, now) = some e

-- `guard` shows what was thrown, and `run` is no longer busy.
unfoldable pub returned_to : Caller → Option Thrown → View → View
returned_to refresh none v = v
returned_to refresh (some e) v = emit (error_message e) v
returned_to ignoring o v = v
returned_to run none v = record v { busy = false }
returned_to run (some e) v = emit (error_message e) (record v { busy = false })

-- `!!stopOnQuota`
abbrev truthy : Option Bool → Bool
truthy none = false
truthy (some b) = b

-- The copy of a gateway's settings that a form edits or a request sends.
unfoldable pub input : GatewayInput → GatewayInput
input g = record g { stop_on_quota = some (truthy g.stop_on_quota) }

unfoldable pub edit : EgressGateway → View → View
edit g v = record v {
  list_revision = suc v.list_revision;
  editing = some g;
  form = some (input g.input);
  public_key = g.public_key;
  key_revision = suc v.key_revision;
}

unfoldable pub close : View → View
close v = record v {
  form = none;
  editing = none;
  public_key = [];
  key_revision = suc v.key_revision;
}

-- `form.value?.privateKey`, where none and the empty text both end `derive`.
abbrev pub key_of : Option GatewayInput → Text
key_of none = []
key_of (some f) = f.private_key

unfoldable pub derive : View → View × List Waiting
derive v =
    let revision = suc v.key_revision in
    let w = record v { key_revision = revision; public_key = [] } in
    elim (key_of v.form) [ [] ↦ (w, []) | c ∷ s ↦ (w, derived revision (c ∷ s) ∷ []) ]

unfoldable pub derive_done : ℕ → Text → Reply → View → View
derive_done revision key (fulfilled b, now) v =
    if revision == v.key_revision && text_eq (key_of v.form) key
    then record v { public_key = b.as_keys.public_key }
    else v
derive_done revision key (rejected e, now) v = emit (error_message e) v

unfoldable pub generate : View → View × List Waiting
generate v =
    let revision = suc v.key_revision in
    (record v { key_revision = revision }, generated revision ∷ [])

abbrev pub with_keys : KeyPair → Option GatewayInput → View → View
with_keys k none v = v
with_keys k (some f) v = record v {
  form = some (record f { private_key = k.private_key });
  public_key = k.public_key;
}

unfoldable pub generate_done : ℕ → Reply → View → View
generate_done revision (fulfilled b, now) v =
    if revision == v.key_revision then with_keys b.as_keys v.form v else v
generate_done revision (rejected e, now) v = emit (error_message e) v

abbrev max_ℤ : ℤ → ℤ → ℤ
max_ℤ a b = if ltb_ℤ a b then b else a

unfoldable pub max_position : EgressGateway → List EgressGateway → ℤ
max_position g [] = g.input.position
max_position g (h ∷ hs) = max_ℤ g.input.position (max_position h hs)

unfoldable pub next_position : List EgressGateway → ℤ
unfolding max_position
next_position [] = pos 0
next_position (g ∷ gs) = max_position g gs +ℤ pos 1

unfoldable pub empty_form : ℤ → GatewayInput
empty_form position = record {
  enabled = false;
  marker = [];
  position = position;
  server = [];
  server_port = 51820;
  private_key = [];
  peer_public_key = [];
  location_override = [];
  traffic_quota = record {
    amount = record { digits = 0; behind = 0 };
    unit = gb;
    billing_mode = single;
    headroom_percent = 10;
  };
  reset = record { mode = ResetMode.none; day = 1; hour = none; timezone = codes "UTC" };
  stop_on_quota = some false;
}

-- `create`, which ends with `generate`.
unfoldable pub create : View → View × List Waiting
unfolding generate empty_form
create v = generate (record v {
  list_revision = suc v.list_revision;
  editing = none;
  public_key = [];
  key_revision = suc v.key_revision;
  form = some (empty_form (next_position v.items));
})
