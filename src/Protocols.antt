-- ===== src/Protocols.antt =====
-- The script of web/src/views/ProtocolsView.vue: the list of inbounds, the forms that make and edit one, and
-- the QR code of a link. Each function is cut at its `await`; `load` ends the functions that await it.
pub mod Page
pub mod Laws
mod Tests
use sbm.Base.{ℕ, Bool, true, false, ◌||◌, not, Option, none, some, List, [], ◌∷◌, if◌then◌else◌}
use sbm.Base.Text.{Text}
use sbm.Message.{Message, t, Thrown, error_message}
use sbm.Async.{Settled, fulfilled, rejected}
use sbm.Types.{InboundType, vless_reality, hysteria2, VlessOptions, Hysteria2Options, Inbound}

pub record LinkNode : Type 0 where
  pub name : Text
  pub link : Text

pub record CreateForm : Type 0 where
  pub type : InboundType
  pub name : Text
  pub port : ℕ

-- An inbound without `link`, `network` and `egressNodes`, as it is edited and sent.
pub record InboundInput : Type 0 where
  pub id : Text
  pub type : InboundType
  pub name : Text
  pub enabled : Bool
  pub port : ℕ
  pub vless : Option VlessOptions
  pub hysteria2 : Option Hysteria2Options

abbrev pub input : Inbound → InboundInput
input i = record {
  id = i.id;
  type = i.type;
  name = i.name;
  enabled = i.enabled;
  port = i.port;
  vless = i.vless;
  hysteria2 = i.hysteria2;
}

-- `saved` has the cards that were downloaded with their names, and `toasts` the messages, the last first.
pub record View : Type 0 where
  pub items : List Inbound
  pub editing : Option InboundInput
  pub creating : Bool
  pub qr : Text
  pub qr_item : Option LinkNode
  pub create_form : CreateForm
  pub saved : List (Text × Text)
  pub toasts : List Message

-- The name is `t('protocol.defaultName')`.
abbrev pub default_form : Text → CreateForm
default_form name = record { type = vless_reality; name = name; port = 8443 }

unfoldable pub setup : Text → View
setup name = record {
  items = [];
  editing = none;
  creating = false;
  qr = [];
  qr_item = none;
  create_form = default_form name;
  saved = [];
  toasts = [];
}

abbrev same_type : InboundType → InboundType → Bool
same_type vless_reality vless_reality = true
same_type hysteria2 hysteria2 = true
same_type _ _ = false

abbrev some_of : InboundType → List Inbound → Bool
some_of type [] = false
some_of type (i ∷ is) = same_type i.type type || some_of type is

unfoldable pub duplicate : View → Bool
duplicate v = some_of v.create_form.type v.items

-- What waits behind an `await`: of `load`, of the request of a change with what it sends, and of `showQR`.
pub data Waiting : Type 0 where
  listed : Waiting
  posted : CreateForm → Waiting
  saving : InboundInput → Waiting
  toggled removed : Inbound → Waiting
  drawn : LinkNode → Waiting

-- The JSON of an answer, or the card that was drawn.
pub record Body : Type 0 where
  pub as_list : List Inbound
  pub as_card : Text

abbrev pub Reply : Type 0
Reply = Settled Body Thrown

abbrev pub emit : Message → View → View
emit m v = record v { toasts = m ∷ v.toasts }

unfoldable pub load : View → View × List Waiting
load v = (v, listed ∷ [])

unfoldable pub create : View → View × List Waiting
create v = (v, posted v.create_form ∷ [])

unfoldable pub save : View → View × List Waiting
save v = elim v.editing [ none ↦ (v, []) | some e ↦ (v, saving e ∷ []) ]

-- What a toggle sends.
unfoldable pub toggled_input : Inbound → InboundInput
toggled_input i = record (input i) { enabled = not i.enabled }

-- The rest of each function behind its request.
unfoldable pub resume : Waiting → Reply → View → View × List Waiting
unfolding load
resume c (rejected e) v = (emit (error_message e) v, [])
resume listed (fulfilled b) v = (record v { items = b.as_list }, [])
resume (posted f) (fulfilled b) v =
    load (emit (t "protocol.created") (record v { creating = false }))
resume (saving e) (fulfilled b) v = load (emit (t "protocol.saved") (record v { editing = none }))
resume (toggled i) (fulfilled b) v =
    load (emit (t (if i.enabled then "protocol.disabled" else "protocol.enabled")) v)
resume (removed i) (fulfilled b) v = load (emit (t "protocol.deleted") v)
resume (drawn n) (fulfilled b) v = (record v { qr = b.as_card; qr_item = some n }, [])

unfoldable pub save_qr : View → View
save_qr v = elim v.qr_item [
  | none ↦ v
  | some n ↦ elim v.qr [
    | [] ↦ v
    | c ∷ s ↦ emit (t "protocol.qrSaved") (record v { saved = (c ∷ s, n.name) ∷ v.saved })
  ]
]

unfoldable pub edit : Inbound → View → View
edit i v = record v { editing = some (input i) }

-- What the template and the browser call; what is typed into a form that is shown.
pub data Action : Type 0 where
  mounted create_submitted create_closed save_submitted edit_closed qr_closed save_clicked : Action
  toggle_clicked remove_confirmed edit_clicked : Inbound → Action
  qr_clicked : LinkNode → Action
  add_clicked : Text → Action
  create_typed : CreateForm → Action
  edit_typed : InboundInput → Action

abbrev typed : InboundInput → Option InboundInput → Option InboundInput
typed e none = none
typed e (some old) = some e

unfoldable pub handle : Action → View → View × List Waiting
handle mounted v = load v
handle create_submitted v = create v
handle create_closed v = (record v { creating = false }, [])
handle save_submitted v = save v
handle edit_closed v = (record v { editing = none }, [])
handle qr_closed v = (record v { qr_item = none }, [])
handle save_clicked v = (save_qr v, [])
handle (toggle_clicked i) v = (v, toggled i ∷ [])
handle (remove_confirmed i) v = (v, removed i ∷ [])
handle (edit_clicked i) v = (edit i v, [])
handle (qr_clicked n) v = (v, drawn n ∷ [])
handle (add_clicked name) v = (record v { create_form = default_form name; creating = true }, [])
handle (create_typed f) v = (record v { create_form = f }, [])
handle (edit_typed e) v = (record v { editing = typed e v.editing }, [])
