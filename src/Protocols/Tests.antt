-- ===== src/Protocols/Tests.antt =====
-- Runs of the inbounds' page.
use sbm.Base.{◌≡◌, refl, true, none, some, [], ◌∷◌}
use sbm.Base.Text.{Text, codes}
use sbm.Async.{Sys, call, settle, fulfilled, step, run}
use sbm.Types.{hysteria2, Network, Inbound}
use sbm.Protocols.{
  View, setup, LinkNode, input, Waiting, Body, duplicate, load, create, save, save_qr, edit, resume,
  save_submitted, edit_closed, edit_clicked, edit_typed, qr_clicked, handle,
}
use sbm.Protocols.Laws.{start, Reached, begins, goes, Reached-Paired, run-closes_other}

abbrev node : Text → LinkNode
node name = record { name = name; link = codes "hy2://" }

abbrev inbound : Text → Inbound
inbound name = record {
  id = name;
  type = hysteria2;
  name = name;
  enabled = true;
  port = 8443;
  network = Network.udp;
  link = [];
  vless = none;
  hysteria2 = none;
  egress_nodes = none;
}

abbrev body : Text → Body
body card = record { as_list = []; as_card = card }

abbrev card_of : LinkNode → Text
card_of n = n.name

view : Unit {0}
unfolding run step handle resume setup load create save save_qr edit duplicate
view = tt

-- Two codes are asked for, and the first is drawn last.
abbrev asked : Sys View Waiting
asked =
    step handle resume (step handle resume (start []) (call (qr_clicked (node (codes "a")))))
      (call (qr_clicked (node (codes "b"))))

abbrev drawn_late : Sys View Waiting
drawn_late =
    step handle resume (step handle resume asked (settle 1 (fulfilled (body (codes "b")))))
      (settle 0 (fulfilled (body (codes "a"))))

reached : Reached card_of drawn_late
unfolding view
reached =
    goes _ (settle 0 (fulfilled (body (codes "a"))))
      (goes _ (settle 1 (fulfilled (body (codes "b"))))
        (goes _ (call (qr_clicked (node (codes "b"))))
          (goes _ (call (qr_clicked (node (codes "a")))) (begins []) tt) tt)
        refl)
      refl

Reached-Paired_example : drawn_late.state.qr ≡ codes "a"
unfolding view
Reached-Paired_example = Reached-Paired card_of drawn_late (node (codes "a")) reached refl

abbrev blank : View
unfolding setup
blank = setup []

run-closes_other_example :
    (run handle resume
        (record {
          state = record blank { editing = some (input (inbound (codes "a"))) };
          waiting = [];
        })
        (call save_submitted
          ∷ call edit_closed
          ∷ call (edit_clicked (inbound (codes "b")))
          ∷ call (edit_typed (input (inbound (codes "c"))))
          ∷ [])).state.editing
      ≡ some (input (inbound (codes "c")))
    × ((run handle resume
          (record {
            state = record blank { editing = some (input (inbound (codes "a"))) };
            waiting = [];
          })
          (call save_submitted
            ∷ call edit_closed
            ∷ call (edit_clicked (inbound (codes "b")))
            ∷ call (edit_typed (input (inbound (codes "c"))))
            ∷ settle 0 (fulfilled (body []))
            ∷ [])).state.editing
        ≡ none)
run-closes_other_example =
    run-closes_other blank (input (inbound (codes "a"))) (inbound (codes "b"))
      (input (inbound (codes "c"))) (body [])

-- A second inbound of a type is warned of.
duplicate-view :
    duplicate (record blank {
      items = inbound [] ∷ [];
      create_form = record { type = hysteria2; name = []; port = 1 };
    })
    ≡ true
unfolding view
duplicate-view = refl
