-- ===== src/Protocols/Laws.antt =====
-- What the inbounds' page shows while answers are awaited.
use sbm.Base.{
  ◌≡◌, refl, sym, ◌∙◌, Option, none, some, [], ◌∷◌, get_elem?, Option-cases, inl, inr, arith,
}
use sbm.Base.Text.{Text}
use sbm.Async.{Sys, Event, call, settle, fulfilled, rejected, step, run}
use sbm.Types.{Inbound}
use sbm.Protocols.{
  View, setup, LinkNode, InboundInput, Waiting, listed, posted, saving, toggled, removed, drawn,
  Body, Reply, load, create, save, save_qr, edit, resume, Action, mounted, create_submitted,
  create_closed, save_submitted, edit_closed, qr_closed, save_clicked, toggle_clicked,
  remove_confirmed, edit_clicked, qr_clicked, add_clicked, create_typed, edit_typed, handle,
}

abbrev pub start : Text → Sys View Waiting
start name = record { state = setup name; waiting = [] }

-- `card` is what is drawn for a link.
module _ (card : LinkNode → Text) where
  -- The answer to a drawing is its card.
  abbrev pub Draws : Option Waiting → Reply → Type 0
  Draws (some (drawn n)) (fulfilled b) = b.as_card ≡ card n
  Draws c r = Unit

  abbrev pub Fair : Sys View Waiting → Event Action Reply → Type 0
  Fair s (call k) = Unit
  Fair s (settle i r) = Draws (get_elem? s.waiting i) r

  pub data Reached : Sys View Waiting → Type 0 where
    begins : (name : Text) → Reached (start name)
    goes :
        (s : Sys View Waiting) (e : Event Action Reply)
        → Reached s
        → Fair s e
        → Reached (step handle resume s e)

  abbrev pub Paired : View → Type 0
  Paired v = (n : LinkNode) → v.qr_item ≡ some n → v.qr ≡ card n

  same_pair : (v w : View) → w.qr ≡ v.qr → w.qr_item ≡ v.qr_item → Paired v → Paired w
  same_pair v w e f h = λ n p. cc (h n (sym f ∙ p))

  handle-Paired : (k : Action) (v : View) → Paired v → Paired (handle k v).0
  unfolding handle load create save save_qr edit
  handle-Paired mounted v h = h
  handle-Paired create_submitted v h = h
  handle-Paired create_closed v h = h
  handle-Paired save_submitted v h = same_pair v (save v).0 (ground arith) (ground arith) h
  handle-Paired edit_closed v h = h
  handle-Paired qr_closed v h = λ n e. cc
  handle-Paired save_clicked v h = same_pair v (save_qr v) (ground arith) (ground arith) h
  handle-Paired (toggle_clicked i) v h = h
  handle-Paired (remove_confirmed i) v h = h
  handle-Paired (edit_clicked i) v h = h
  handle-Paired (qr_clicked m) v h = h
  handle-Paired (add_clicked name) v h = h
  handle-Paired (create_typed f) v h = h
  handle-Paired (edit_typed x) v h = h

  resume-Paired :
      (c : Waiting) (r : Reply) (v : View) → Draws (some c) r → Paired v → Paired (resume c r v).0
  unfolding resume load
  resume-Paired listed (fulfilled b) v f h = h
  resume-Paired (posted x) (fulfilled b) v f h = h
  resume-Paired (saving x) (fulfilled b) v f h = h
  resume-Paired (toggled i) (fulfilled b) v f h = h
  resume-Paired (removed i) (fulfilled b) v f h = h
  resume-Paired (drawn m) (fulfilled b) v f h = λ n e. cc
  resume-Paired listed (rejected e) v f h = h
  resume-Paired (posted x) (rejected e) v f h = h
  resume-Paired (saving x) (rejected e) v f h = h
  resume-Paired (toggled i) (rejected e) v f h = h
  resume-Paired (removed i) (rejected e) v f h = h
  resume-Paired (drawn m) (rejected e) v f h = h

  step-Paired :
      (s : Sys View Waiting) (e : Event Action Reply)
      → Paired s.state
      → Fair s e
      → Paired (step handle resume s e).state
  unfolding step
  step-Paired s (call k) h f = handle-Paired k s.state h
  step-Paired s (settle i r) h f = elim (Option-cases (get_elem? s.waiting i)) [
    | inl gone ↦ rw gone h
    | inr (c, here) ↦
        let a : Draws (some c) r = rw here at f in rw here (resume-Paired c r s.state a h)
  ]

  paired : (s : Sys View Waiting) → Reached s → Paired s.state
  unfolding setup
  paired _ (begins name) = λ n e. cc
  paired _ (goes s e p f) = step-Paired s e (paired s p) f

  -- However the codes of several links are asked for and whenever they are drawn, if each drawing gives the
  -- card of its link then the code in the dialog is that of the link whose name stands above it.
  pub Reached-Paired :
      (s : Sys View Waiting) (n : LinkNode)
      → Reached s
      → s.state.qr_item ≡ some n
      → s.state.qr ≡ card n
  Reached-Paired s n p = paired s p n

-- A form that is opened while the one before is being saved is closed, with what has been typed into it,
-- by the answer to that saving.
pub run-closes_other :
    (v : View) (old : InboundInput) (other : Inbound) (e : InboundInput) (b : Body)
    → (run handle resume
          (record { state = record v { editing = some old }; waiting = [] })
          (call save_submitted
            ∷ call edit_closed
            ∷ call (edit_clicked other)
            ∷ call (edit_typed e)
            ∷ [])).state.editing
        ≡ some e
      × ((run handle resume
            (record { state = record v { editing = some old }; waiting = [] })
            (call save_submitted
              ∷ call edit_closed
              ∷ call (edit_clicked other)
              ∷ call (edit_typed e)
              ∷ settle 0 (fulfilled b)
              ∷ [])).state.editing
          ≡ none)
unfolding run step handle resume save edit load
run-closes_other v old other e b = (refl, refl)

-- The list that an earlier load answers late replaces that of a later one.
run-old_list :
    (v : View) (first second : Inbound) (b c d e : Body)
    → (run handle resume
        (record { state = v; waiting = [] })
        (call (remove_confirmed first)
          ∷ settle 0 (fulfilled b)
          ∷ call (remove_confirmed second)
          ∷ settle 1 (fulfilled c)
          ∷ settle 1 (fulfilled d)
          ∷ settle 0 (fulfilled e)
          ∷ [])).state.items
      ≡ e.as_list
unfolding run step handle resume load
run-old_list v first second b c d e = refl
