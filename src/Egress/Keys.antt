-- ===== src/Egress/Keys.antt =====
-- The public key beside the form, against an abstract pair of a private key and what is shown for it.
pub mod Reached
use sbm.Base.{
  ℕ, ◌≡◌, ◌≢◌, refl, sym, ap, ◌∙◌, ◌⊎◌, inl, inr, Bool, true, false, Option, none, some, List, [],
  ◌∷◌, ◌++◌, ◌==◌, ◌&&◌, erase_idx, get_elem?, All, All-append, All-erase_idx, All-get_elem?, arith,
  Bool-cases, Option-cases,
}
use mathlib.Core.Path.{subst}
use sbm.Base.Text.{Text, text_eq, text_eq_sound}
use sbm.Async.{Sys, Event, call, settle, fulfilled, rejected, step, step_inv, run}
use sbm.Message.{Thrown}
use sbm.Types.Gateway.{GatewayInput, EgressGateway}
use sbm.Egress.{
  View, setup, Caller, refresh, ignoring, Waiting, listed, returned, acted, derived, generated, Job,
  save, toggle, remove, detect, reset, Body, Reply, load, load_done, returned_to, input, edit,
  close, derive, derive_done, generate, generate_done, create, key_of, empty_form, next_position,
}
use sbm.Egress
use sbm.Egress.Change.{
  request_of, start_job, job_done, run_done, resume, calibrated, poll, type_key, type_field, Action,
  mounted, unmounted, derive_left, generate_clicked, create_clicked, form_closed, calibrate_closed,
  interval, job_clicked, edit_clicked, calibrate_clicked, calibrate_done, key_typed, field_typed,
  handle,
}
use sbm.Egress.Invariant.{start}

-- The form's private key, and the public key that is shown.
pub record Shown : Type 0 where
  pub private_key : Text
  pub public_key : Text

abbrev pub shown : View → Shown
shown v = record { private_key = key_of v.form; public_key = v.public_key }

-- `pub_of` gives the public key of a private one.
module _ (pub_of : Text → Text) where
  -- What may happen to the pair: nothing, a private key with nothing shown for it, or with its own
  -- public key.
  pub data KeyStep : Shown → Shown → Type 0 where
    stays : (a : Shown) → KeyStep a a
    hides : (a : Shown) (k : Text) → KeyStep a (record { private_key = k; public_key = [] })
    shows : (a : Shown) (k : Text) → KeyStep a (record { private_key = k; public_key = pub_of k })

  -- Steps one after another.
  pub data Reaches : Shown → Shown → Type 0 where
    done : (a : Shown) → Reaches a a
    next : (a b c : Shown) → Reaches a b → KeyStep b c → Reaches a c

  -- A gateway as the server lists it, with its own public key or none.
  abbrev pub HasKey : EgressGateway → Type 0
  HasKey g = (g.public_key ≡ []) ⊎ (g.public_key ≡ pub_of g.input.private_key)

  -- What the server answers to the request behind a continuation.
  abbrev pub Answers : Waiting → Reply → Type 0
  Answers (listed n c) (fulfilled b, now) = All HasKey b.as_list
  Answers (derived n k) (fulfilled b, now) = b.as_keys.public_key ≡ pub_of k
  Answers (generated n) (fulfilled b, now) = b.as_keys.public_key ≡ pub_of b.as_keys.private_key
  Answers c r = Unit

  -- An event that can happen: a gateway that is edited is listed, and the server answers.
  abbrev pub Listed : EgressGateway → List EgressGateway → Type 0
  Listed g gs = (i : ℕ) × (get_elem? gs i ≡ some g)

  abbrev AnswersAt : Option Waiting → Reply → Type 0
  AnswersAt none r = Unit
  AnswersAt (some c) r = Answers c r

  abbrev pub Fair : Sys View Waiting → Event Action Reply → Type 0
  Fair s (call (edit_clicked g)) = Listed g s.state.items
  Fair s (call k) = Unit
  Fair s (settle i r) = AnswersAt (get_elem? s.waiting i) r

  edit-KeyStep : (g : EgressGateway) (v : View) → HasKey g → KeyStep (shown v) (shown (edit g v))
  unfolding edit input
  edit-KeyStep g v (inl e) = rw e (hides (shown v) g.input.private_key)
  edit-KeyStep g v (inr e) = rw e (shows (shown v) g.input.private_key)

  derive-shown :
      (v : View) → shown (derive v).0 ≡ record { private_key = key_of v.form; public_key = [] }
  unfolding derive
  derive-shown v = ground arith

  start_job-shown : (job : Job) (v : View) → shown (start_job job v).0 ≡ shown v
  unfolding start_job load
  start_job-shown job v = ground arith

  poll-shown : (now : ℕ) (v : View) → shown (poll now v).0 ≡ shown v
  unfolding poll load
  poll-shown now v = ground arith

  stays_at : (a b : Shown) → b ≡ a → KeyStep a b
  stays_at a b e = rw e (stays a)

  hides_at : (a b : Shown) → b.public_key ≡ [] → KeyStep a b
  hides_at a b e =
      subst (λ k. KeyStep a (record { private_key = b.private_key; public_key = k })) (sym e)
        (hides a b.private_key)

  shows_at : (a b : Shown) → b.public_key ≡ pub_of b.private_key → KeyStep a b
  shows_at a b e =
      subst (λ k. KeyStep a (record { private_key = b.private_key; public_key = k })) (sym e)
        (shows a b.private_key)

  type_key-KeyStep : (key : Text) (v : View) → KeyStep (shown v) (shown (type_key key v))
  unfolding type_key
  type_key-KeyStep key v = elim (Option-cases v.form) [
    | inl n ↦ stays_at _ _ (ground arith)
    | inr (f, e) ↦ hides_at _ _ (ground arith)
  ]

  pub handle-KeyStep :
      (k : Action) (s : Sys View Waiting)
      → All HasKey s.state.items
      → Fair s (call k)
      → KeyStep (shown s.state) (shown (handle k s.state).0)
  unfolding handle load close create generate calibrated type_key type_field
  handle-KeyStep mounted s h f = stays _
  handle-KeyStep unmounted s h f = stays _
  handle-KeyStep derive_left s h f = hides_at _ _ (ap Shown.public_key (derive-shown s.state))
  handle-KeyStep generate_clicked s h f = stays _
  handle-KeyStep create_clicked s h f = hides_at _ _ refl
  handle-KeyStep form_closed s h f = hides_at _ _ refl
  handle-KeyStep calibrate_closed s h f = stays _
  handle-KeyStep (interval now) s h f = stays_at _ _ (ground (arith, poll-shown now s.state))
  handle-KeyStep (job_clicked job) s h f = stays_at _ _ (start_job-shown job s.state)
  handle-KeyStep (edit_clicked g) s h (i, at) =
      edit-KeyStep g s.state (All-get_elem? HasKey s.state.items i h at)
  handle-KeyStep (calibrate_clicked g) s h f = stays _
  handle-KeyStep (calibrate_done m) s h f = stays _
  handle-KeyStep (key_typed key) s h f = type_key-KeyStep key s.state
  handle-KeyStep (field_typed g) s h f = stays_at _ _ (ground arith)

  load_done-shown : (n : ℕ) (r : Reply) (v : View) → shown (load_done n r v) ≡ shown v
  unfolding load_done
  load_done-shown n (fulfilled b, now) v = ground arith
  load_done-shown n (rejected e, now) v = ground arith

  returned_to-shown :
      (c : Caller) (o : Option Thrown) (v : View) → shown (returned_to c o v) ≡ shown v
  unfolding returned_to
  returned_to-shown refresh none v = refl
  returned_to-shown refresh (some e) v = refl
  returned_to-shown ignoring o v = refl
  returned_to-shown Egress.run none v = refl
  returned_to-shown Egress.run (some e) v = refl

  run_done-KeyStep :
      (job : Job) (r : Reply) (v : View) → KeyStep (shown v) (shown (run_done job r v).0)
  unfolding run_done job_done load close returned_to
  run_done-KeyStep save (fulfilled b, now) v = hides_at _ _ refl
  run_done-KeyStep (toggle g) (fulfilled b, now) v = stays _
  run_done-KeyStep (remove g) (fulfilled b, now) v = stays _
  run_done-KeyStep (detect g) (fulfilled b, now) v = stays _
  run_done-KeyStep (reset g) (fulfilled b, now) v = stays _
  run_done-KeyStep job (rejected e, now) v = stays _

  -- The answer to `derive` is shown only for the key that the form still has.
  derive_done-KeyStep :
      (n : ℕ) (k : Text) (r : Reply) (v : View)
      → Answers (derived n k) r
      → KeyStep (shown v) (shown (derive_done n k r v))
  unfolding derive_done
  derive_done-KeyStep n k (rejected e, now) v h = stays _
  derive_done-KeyStep n k (fulfilled b, now) v h =
      elim (Bool-cases (n == v.key_revision && text_eq (key_of v.form) k)) [
        | inl on ↦
            let same : text_eq (key_of v.form) k ≡ true = ground arith in
            let e = text_eq_sound (key_of v.form) k same in
            rw on (shows_at _ _ (h ∙ ap pub_of (sym e)))
        | inr off ↦ rw off (stays _)
      ]

  generate_done-KeyStep :
      (n : ℕ) (r : Reply) (v : View)
      → Answers (generated n) r
      → KeyStep (shown v) (shown (generate_done n r v))
  unfolding generate_done
  generate_done-KeyStep n (rejected e, now) v h = stays _
  generate_done-KeyStep n (fulfilled b, now) v h = elim (Bool-cases (n == v.key_revision)) [
    | inl on ↦ elim (Option-cases v.form) [
      | inl n ↦ stays_at _ _ (ground arith)
      | inr (f, e) ↦ shows_at _ _ (ground (arith, h))
    ]
    | inr off ↦ stays_at _ _ (ground arith)
  ]

  pub resume-KeyStep :
      (c : Waiting) (r : Reply) (v : View)
      → Answers c r
      → KeyStep (shown v) (shown (resume c r v).0)
  unfolding resume
  resume-KeyStep (listed n c) r v h = stays_at _ _ (load_done-shown n r v)
  resume-KeyStep (returned c o) r v h = stays_at _ _ (returned_to-shown c o v)
  resume-KeyStep (acted job) r v h = run_done-KeyStep job r v
  resume-KeyStep (derived n k) r v h = derive_done-KeyStep n k r v h
  resume-KeyStep (generated n) r v h = generate_done-KeyStep n r v h
