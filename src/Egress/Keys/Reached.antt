-- ===== src/Egress/Keys/Reached.antt =====
-- What the view shows of a key in every state that it reaches.
use sbm.Base.{ℕ, ◌≡◌, refl, ◌⊎◌, inl, inr, none, some, [], get_elem?, All, arith, Option-cases}
use sbm.Base.Text.{Text}
use sbm.Async.{Sys, Event, call, settle, fulfilled, rejected, step}
use sbm.Egress.{
  View, setup, Caller, refresh, ignoring, Waiting, listed, returned, acted, derived, generated, Job,
  save, toggle, remove, detect, reset, Body, Reply, load, load_done, returned_to, input, edit,
  close, derive, derive_done, generate, generate_done, create, key_of, empty_form, next_position,
}
use sbm.Egress
use sbm.Egress.Change.{
  start_job, job_done, run_done, resume, calibrated, poll, type_key, type_field, Action, mounted,
  unmounted, derive_left, generate_clicked, create_clicked, form_closed, calibrate_closed, interval,
  job_clicked, edit_clicked, calibrate_clicked, calibrate_done, key_typed, field_typed, handle,
}
use sbm.Egress.Invariant.{start}
use sbm.Egress.Keys.{
  Shown, shown, KeyStep, stays, hides, shows, Reaches, done, next, HasKey, Answers, Fair,
  handle-KeyStep, resume-KeyStep,
}

module _ (pub_of : Text → Text) where
  abbrev Listing : View → Type 0
  Listing v = All (HasKey pub_of) v.items

  handle-Listing : (k : Action) (v : View) → Listing v → Listing (handle k v).0
  unfolding handle load edit close create generate calibrated type_key type_field derive start_job
      poll
  handle-Listing mounted v h = h
  handle-Listing unmounted v h = h
  handle-Listing derive_left v h = ground arith
  handle-Listing generate_clicked v h = h
  handle-Listing create_clicked v h = h
  handle-Listing form_closed v h = h
  handle-Listing calibrate_closed v h = h
  handle-Listing (interval now) v h = ground arith
  handle-Listing (job_clicked job) v h = ground arith
  handle-Listing (edit_clicked g) v h = h
  handle-Listing (calibrate_clicked g) v h = h
  handle-Listing (calibrate_done m) v h = h
  handle-Listing (key_typed key) v h = ground arith
  handle-Listing (field_typed g) v h = ground arith

  run_done-Listing : (job : Job) (r : Reply) (v : View) → Listing v → Listing (run_done job r v).0
  unfolding run_done job_done load close returned_to
  run_done-Listing save (fulfilled b, now) v h = h
  run_done-Listing (toggle g) (fulfilled b, now) v h = h
  run_done-Listing (remove g) (fulfilled b, now) v h = h
  run_done-Listing (detect g) (fulfilled b, now) v h = h
  run_done-Listing (reset g) (fulfilled b, now) v h = h
  run_done-Listing job (rejected e, now) v h = h

  resume-Listing :
      (c : Waiting) (r : Reply) (v : View)
      → Answers pub_of c r
      → Listing v
      → Listing (resume c r v).0
  unfolding resume load_done derive_done generate_done returned_to
  resume-Listing (listed n c) (fulfilled b, now) v a h = ground (arith, a)
  resume-Listing (listed n c) (rejected e, now) v a h = ground arith
  resume-Listing (returned refresh none) r v a h = h
  resume-Listing (returned refresh (some e)) r v a h = h
  resume-Listing (returned ignoring o) r v a h = h
  resume-Listing (returned Egress.run none) r v a h = h
  resume-Listing (returned Egress.run (some e)) r v a h = h
  resume-Listing (acted job) r v a h = run_done-Listing job r v h
  resume-Listing (derived n k) (fulfilled b, now) v a h = ground arith
  resume-Listing (derived n k) (rejected e, now) v a h = h
  resume-Listing (generated n) (fulfilled b, now) v a h = ground arith
  resume-Listing (generated n) (rejected e, now) v a h = h

  -- The states that fair events lead to.
  pub data Reached : Sys View Waiting → Type 0 where
    begins : (now : ℕ) → Reached (start now)
    goes :
        (s : Sys View Waiting) (e : Event Action Reply)
        → Reached s
        → Fair pub_of s e
        → Reached (step handle resume s e)

  -- What an event does to the pair and to the list.
  abbrev Moves : View → View → Type 0
  Moves v w = KeyStep pub_of (shown v) (shown w) × Listing w

  step-Moves :
      (s : Sys View Waiting) (e : Event Action Reply)
      → Listing s.state
      → Fair pub_of s e
      → Moves s.state (step handle resume s e).state
  unfolding step
  step-Moves s (call k) h f = (handle-KeyStep pub_of k s h f, handle-Listing k s.state h)
  step-Moves s (settle i r) h f = elim (Option-cases (get_elem? s.waiting i)) [
    | inl gone ↦ rw gone (stays _, h)
    | inr (c, here) ↦
        let a : Answers pub_of c r = rw here at f in
        rw here (resume-KeyStep pub_of c r s.state a, resume-Listing c r s.state a h)
  ]

  Reached-Moves :
      (s : Sys View Waiting)
      → Reached s
      → Reaches pub_of (record { private_key = []; public_key = [] }) (shown s.state)
        × Listing s.state
  unfolding setup
  Reached-Moves _ (begins now) = (done _, tt)
  Reached-Moves _ (goes s e p f) =
      let (r, h) = Reached-Moves s p in let (k, l) = step-Moves s e h f in (next _ _ _ r k, l)

  Reached-Reaches :
      (s : Sys View Waiting)
      → Reached s
      → Reaches pub_of (record { private_key = []; public_key = [] }) (shown s.state)
  Reached-Reaches s h = (Reached-Moves s h).0

  Reaches-Own :
      (a b : Shown)
      → (a.public_key ≡ []) ⊎ (a.public_key ≡ pub_of a.private_key)
      → Reaches pub_of a b
      → (b.public_key ≡ []) ⊎ (b.public_key ≡ pub_of b.private_key)
  Reaches-Own a _ h (done _) = h
  Reaches-Own a _ h (next _ _ _ r (stays _)) = Reaches-Own a _ h r
  Reaches-Own a _ h (next _ _ _ r (hides _ k)) = inl refl
  Reaches-Own a _ h (next _ _ _ r (shows _ k)) = inr refl

  -- However keys are typed, derived and generated and answers come late, the public key that is shown is
  -- none, or that of the private key in the form, as long as the server gives each key its own public key
  -- and the gateways that are edited are listed ones.
  pub Reached-Own :
      (s : Sys View Waiting)
      → Reached s
      → (s.state.public_key ≡ []) ⊎ (s.state.public_key ≡ pub_of (key_of s.state.form))
  Reached-Own s h = Reaches-Own _ _ (inl refl) (Reached-Reaches s h)
