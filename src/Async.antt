-- ===== src/Async.antt =====
-- What the browser does with a component: its handlers run one after another, each up to an
-- `await`; what is left of it waits until its promise settles, in any order.
pub mod Balance
use sbm.Base.{
  ℕ, List, [], ◌∷◌, ◌++◌, ◌≡◌, refl, Option, none, some, get_elem?, erase_idx, Option-cases, inl,
  inr,
}

-- The promise of a request, fulfilled with a body or rejected with an error.
pub data Settled {ℓ} (A : Type ℓ) (E : Type ℓ) : Type ℓ where
  fulfilled : A → Settled A E
  rejected : E → Settled A E

-- A component's variables, and the continuations that wait.
pub record Sys (S C : Type 0) : Type 0 where
  pub state : S
  pub waiting : List C

-- A handler is called, or the promise of the continuation at an index settles.
pub data Event (K R : Type 0) : Type 0 where
  call : K → Event K R
  settle : ℕ → R → Event K R

module _ {S C K R : Type 0} (handle : K → S → S × List C) (resume : C → R → S → S × List C) where
  settle_at : Option C → ℕ → R → Sys S C → Sys S C
  settle_at none i r s = s
  settle_at (some c) i r s =
      let (t, more) = resume c r s.state in
      record { state = t; waiting = erase_idx s.waiting i ++ more }

  unfoldable pub step : Sys S C → Event K R → Sys S C
  unfolding settle_at
  step s (call k) =
      let (t, more) = handle k s.state in record { state = t; waiting = s.waiting ++ more }
  step s (settle i r) = settle_at (get_elem? s.waiting i) i r s

  pub step-call :
      (s : Sys S C) (k : K)
      → step s (call k)
        ≡ record { state = (handle k s.state).0; waiting = s.waiting ++ (handle k s.state).1 }
  unfolding step
  step-call s k = refl

  pub step-settle :
      (s : Sys S C) (i : ℕ) (r : R) {c : C}
      → get_elem? s.waiting i ≡ some c
      → step s (settle i r) ≡ record {
        state = (resume c r s.state).0;
        waiting = erase_idx s.waiting i ++ (resume c r s.state).1;
      }
  unfolding step
  step-settle s i r e = rw e

  pub step-gone :
      (s : Sys S C) (i : ℕ) (r : R) → get_elem? s.waiting i ≡ none → step s (settle i r) ≡ s
  unfolding step
  step-gone s i r e = rw e

  -- To show that an event keeps `P`: the cases of a call, and of a continuation that waits.
  pub step_inv :
      (P : Sys S C → Type 0) (s : Sys S C) (e : Event K R)
      → P s
      → ((k : K)
          → P (record {
            state = (handle k s.state).0;
            waiting = s.waiting ++ (handle k s.state).1;
          }))
      → ((c : C) (i : ℕ) (r : R)
          → get_elem? s.waiting i ≡ some c
          → P (record {
            state = (resume c r s.state).0;
            waiting = erase_idx s.waiting i ++ (resume c r s.state).1;
          }))
      → P (step s e)
  unfolding step
  step_inv P s (call k) h called settled = called k
  step_inv P s (settle i r) h called settled = elim (Option-cases (get_elem? s.waiting i)) [
    | inl gone ↦ rw gone h
    | inr (c, here) ↦ rw here (settled c i r here)
  ]

  unfoldable pub run : Sys S C → List (Event K R) → Sys S C
  unfolding step
  run s [] = s
  run s (e ∷ es) = run (step s e) es

  -- What every event keeps, every run keeps.
  pub run_inv :
      (P : Sys S C → Type 0)
      → ((s : Sys S C) (e : Event K R) → P s → P (step s e))
      → (s : Sys S C) (es : List (Event K R)) → P s
      → P (run s es)
  unfolding run
  run_inv P keep s [] h = h
  run_inv P keep s (e ∷ es) h = run_inv P keep (step s e) es (keep s e h)
