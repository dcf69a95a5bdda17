-- ===== src/Async/Balance.antt =====
-- Flags and counters of a component that tell what is under way: `f` says how much a continuation
-- counts for, `count` what the component's variables say.
use sbm.Base.{ℕ, ◌+◌, ◌≤◌, ◌≡◌, List, erase_idx, sum_by, sum_by-append, sum_by-erase_idx, arith}
use sbm.Async.{Sys, Event, step, step_inv, run, run_inv}

module _ {S C : Type 0} (f : C → ℕ) (count : S → ℕ) where
  -- What code that ends in `w` and leaves `more` to wait adds to what waits, it adds to the count;
  -- the continuation that it was has counted for `ended`.
  abbrev pub Adds : ℕ → S → S × List C → Type 0
  Adds ended v (w, more) = sum_by f more + count v ≡ count w + ended

  abbrev pub Balanced : Sys S C → Type 0
  Balanced s = sum_by f s.waiting ≡ count s.state

  module _ {K R : Type 0} (handle : K → S → S × List C) (resume : C → R → S → S × List C)
      (handle_law : (k : K) (v : S) → Adds 0 v (handle k v))
      (resume_law : (c : C) (r : R) (v : S) → f c ≤ count v → Adds (f c) v (resume c r v)) where
    step-Balanced : (s : Sys S C) (e : Event K R) → Balanced s → Balanced (step handle resume s e)
    step-Balanced s e h =
        step_inv handle resume Balanced s e h
          (λ k. omega (arith, sum_by-append f s.waiting (handle k s.state).1, handle_law k s.state))
          (λ c i r here.
            let gone = sum_by-erase_idx f s.waiting i here in
            omega (
              arith,
              gone,
              sum_by-append f (erase_idx s.waiting i) (resume c r s.state).1,
              resume_law c r s.state (omega (arith, gone)),
            ))

    -- In every run the count is that of what waits.
    pub run-Balanced :
        (s : Sys S C) (es : List (Event K R)) → Balanced s → Balanced (run handle resume s es)
    run-Balanced = run_inv handle resume Balanced step-Balanced
