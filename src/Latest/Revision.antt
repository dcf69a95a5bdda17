-- ===== src/Latest/Revision.antt =====
-- A component with a counter that code only raises, and requests that carry the counter's value at the
-- time they are sent: a client gives both, and the law of its handlers.
use sbm.Base.{
  ℕ, suc, ◌≤◌, ◌≡◌, some, List, ◌++◌, erase_idx, get_elem?, All, All-append, All-erase_idx,
  All-get_elem?, All_map, arith,
}
use sbm.Async.{Sys, Event, call, step, step-call, step_inv, run, run_inv}

pub record Counter (S C : Type 0) : Type 0 where
  pub number : S → ℕ
  pub issued : C → ℕ

module _ {S C : Type 0} (l : Counter S C) where
  abbrev pub Issued : S → List C → Type 0
  Issued v xs = All (λ c. l.issued c ≤ l.number v) xs

  -- The counter is not lowered, and what is left to wait has a number up to it.
  abbrev pub Grows : S → S × List C → Type 0
  Grows v (w, more) = (l.number v ≤ l.number w) × Issued w more

  abbrev pub IsOld : Sys S C → Type 0
  IsOld s = Issued s.state s.waiting

  join-Issued :
      (v : S) (xs : List C) (p : S × List C) → Issued v xs → Grows v p → Issued p.0 (xs ++ p.1)
  join-Issued v xs p h g =
      All-append (λ c. l.issued c ≤ l.number p.0) xs p.1
        (All_map (λ c. l.issued c ≤ l.number v) (λ c. l.issued c ≤ l.number p.0) xs
          (λ c q. omega (arith, g.0)) h)
        g.1

  module _ {K R : Type 0} (handle : K → S → S × List C) (resume : C → R → S → S × List C)
      (handle_law : (k : K) (v : S) → Grows v (handle k v))
      (resume_law : (c : C) (r : R) (v : S)
        → l.issued c ≤ l.number v
        → Grows v (resume c r v)) where
    here_le :
        (s : Sys S C) (i : ℕ) {c : C}
        → IsOld s
        → get_elem? s.waiting i ≡ some c
        → l.issued c ≤ l.number s.state
    here_le s i h here = All-get_elem? (λ x. l.issued x ≤ l.number s.state) s.waiting i h here

    step-IsOld : (s : Sys S C) (e : Event K R) → IsOld s → IsOld (step handle resume s e)
    step-IsOld s e h =
        step_inv handle resume IsOld s e h
          (λ k. join-Issued s.state s.waiting (handle k s.state) h (handle_law k s.state))
          (λ c i r here.
            join-Issued s.state (erase_idx s.waiting i) (resume c r s.state)
              (All-erase_idx (λ x. l.issued x ≤ l.number s.state) s.waiting i h)
              (resume_law c r s.state (here_le s i h here)))

    -- In every run the requests in flight have numbers up to the counter.
    pub run-IsOld : (s : Sys S C) (es : List (Event K R)) → IsOld s → IsOld (run handle resume s es)
    run-IsOld = run_inv handle resume IsOld step-IsOld

    -- No run lowers the counter.
    pub run-le :
        (m : ℕ) (s : Sys S C) (es : List (Event K R))
        → IsOld s
        → m ≤ l.number s.state
        → m ≤ l.number (run handle resume s es).state
    run-le m s es old le =
        (run_inv handle resume (λ x. IsOld x × (m ≤ l.number x.state))
          (λ x e p. (
            step-IsOld x e p.0,
            step_inv handle resume (λ y. m ≤ l.number y.state) x e p.1
                (λ k. omega (arith, (handle_law k x.state).0, p.1))
                (λ c i r here.
                  omega (arith, (resume_law c r x.state (here_le x i p.0 here)).0, p.1)),
          ))
          s es (old, le)).1

    -- A request in flight is outdated for good by a call that raises the counter.
    pub run-outdated :
        (s : Sys S C) (i : ℕ) {c : C} (k : K) (later : List (Event K R))
        → IsOld s
        → get_elem? s.waiting i ≡ some c
        → suc (l.number s.state) ≤ l.number (handle k s.state).0
        → suc (l.issued c)
          ≤ l.number (run handle resume (step handle resume s (call k)) later).state
    run-outdated s i {c} k later h here up =
        run-le (suc (l.issued c)) (step handle resume s (call k)) later (step-IsOld s (call k) h)
          (rw (step-call handle resume s k) (omega (arith, here_le s i h here)))
