-- ===== src/Latest/Loader.antt =====
-- A component whose loads carry numbers, behind what the proofs need of it: a client gives its
-- variables, its handlers and the laws, and has the invariant of all interleavings.
use sbm.Base.{
  ℕ, suc, ◌≤◌, ◌≡◌, ◌≢◌, refl, ◌∙◌, ◌⊎◌, inl, inr, Bool, true, false, Option, none, some, List, [],
  ◌∷◌, ◌++◌, get_elem?, erase_idx, sum_by-append, All, All-append, All-erase_idx, All_map, arith,
}
use sbm.Async.{Sys, Event, step, step_inv, run, run_inv}
use sbm.Latest.{
  weight, Old, Other, Asks, Asks_of_Other, count_at, fresh, Other-count_at, count_at-erase_idx,
}

-- The number of the latest request; whether a request must be in flight; what is selected; and the
-- tag of what waits.
pub record Loader (S C Q : Type 0) : Type 0 where
  pub number : S → ℕ
  pub busy : S → Bool
  pub query : S → Q
  pub tag : C → Option (ℕ × Q)

module _ {S C Q : Type 0} (l : Loader S C Q) where
  -- The numbers of the requests in flight are old, at most one of them is the latest, one is if the
  -- component waits for it, and the latest asks for what is selected.
  pub record IsSound (s : Sys S C) : Type 0 where
    pub old : All (λ c. Old (l.number s.state) (l.tag c)) s.waiting
    pub single : count_at l.tag (l.number s.state) s.waiting ≤ 1
    pub awaited : l.busy s.state ≡ true → count_at l.tag (l.number s.state) s.waiting ≡ 1
    pub current : All (λ c. Asks (l.number s.state) (l.query s.state) (l.tag c)) s.waiting

  -- What a piece of code that ends in the state `w` and leaves `more` to wait does, begun under the
  -- number `n`: it takes a new number, and sends the request for what is selected or none.
  pub data Loads (n : ℕ) (w : S) (more : List C) : Type 0 where
    dropped :
        suc n ≤ l.number w → All (λ c. l.tag c ≡ none) more → l.busy w ≡ false → Loads n w more
    asked :
        (c : C)
        → suc n ≤ l.number w
        → more ≡ c ∷ []
        → l.tag c ≡ some (l.number w, l.query w)
        → Loads n w more

  -- Or it leaves alone the number, the selection and whether a request is awaited.
  pub record Leaves (v w : S) (more : List C) : Type 0 where
    pub same_number : l.number w ≡ l.number v
    pub same_query : l.query w ≡ l.query v
    pub same_busy : l.busy w ≡ true → l.busy v ≡ true
    pub untagged : All (λ c. l.tag c ≡ none) more

  abbrev pub Issues : S → S → List C → Type 0
  Issues v w more = Leaves v w more ⊎ Loads (l.number v) w more

  -- The answer to the latest request keeps the number, and ends the wait.
  pub record Settles (v w : S) (more : List C) : Type 0 where
    pub same_number : l.number w ≡ l.number v
    pub ends : l.busy w ≡ false
    pub untagged : All (λ c. l.tag c ≡ none) more

  count_untagged : (n : ℕ) (xs : List C) → All (λ c. l.tag c ≡ none) xs → count_at l.tag n xs ≡ 0
  count_untagged n [] h = refl
  count_untagged n (c ∷ xs) h = rw h.0 (omega (arith, count_untagged n xs h.1))

  all_untagged :
      (P : Option (ℕ × Q) → Type 0)
      → P none
      → (xs : List C) → All (λ c. l.tag c ≡ none) xs
      → All (λ c. P (l.tag c)) xs
  all_untagged P p [] h = tt
  all_untagged P p (c ∷ xs) h = (rw h.0 p, all_untagged P p xs h.1)

  -- The list that waits after a handler: what waited before, without what has settled, and the new.
  keep_lem :
      (n : ℕ) (q : Q) (xs more : List C)
      → All (λ c. l.tag c ≡ none) more
      → All (λ c. Old n (l.tag c)) xs
      → All (λ c. Asks n q (l.tag c)) xs
      → All (λ c. Old n (l.tag c)) (xs ++ more)
        × All (λ c. Asks n q (l.tag c)) (xs ++ more)
        × (count_at l.tag n (xs ++ more) ≡ count_at l.tag n xs)
  keep_lem n q xs more u o a = (
    All-append (λ c. Old n (l.tag c)) xs more o (all_untagged (Old n) tt more u),
    All-append (λ c. Asks n q (l.tag c)) xs more a (all_untagged (Asks n q) tt more u),
    omega (arith, sum_by-append (λ c. weight n (l.tag c)) xs more, count_untagged n more u),
  )

  Asks_all :
      (n : ℕ) (q : Q) (xs : List C)
      → All (λ c. Other n (l.tag c)) xs
      → All (λ c. Asks n q (l.tag c)) xs
  Asks_all n q xs h =
      All_map (λ c. Other n (l.tag c)) (λ c. Asks n q (l.tag c)) xs
        (λ c. Asks_of_Other n q (l.tag c)) h

  weight_self : (n : ℕ) (q : Q) (t : Option (ℕ × Q)) → t ≡ some (n, q) → weight n t ≡ 1
  weight_self n q t e = rw e (ground arith)

  Loads-IsSound :
      (v : S) (xs : List C) (w : S) (more : List C)
      → IsSound (record { state = v; waiting = xs })
      → Loads (l.number v) w more
      → IsSound (record { state = w; waiting = xs ++ more })
  Loads-IsSound v xs w more h (dropped p u f) =
      let (a, z, d) = fresh l.tag (l.number v) (l.number w) xs h.old p in
      let (o, k, c) =
        keep_lem (l.number w) (l.query w) xs more u a (Asks_all (l.number w) (l.query w) xs d) in
      record { old = o; single = omega arith; awaited = λ e. cc; current = k }
  Loads-IsSound v xs w more h (asked c p e t) =
      let (a, z, d) = fresh l.tag (l.number v) (l.number w) xs h.old p in
      let one : count_at l.tag (l.number w) (xs ++ c ∷ []) ≡ 1 = omega (
        arith,
        sum_by-append (λ x. weight (l.number w) (l.tag x)) xs (c ∷ []),
        weight_self (l.number w) (l.query w) (l.tag c) t,
      ) in
      rw e (record {
        old = All-append (λ x. Old (l.number w) (l.tag x)) xs (c ∷ []) a (rw t (omega arith), tt);
        single = omega arith;
        awaited = λ b. one;
        current =
            All-append (λ x. Asks (l.number w) (l.query w) (l.tag x)) xs (c ∷ [])
              (Asks_all (l.number w) (l.query w) xs d) (rw t (λ same. refl), tt);
      })

  Leaves-IsSound :
      (v : S) (xs : List C) (w : S) (more : List C)
      → IsSound (record { state = v; waiting = xs })
      → Leaves v w more
      → IsSound (record { state = w; waiting = xs ++ more })
  Leaves-IsSound v xs w more h k =
      let (o, a, c) = keep_lem (l.number v) (l.query v) xs more k.untagged h.old h.current in
      record {
        old = rw k.same_number o;
        single = rw (k.same_number, c) h.single;
        awaited = λ b. rw (k.same_number, c) (h.awaited (k.same_busy b));
        current = rw (k.same_number, k.same_query) a;
      }

  Issues-IsSound :
      (v : S) (xs : List C) (w : S) (more : List C)
      → IsSound (record { state = v; waiting = xs })
      → Issues v w more
      → IsSound (record { state = w; waiting = xs ++ more })
  Issues-IsSound v xs w more h (inl k) = Leaves-IsSound v xs w more h k
  Issues-IsSound v xs w more h (inr k) = Loads-IsSound v xs w more h k

  -- What settles was no request, or not the latest one.
  erase-IsSound :
      (v : S) (xs : List C) (i : ℕ) {c : C}
      → IsSound (record { state = v; waiting = xs })
      → get_elem? xs i ≡ some c
      → weight (l.number v) (l.tag c) ≡ 0
      → IsSound (record { state = v; waiting = erase_idx xs i })
  erase-IsSound v xs i {c} h here light =
      let same : count_at l.tag (l.number v) (erase_idx xs i) ≡ count_at l.tag (l.number v) xs =
        omega (arith, count_at-erase_idx l.tag (l.number v) xs i here) in
      record {
        old = All-erase_idx (λ x. Old (l.number v) (l.tag x)) xs i h.old;
        single = omega (arith, h.single);
        awaited = λ b. same ∙ h.awaited b;
        current = All-erase_idx (λ x. Asks (l.number v) (l.query v) (l.tag x)) xs i h.current;
      }

  -- The latest request settles.
  Settles-IsSound :
      (v : S) (xs : List C) (i : ℕ) (c : C) (q : Q) (w : S) (more : List C)
      → IsSound (record { state = v; waiting = xs })
      → get_elem? xs i ≡ some c
      → l.tag c ≡ some (l.number v, q)
      → Settles v w more
      → IsSound (record { state = w; waiting = erase_idx xs i ++ more })
  Settles-IsSound v xs i c q w more h here t k =
      let n = l.number v in
      let rest = erase_idx xs i in
      let gone : count_at l.tag n rest ≡ 0 =
        omega
          (arith, count_at-erase_idx l.tag n xs i here, weight_self n q (l.tag c) t, h.single) in
      let old = All-erase_idx (λ x. Old n (l.tag x)) xs i h.old in
      let asks = Asks_all n (l.query w) rest (Other-count_at l.tag n rest gone) in
      let (o, a, m) = keep_lem n (l.query w) rest more k.untagged old asks in
      record {
        old = rw k.same_number o;
        single = rw k.same_number (omega arith);
        awaited = λ b. cc (k.ends);
        current = rw k.same_number a;
      }

  -- What settling `c` does: as a handler if it is no request, an end of the wait if it is the latest
  -- request, and nothing that counts otherwise.
  pub data Outcome (c : C) (v w : S) (more : List C) : Type 0 where
    other : l.tag c ≡ none → Issues v w more → Outcome c v w more
    latest : (q : Q) → l.tag c ≡ some (l.number v, q) → Settles v w more → Outcome c v w more
    stale :
        (n : ℕ) (q : Q)
        → l.tag c ≡ some (n, q)
        → n ≢ l.number v
        → Leaves v w more
        → Outcome c v w more

  Outcome-IsSound :
      (v : S) (xs : List C) (i : ℕ) (c : C) (w : S) (more : List C)
      → IsSound (record { state = v; waiting = xs })
      → get_elem? xs i ≡ some c
      → Outcome c v w more
      → IsSound (record { state = w; waiting = erase_idx xs i ++ more })
  Outcome-IsSound v xs i c w more h here (other t k) =
      Issues-IsSound v (erase_idx xs i) w more (erase-IsSound v xs i h here (rw t refl)) k
  Outcome-IsSound v xs i c w more h here (latest q t k) =
      Settles-IsSound v xs i c q w more h here t k
  Outcome-IsSound v xs i c w more h here (stale n q t ne k) =
      Leaves-IsSound v (erase_idx xs i) w more (erase-IsSound v xs i h here (rw t (ground arith))) k

  module _ {K R : Type 0} (handle : K → S → S × List C) (resume : C → R → S → S × List C)
      (handle_law : (k : K) (v : S) → Issues v (handle k v).0 (handle k v).1)
      (resume_law : (c : C) (r : R) (v : S) → Outcome c v (resume c r v).0 (resume c r v).1) where
    step-IsSound : (s : Sys S C) (e : Event K R) → IsSound s → IsSound (step handle resume s e)
    step-IsSound s e h =
        step_inv handle resume IsSound s e h
          (λ k. Issues-IsSound s.state s.waiting _ _ h (handle_law k s.state))
          (λ c i r here. Outcome-IsSound s.state s.waiting i c _ _ h here (resume_law c r s.state))

    -- Every run keeps the invariant.
    pub run-IsSound :
        (s : Sys S C) (es : List (Event K R)) → IsSound s → IsSound (run handle resume s es)
    run-IsSound = run_inv handle resume IsSound step-IsSound
