-- ===== src/Latest.antt =====
-- Requests that carry a number, where only the answer to the latest one counts: the pattern of the
-- views' `request`, `revision` and `listRevision` counters. A continuation that waits has a tag, its
-- number and what was asked for, if it is such a request.
pub mod Loader
pub mod Revision
use sbm.Base.{
  ℕ, suc, ◌+◌, ◌≤◌, ◌≡◌, ◌≢◌, refl, Option, none, some, List, [], ◌∷◌, ◌==◌, if◌then◌else◌,
  get_elem?, erase_idx, sum_by, sum_by-erase_idx, All, arith,
}

module _ {Q : Type 0} where
  abbrev pub weight : ℕ → Option (ℕ × Q) → ℕ
  weight n none = 0
  weight n (some (m, q)) = if m == n then 1 else 0

  -- The number is at most `n`; it is not `n`; with the number `n`, `q` was asked for.
  abbrev pub Old : ℕ → Option (ℕ × Q) → Type 0
  Old n none = Unit
  Old n (some (m, q)) = m ≤ n

  abbrev pub Other : ℕ → Option (ℕ × Q) → Type 0
  Other n none = Unit
  Other n (some (m, q)) = m ≢ n

  abbrev pub Asks : ℕ → Q → Option (ℕ × Q) → Type 0
  Asks n q none = Unit
  Asks n q (some (m, p)) = m ≡ n → p ≡ q

  fresh_tag :
      (n m : ℕ) (t : Option (ℕ × Q)) → Old n t → suc n ≤ m → Old m t × (weight m t ≡ 0) × Other m t
  fresh_tag n m none h k = (tt, refl, tt)
  fresh_tag n m (some (i, q)) h k = (omega arith, ground arith, λ e. omega arith)

  Other-tag : (n : ℕ) (t : Option (ℕ × Q)) → weight n t ≡ 0 → Other n t
  Other-tag n none h = tt
  Other-tag n (some (i, q)) h = ground arith

  pub Asks_of_Other : (n : ℕ) (q : Q) (t : Option (ℕ × Q)) → Other n t → Asks n q t
  Asks_of_Other n q none h = tt
  Asks_of_Other n q (some (i, p)) h = λ e. absurd (h e)

module _ {C Q : Type 0} (tag : C → Option (ℕ × Q)) where
  -- How many requests with a number are in flight.
  abbrev pub count_at : ℕ → List C → ℕ
  count_at n = sum_by (λ c. weight n (tag c))

  -- No request that is in flight has a number above the old ones.
  pub fresh :
      (n m : ℕ) (xs : List C)
      → All (λ c. Old n (tag c)) xs
      → suc n ≤ m
      → All (λ c. Old m (tag c)) xs × (count_at m xs ≡ 0) × All (λ c. Other m (tag c)) xs
  fresh n m [] h k = (tt, refl, tt)
  fresh n m (c ∷ xs) h k =
      let (a, b, d) = fresh n m xs h.1 k in
      let (a', b', d') = fresh_tag n m (tag c) h.0 k in ((a', a), omega arith, (d', d))

  pub Other-count_at : (n : ℕ) (xs : List C) → count_at n xs ≡ 0 → All (λ c. Other n (tag c)) xs
  Other-count_at n [] h = tt
  Other-count_at n (c ∷ xs) h =
      (Other-tag n (tag c) (omega arith), Other-count_at n xs (omega arith))

  -- The count when a request settles that weighs this much.
  pub count_at-erase_idx :
      (n : ℕ) (xs : List C) (i : ℕ) {c : C}
      → get_elem? xs i ≡ some c
      → count_at n (erase_idx xs i) + weight n (tag c) ≡ count_at n xs
  count_at-erase_idx n xs i e = sum_by-erase_idx (λ c. weight n (tag c)) xs i e
