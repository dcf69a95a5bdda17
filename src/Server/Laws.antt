-- ===== src/Server/Laws.antt =====
-- The loads of the page of the traffic.
use sbm.Base.{
  ℕ, zero, suc, ◌-◌, ◌≡◌, refl, false, some, List, [], ◌∷◌, ◌++◌, get_elem?, erase_idx, arith,
}
use sbm.Async.{Sys, Event, fulfilled, rejected, step_inv, run, run_inv}
use sbm.Types.Gateway.{Dashboard}
use sbm.Server.{
  View, setup, Waiting, listed, Reply, load, load_done, Action, mounted, interval, unmounted,
  tab_clicked, handle, resume,
}

-- While the view is there: what waits is at most the latest load, and `pending` counts it.
abbrev pub Waits : View → List Waiting → Type 0
Waits v [] = v.pending ≡ 0
Waits v (listed n ∷ []) = (v.pending ≡ 1) × (v.disposed ≡ false → n ≡ v.revision)
Waits v (c ∷ d ∷ xs) = ⊥

handle-Waits :
    (k : Action) (v : View) (xs : List Waiting)
    → Waits v xs
    → Waits (handle k v).0 (xs ++ (handle k v).1)
unfolding handle load
handle-Waits (mounted now) v [] h = ground arith
handle-Waits (interval now) v [] h = ground arith
handle-Waits unmounted v [] h = ground arith
handle-Waits (tab_clicked tab) v [] h = h
handle-Waits (mounted now) v (listed n ∷ []) h = ground arith
handle-Waits (interval now) v (listed n ∷ []) h = ground arith
handle-Waits unmounted v (listed n ∷ []) h = ground arith
handle-Waits (tab_clicked tab) v (listed n ∷ []) h = h
handle-Waits k v (listed n ∷ c ∷ xs) h = absurd h

load_done-pending : (n : ℕ) (r : Reply) (v : View) → (load_done n r v).pending ≡ v.pending - 1
unfolding load_done
load_done-pending n (fulfilled b, now) v = ground arith
load_done-pending n (rejected e, now) v = ground arith

resume-Waits :
    (c : Waiting) (i : ℕ) (r : Reply) (v : View) (xs : List Waiting)
    → Waits v xs
    → get_elem? xs i ≡ some c
    → Waits (resume c r v).0 (erase_idx xs i ++ (resume c r v).1)
unfolding resume
resume-Waits c i r v [] h here = cc
resume-Waits (listed m) zero r v (listed n ∷ []) h here = ground (arith, load_done-pending m r v)
resume-Waits (listed m) (suc i) r v (listed n ∷ []) h here = cc
resume-Waits c i r v (listed n ∷ d ∷ xs) h here = absurd h

abbrev pub start : ℕ → Sys View Waiting
start now = record { state = setup now; waiting = [] }

run-Waits :
    (now : ℕ) (es : List (Event Action Reply))
    → Waits (run handle resume (start now) es).state (run handle resume (start now) es).waiting
unfolding setup
run-Waits now es =
    run_inv handle resume (λ s. Waits s.state s.waiting)
      (λ s e h.
        step_inv handle resume (λ x. Waits x.state x.waiting) s e h
          (λ k. handle-Waits k s.state s.waiting h)
          (λ c i r here. resume-Waits c i r s.state s.waiting h here))
      (start now) es refl

Waits-latest :
    (v : View) (xs : List Waiting) (i n : ℕ)
    → Waits v xs
    → get_elem? xs i ≡ some (listed n)
    → v.disposed ≡ false
    → n ≡ v.revision
Waits-latest v [] i n h here there = cc
Waits-latest v (listed m ∷ []) zero n h here there = ground (arith, h.1 there)
Waits-latest v (listed m ∷ []) (suc i) n h here there = cc
Waits-latest v (listed m ∷ c ∷ xs) i n h here there = absurd h

load_done-takes :
    (n : ℕ) (next : Dashboard) (later : ℕ) (v : View)
    → v.disposed ≡ false
    → n ≡ v.revision
    → (load_done n (fulfilled next, later) v).data_shown ≡ some next
unfolding load_done
load_done-takes n next later v h e = ground arith

-- While the page is shown no answer is lost: `load` does nothing while a request is in flight, so the one
-- that is, whatever polls and clicks came since, is the latest, and its answer is shown.
pub run-Taken :
    (now : ℕ) (es : List (Event Action Reply)) (i n : ℕ) (next : Dashboard) (later : ℕ)
    → get_elem? (run handle resume (start now) es).waiting i ≡ some (listed n)
    → (run handle resume (start now) es).state.disposed ≡ false
    → (load_done n (fulfilled next, later) (run handle resume (start now) es).state).data_shown
      ≡ some next
run-Taken now es i n next later here there =
    let s = run handle resume (start now) es in
    load_done-takes n next later s.state there
      (Waits-latest s.state s.waiting i n (run-Waits now es) here there)
