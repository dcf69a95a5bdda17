-- ===== src/Page/Toasts.antt =====
-- The messages that a view emits in a run: those of its handlers and continuations, and those that it is given.
use sbm.Base.{
  ◌≡◌, refl, Bool, true, ◌&&◌, arith, List, [], ◌∷◌, All, All-append, All-erase_idx, All-get_elem?,
  Option-cases, inl, inr, get_elem?, erase_idx,
}
use sbm.Message.{Message, t, said, Thrown, exception, value, error_message}
use sbm.Async.{Sys, Event, call, settle, step, run}
use sbm.Base.Text.{codes, text_eq}
use sbm.Catalog.Covered.{covered, all_covered}
use sbm.Page.{either}

pub error_message-covered : (e : Thrown) → covered (error_message e) ≡ true
unfolding error_message covered
error_message-covered (exception m) =
    either covered (text_eq m (codes "")) (t "api.unreachable") (said m) refl refl
error_message-covered (value m) =
    either covered (text_eq m (codes "")) (t "api.unreachable") (said m) refl refl

pub said_too :
    (m : Message) (ms : List Message)
    → covered m ≡ true
    → all_covered ms ≡ true
    → all_covered (m ∷ ms) ≡ true
unfolding all_covered
said_too m ms g h = rw (g, h) refl

pub alone : (a : Bool) → (a && true) ≡ true → a ≡ true
alone a h = ground arith

-- Continuations that carry no message.
abbrev pub nothing {ℓ} : {C : Type ℓ} → C → List Message
nothing c = []

pub no_more {ℓ} : {C : Type ℓ} (more : List C) → All (λ c. all_covered (nothing c) ≡ true) more
unfolding all_covered
no_more [] = tt
no_more (c ∷ more) = (refl, no_more more)

-- `toasts` is what has been emitted, `carried` what a continuation has still to emit, and `given` what a call brings.
module _ {S C K R : Type 0} (handle : K → S → S × List C) (resume : C → R → S → S × List C)
    (toasts : S → List Message) (carried : C → List Message) (given : K → List Message) where
  abbrev pub Fine : C → Type 0
  Fine c = all_covered (carried c) ≡ true

  -- Code that ends in `w` and leaves `more` to wait emits nothing but what is covered.
  abbrev pub Emits : S × List C → Type 0
  Emits (w, more) = (all_covered (toasts w) ≡ true) × All Fine more

  abbrev pub Given : Event K R → Type 0
  Given (call k) = all_covered (given k) ≡ true
  Given (settle i r) = Unit

  module _
      (calls : (k : K) (v : S)
        → all_covered (given k) ≡ true
        → all_covered (toasts v) ≡ true
        → Emits (handle k v))
      (settles : (c : C) (r : R) (v : S)
        → all_covered (carried c) ≡ true
        → all_covered (toasts v) ≡ true
        → Emits (resume c r v)) where
    step-Emits :
        (s : Sys S C) (e : Event K R)
        → Given e
        → Emits (s.state, s.waiting)
        → Emits ((step handle resume s e).state, (step handle resume s e).waiting)
    unfolding step
    step-Emits s (call k) g (h, w) =
        let (a, b) = calls k s.state g h in (a, All-append Fine s.waiting (handle k s.state).1 w b)
    step-Emits s (settle i r) g (h, w) = elim (Option-cases (get_elem? s.waiting i)) [
      | inl gone ↦ rw gone (h, w)
      | inr (c, here) ↦
          let (a, b) = settles c r s.state (All-get_elem? Fine s.waiting i w here) h in
          rw here (
            a,
            All-append Fine (erase_idx s.waiting i) (resume c r s.state).1
                (All-erase_idx Fine s.waiting i w) b,
          )
    ]

    pub run-Emits :
        (s : Sys S C) (es : List (Event K R))
        → All Given es
        → Emits (s.state, s.waiting)
        → all_covered (toasts (run handle resume s es).state) ≡ true
    unfolding run
    run-Emits s [] g h = h.0
    run-Emits s (e ∷ es) g h = run-Emits (step handle resume s e) es g.1 (step-Emits s e g.0 h)
