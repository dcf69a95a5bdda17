-- ===== src/Page.antt =====
-- The texts of a template that `t` makes: blocks of them, each under the condition of its `v-if`, and what is
-- shown of them in a state.
pub mod Screen
mod Tests
pub mod ScreenCovers
pub mod Toasts
pub mod EmitsRead
pub mod FormsToasts
pub mod EgressToasts
pub mod DashboardToasts
pub mod PartsCover
pub mod FormsCover
pub mod EgressCovers
pub mod DashboardCovers
pub mod Alerts
pub mod HistoryAlert
pub mod AppsAlert
use sbm.Base.{
  ℕ, Bool, true, false, ◌&&◌, not, if◌then◌else◌, ◌==◌, ◌≡◌, refl, Option, none, some, List, [],
  ◌∷◌, ◌++◌, arith, All,
}
use sbm.Base.Text.{Text}
use sbm.Types.{TrafficUnit, SampleStatus, SampleHealth, ResetMode}
use sbm.Message.{Message}
use sbm.I18n.{Locale}
use sbm.Dashboard.Texts.{known_time}
use sbm.Catalog.Covered.{all_covered, all_covered-append, Reads, all_covered-Reads}

abbrev pub Block : Type 0
Block = Bool × List Message

-- `v-for`
abbrev pub each {ℓ} : {A : Type ℓ} → (A → List Block) → List A → List Block
each f [] = []
each f (x ∷ xs) = f x ++ each f xs

abbrev pub shown : List Block → List Message
shown [] = []
shown ((true, ms) ∷ bs) = ms ++ shown bs
shown ((false, ms) ∷ bs) = shown bs

-- How the browser and the views write a number of bytes (of a plan, and of a machine), a time that is known,
-- the hour of a reset in two digits, and a message in the language of the moment.
pub record Format : Type 0 where
  pub amount : ℕ → TrafficUnit → Text
  pub host : ℕ → Text
  pub date : Text → Text
  pub hour : Option ℕ → Text
  pub text : Message → Text

-- The tests of the templates: a text, a number, a flag or an object that counts as true.
abbrev pub is_empty {ℓ} : {A : Type ℓ} → List A → Bool
is_empty [] = true
is_empty (x ∷ xs) = false

abbrev pub is_some {ℓ} : {A : Type ℓ} → Option A → Bool
is_some none = false
is_some (some x) = true

-- A view's `date`, which has a text for no time; and that text, where it is made.
abbrev pub date_of : Format → Message → Option Text → Text
date_of f missing value = elim (known_time value) [ none ↦ f.text missing | some s ↦ f.date s ]

abbrev pub undated : Message → Option Text → Block
undated missing value = (not (is_some (known_time value)), missing ∷ [])

-- `{{ error }}`
abbrev pub alert : Option Message → List Message
alert none = []
alert (some m) = m ∷ []

abbrev pub is_true : Option Bool → Bool
is_true none = false
is_true (some b) = b

abbrev pub is_nonzero : Option ℕ → Bool
is_nonzero none = false
is_nonzero (some n) = not (n == 0)

abbrev pub is_monthly : ResetMode → Bool
is_monthly ResetMode.monthly = true
is_monthly ResetMode.none = false

abbrev pub is_interrupted : Option SampleHealth → Bool
is_interrupted none = false
is_interrupted (some h) = elim h.status [ SampleStatus.interrupted ↦ true | _ ↦ false ]

-- Whatever the conditions are, the texts are covered by the catalog.
abbrev pub covered_blocks : List Block → Bool
covered_blocks [] = true
covered_blocks ((b, ms) ∷ bs) = all_covered ms && covered_blocks bs

both : (a b : Bool) → (a && b) ≡ true → (a ≡ true) × (b ≡ true)
both a b h = ground arith

shown-covered : (bs : List Block) → covered_blocks bs ≡ true → all_covered (shown bs) ≡ true
unfolding all_covered
shown-covered [] h = refl
shown-covered ((true, ms) ∷ bs) h =
    let (a, b) = both (all_covered ms) (covered_blocks bs) h in
    all_covered-append ms (shown bs) a (shown-covered bs b)
shown-covered ((false, ms) ∷ bs) h =
    shown-covered bs (both (all_covered ms) (covered_blocks bs) h).1

pub covered_blocks-append :
    (bs cs : List Block)
    → covered_blocks bs ≡ true
    → covered_blocks cs ≡ true
    → covered_blocks (bs ++ cs) ≡ true
covered_blocks-append [] cs h k = k
covered_blocks-append ((b, ms) ∷ bs) cs h k =
    let (x, y) = both (all_covered ms) (covered_blocks bs) h in
    rw (x, covered_blocks-append bs cs y k) refl

pub covered_blocks-each {ℓ} :
    {A : Type ℓ} (f : A → List Block) (xs : List A)
    → ((x : A) → covered_blocks (f x) ≡ true)
    → covered_blocks (each f xs) ≡ true
covered_blocks-each f [] h = refl
covered_blocks-each f (x ∷ xs) h =
    covered_blocks-append (f x) (each f xs) (h x) (covered_blocks-each f xs h)

-- Then every text that is shown can be read in both languages.
pub shown-Reads :
    (l : Locale) (bs : List Block) → covered_blocks bs ≡ true → All (Reads l) (shown bs)
shown-Reads l bs h = all_covered-Reads l (shown bs) (shown-covered bs h)

-- Both values of a test.
pub either {ℓ} :
    {A : Type ℓ} (p : A → Bool) (b : Bool) (x y : A)
    → p x ≡ true
    → p y ≡ true
    → p (if b then x else y) ≡ true
either p true x y h k = h
either p false x y h k = k
