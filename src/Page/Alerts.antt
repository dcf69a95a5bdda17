-- ===== src/Page/Alerts.antt =====
-- The errors that the traffic's components, the calibration and the login show are texts that can be read.
use sbm.Base.{
  ◌≡◌, refl, Bool, true, false, if◌then◌else◌, Option, none, some, List, [], ◌⊎◌, inl, inr,
}
use sbm.Message.{Message, Thrown, error_message}
use sbm.Catalog.Covered.{all_covered}
use sbm.Page.{alert}
use sbm.Page.Toasts.{error_message-covered, said_too}

-- A message that is shown, if there is one, is covered.
abbrev pub FineAlert : Option Message → Type 0
FineAlert o = all_covered (alert o) ≡ true

-- No error, or what `errorMessage` makes of one.
abbrev pub IsCaught : Option Message → Type 0
IsCaught o = (o ≡ none) ⊎ ((e : Thrown) × (o ≡ some (error_message e)))

pub IsCaught-FineAlert : (o : Option Message) → IsCaught o → FineAlert o
unfolding all_covered
IsCaught-FineAlert o (inl e) = rw e refl
IsCaught-FineAlert o (inr (x, e)) =
    rw e (said_too (error_message x) [] (error_message-covered x) refl)

-- A component with its error.
pub record FineView {S : Type 0} (error_of : S → Option Message) (v : S) : Type 0 where
  pub shows : FineAlert (error_of v)

pub record Fine {S C : Type 0} (error_of : S → Option Message) (p : S × List C) : Type 0 where
  pub state : FineAlert (error_of p.0)

pub FineView-if :
    {S : Type 0} (error_of : S → Option Message) (b : Bool) (v w : S)
    → FineView error_of v
    → FineView error_of w
    → FineView error_of (if b then v else w)
FineView-if error_of true v w h k = h
FineView-if error_of false v w h k = k

pub Fine-if :
    {S C : Type 0} (error_of : S → Option Message) (b : Bool) (p q : S × List C)
    → Fine error_of p
    → Fine error_of q
    → Fine error_of (if b then p else q)
Fine-if error_of true p q h k = h
Fine-if error_of false p q h k = k

pub FineView-intro :
    {S : Type 0} (error_of : S → Option Message) (v : S)
    → FineAlert (error_of v)
    → FineView error_of v
FineView-intro error_of v h = record { shows = h }
