-- ===== src/Api/Laws.antt =====
-- What a failed request tells the user.
use sbm.Base.{
  ℕ, ◌-◌, ◌≤◌, ◌≡◌, refl, true, false, Option, none, some, [], ◌∷◌, ◌++◌, ◌==◌, length, drop,
  All_map, arith, Bool-cases, inl, inr,
}
use sbm.Base.Text.{Text, codes}
use sbm.Base.Decimal.{decimal, decimal-IsDigit, IsDigit, decimal-length}
use sbm.Async.{Settled, fulfilled, rejected}
use sbm.I18n.{
  Locale, Catalog, or_text, look_up, starts_with, replace_from, replace_all, placeholder, fill, t,
}
use sbm.I18n.Template.{NoDollar, expand-NoDollar}
use sbm.Api.{Answer, Response, Failure, server_message, settle, shown_message}

length-append_le : (s r : Text) → length s ≤ length (s ++ r)
length-append_le [] r = omega arith
length-append_le (c ∷ s) r = omega (arith, length-append_le s r)

or_text-length : (o : Option Text) (s : Text) → 1 ≤ length s → 1 ≤ length (or_text o s)
unfolding or_text
or_text-length none s h = h
or_text-length (some []) s h = h
or_text-length (some (c ∷ r)) s h = omega arith

or_text-same : (s r : Text) → 1 ≤ length s → or_text (some s) r ≡ s
unfolding or_text
or_text-same [] r h = absurd (omega arith)
or_text-same (c ∷ s) r h = refl

look_up-length :
    (messages : Catalog) (l : Locale) (key : Text)
    → 1 ≤ length key
    → 1 ≤ length (look_up messages l key)
unfolding look_up
look_up-length messages l key h =
    or_text-length (messages l key) _ (or_text-length (messages Locale.en key) key h)

replace_all-length :
    (pat repl s : Text)
    → NoDollar repl
    → 1 ≤ length repl
    → 1 ≤ length s
    → 1 ≤ length (replace_all pat repl s)
unfolding replace_all
replace_all-length pat repl [] d r h = absurd (omega arith)
replace_all-length pat repl (c ∷ s) d r h = elim (Bool-cases (starts_with pat (c ∷ s))) [
  | inl found ↦
      rw (replace_from, found, expand-NoDollar pat [] (drop (length pat) (c ∷ s)) repl d)
        (omega (arith, length-append_le repl (replace_from pat repl (c ∷ []) (length pat - 1) s)))
  | inr other ↦ rw (replace_from, other) (omega arith)
]

decimal-NoDollar : (n : ℕ) → NoDollar (decimal n)
decimal-NoDollar n =
    All_map IsDigit (λ c. (c == b'$') ≡ false) (decimal n) (λ c h. ground arith) (decimal-IsDigit n)

-- Neither text that `api` makes of the catalog is empty.
unreachable-length :
    (messages : Catalog) (l : Locale) → 1 ≤ length (t messages l (codes "api.unreachable") [])
unfolding t fill
unreachable-length messages l = look_up-length messages l (codes "api.unreachable") (omega arith)

failed-length :
    (messages : Catalog) (l : Locale) (n : ℕ)
    → 1 ≤ length (t messages l (codes "api.failed") ((codes "status", decimal n) ∷ []))
unfolding t fill
failed-length messages l n =
    replace_all-length (placeholder (codes "status")) (decimal n) _ (decimal-NoDollar n)
      (decimal-length n) (look_up-length messages l (codes "api.failed") (omega arith))

-- The status that a failure carries.
abbrev pub status_of : {A : Type 0} → Response A → Option ℕ
status_of none = none
status_of (some a) = some a.status

message-told :
    (messages : Catalog) (l : Locale) (m : Text) (status : Option ℕ)
    → 1 ≤ length m
    → shown_message messages l (record { message = m; status = status }) ≡ m
unfolding shown_message
message-told messages l m status h = or_text-same m _ h

abbrev pub Failed : {A : Type 0} → Response A → Type 0
Failed none = Unit
Failed (some a) = a.ok ≡ false

-- What a caller is told.
pub data Tells {A : Type 0} (messages : Catalog) (l : Locale)
    : Response A → Settled A Failure → Type 0 where
  content : (a : Answer A) → a.ok ≡ true → Tells messages l (some a) (fulfilled a.content)
  failure :
      (r : Response A) (e : Failure)
      → Failed r
      → 1 ≤ length e.message
      → shown_message messages l e ≡ e.message
      → e.status ≡ status_of r
      → Tells messages l r (rejected e)

settle_ok :
    {A : Type 0} (messages : Catalog) (l : Locale) (a : Answer A)
    → a.ok ≡ true
    → settle messages l (some a) ≡ fulfilled a.content
unfolding settle
settle_ok messages l a h = rw h refl

settle_failed :
    {A : Type 0} (messages : Catalog) (l : Locale) (a : Answer A)
    → a.ok ≡ false
    → settle messages l (some a)
      ≡ rejected (record {
        message =
            or_text
              (server_message messages l a)
              (t messages l (codes "api.failed") ((codes "status", decimal a.status) ∷ []));
        status = some a.status;
      })
unfolding settle
settle_failed messages l a h = simp h refl

settle_offline :
    {A : Type 0} (messages : Catalog) (l : Locale)
    → settle messages l {A = A} none
      ≡ rejected (record { message = t messages l (codes "api.unreachable") []; status = none })
unfolding settle
settle_offline messages l = refl

-- A request gives the content of its answer if the answer is ok. In any other case it throws, with the
-- answer's status, a message that is never empty, and that the user is then shown as it is.
pub settle-Tells :
    {A : Type 0} (messages : Catalog) (l : Locale) (r : Response A)
    → Tells messages l r (settle messages l r)
settle-Tells {A = A} messages l none =
    let some_text = unreachable-length messages l in
    rw (settle_offline {A = A} messages l)
      (failure none _ tt some_text (message-told messages l _ none some_text) refl)
settle-Tells messages l (some a) = elim (Bool-cases a.ok) [
  | inl good ↦ rw (settle_ok messages l a good) (content a good)
  | inr bad ↦
      let some_text =
        or_text-length (server_message messages l a) _ (failed-length messages l a.status) in
      rw (settle_failed messages l a bad) (
        failure (some a) _ bad some_text (message-told messages l _ (some a.status) some_text) refl)
]
